-- ===== src/Vhdl/Libraries/UseClauses.antt =====
-- The library of a use clause, after `visitLibrary`.
use hif_frontend.Common.{
  ◌≡◌, refl, ◌⊎◌, inl, inr, Bool, true, false, not, ◌&&◌, ◌||◌, Option, none, some, ◌++◌, Bytes,
  codes, if◌then◌else◌, text_eq, text_eq-eq, Bool-cases,
}
use hif_frontend.Common.Outcome.{Result, ok}
use hif_frontend.Vhdl.Ranges.Libraries.{
  Library, plain, of_instance, Visited, becomes, is_standard_name, visit_library,
}
use hif_frontend.Vhdl.Libraries.{
  identifier, field_reference, hang, resolve_identifier, resolve_loop, resolve_library_type,
}

either_name :
    (name : Bytes) → is_standard_name name ≡ true → (name ≡ codes "ieee") ⊎ (name ≡ codes "std")
unfolding is_standard_name
either_name name h = elim (Bool-cases (text_eq name (codes "ieee"))) [
  | inl e ↦ inl (text_eq-eq name (codes "ieee") e)
  | inr e ↦ inr (text_eq-eq name (codes "std") (rw e at h))
]

standard_not_work :
    (name : Bytes) → is_standard_name name ≡ true → text_eq name (codes "work") ≡ false
unfolding text_eq
standard_not_work name h = elim (either_name name h) [ inl e ↦ rw e refl | inr e ↦ rw e refl ]

module _ (declares_library : Library → Bool) (skip_not_found : Bool) where
  first_library :
      (lib : Bytes)
      → is_standard_name lib ≡ true
      → (not skip_not_found || declares_library (plain lib false)) ≡ true
      → (ret : Library)
      → resolve_identifier declares_library skip_not_found lib (some ret)
        ≡ ok (some (hang ret (plain lib false)))
  first_library lib h k ret =
      rw (standard_not_work lib h) (go skip_not_found (declares_library (plain lib false)) k)
    where
      go :
          (s declared : Bool)
          → (not s || declared) ≡ true
          → ◌≡◌ {A = Result (Option Library)}
              (if s && not declared then ok none else ok (some (hang ret (plain lib false))))
              (ok (some (hang ret (plain lib false))))
      go true true k = refl
      go true false k = cc
      go false declared k = refl

module _ (V : Type 0) (declares_library : Library → Bool) (declares_view : Bytes → Bool)
    (skip_not_found : Bool) where
  -- A name of a package of `ieee` or `std`, whatever its item, and `all` as well, as a use clause has
  -- it: the routine gives a library that the visit changes into the one of the system that has the
  -- name of the library and of the package, joined by an underline. A declaration of the library is
  -- needed only where the routine skips what is not found, which it does not for use clauses.
  pub visit_library-resolve_library_type :
      (lib unit item : Bytes) (is_in_list : Bool)
      → is_standard_name lib ≡ true
      → (not skip_not_found || declares_library (plain lib false)) ≡ true
      → text_eq unit (codes "all") ≡ false
      → (found : Library) × (resolve_library_type {V = V} declares_library skip_not_found
            (some (field_reference (field_reference (identifier lib) unit) item))
          ≡ ok (some found))
        × (visit_library declares_library declares_view found is_in_list
            ≡ ok (becomes (plain (lib ++ codes "_" ++ unit) true) none))
  unfolding resolve_library_type resolve_loop visit_library
  visit_library-resolve_library_type lib unit item is_in_list h k l =
      elim (Bool-cases (text_eq item (codes "all"))) [
        | inl e ↦ (
          of_instance (plain lib false) unit false,
          rw (e, l) (first_library declares_library skip_not_found lib h k (plain unit false)),
          rw h refl,
        )
        | inr e ↦ (
          of_instance (of_instance (plain lib false) unit false) item false,
          rw (e, l)
              (first_library declares_library skip_not_found lib h k
                (of_instance (plain unit false) item false)),
          rw h (nested (is_standard_name unit)),
        )
      ]
    where
      nested :
          (b : Bool)
          → ◌≡◌ {A = Result Visited}
              (ok (
                if b || true
                then becomes (plain (lib ++ codes "_" ++ unit) true) none
                else becomes
                    (plain unit false)
                    (some (lib ++ codes "." ++ unit ++ codes "." ++ item))))
              (ok (becomes (plain (lib ++ codes "_" ++ unit) true) none))
      nested true = refl
      nested false = refl
