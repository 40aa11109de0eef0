-- ===== src/Vhdl/Libraries/Names.antt =====
-- The names of the library that a dotted name stands for.
use hif_frontend.Common.{
  ◌≡◌, refl, sym, ap, ◌∙◌, Bool, true, false, not, ◌&&◌, ◌||◌, Option, none, some, List, [], ◌∷◌,
  ◌++◌, append-nil, append_assoc, Bytes, codes, if◌then◌else◌, text_eq, Bool-cases, inl, inr,
}
use hif_frontend.Common.Outcome.{ok}
use hif_frontend.Vhdl.Ranges.Libraries.{Library, plain, of_instance}
use hif_frontend.Vhdl.Libraries.{
  Name, identifier, field_reference, instance_name, other_value, hang, hang_on, resolve_loop,
  resolve_library_type,
}

-- The names of a library, the innermost first.
abbrev pub names : Library → List Bytes
names (plain name is_system) = name ∷ []
names (of_instance inner name is_system) = names inner ++ (name ∷ [])

abbrev pub all_names : Option Library → List Bytes
all_names none = []
all_names (some library) = names library

-- The names of a dotted name, without a leading `work` and without `all` behind a point.
abbrev pub kept_names : {V : Type 0} → Name V → List Bytes
kept_names (identifier name) = if text_eq name (codes "work") then [] else name ∷ []
kept_names (field_reference prefix name) =
    kept_names prefix ++ (if text_eq name (codes "all") then [] else name ∷ [])
kept_names _ = []

-- The name is made of identifiers, the first of which is `work` or a library that is found.
abbrev pub is_dotted : {V : Type 0} → (Library → Bool) → Name V → Bool
is_dotted declares_library (identifier name) =
    text_eq name (codes "work") || declares_library (plain name false)
is_dotted declares_library (field_reference prefix name) = is_dotted declares_library prefix
is_dotted declares_library _ = false

names-hang : (ret lib : Library) → names (hang ret lib) ≡ names lib ++ names ret
names-hang (plain name is_system) lib = refl
names-hang (of_instance inner name is_system) lib =
    ap (λ l. l ++ (name ∷ [])) (names-hang inner lib)
    ∙ append_assoc (names lib) (names inner) (name ∷ [])

names-hang_on :
    (ret : Option Library) (lib : Library) → names (hang_on ret lib) ≡ names lib ++ all_names ret
names-hang_on none lib = sym (append-nil (names lib))
names-hang_on (some ret) lib = names-hang ret lib

module _ {V : Type 0} (declares_library : Library → Bool) (skip_not_found : Bool) where
  abbrev Resolved : Name V → Option Library → Type 0
  Resolved name ret =
      (found : Option Library) × (resolve_loop declares_library skip_not_found name ret ≡ ok found)
      × (all_names found ≡ kept_names name ++ all_names ret)

  resolve_loop_lem :
      (name : Name V) (ret : Option Library)
      → is_dotted declares_library name ≡ true
      → Resolved name ret
  unfolding resolve_loop
  resolve_loop_lem (identifier name) ret h = elim (Bool-cases (text_eq name (codes "work"))) [
    | inl e ↦ rw e (ret, refl, refl)
    | inr e ↦
        rw (e, go skip_not_found (declares_library (plain name false)) (rw e at h))
          (some (hang_on ret (plain name false)), refl, names-hang_on ret (plain name false))
  ]
    where
      go : (s d : Bool) → d ≡ true → (s && not d) ≡ false
      go true true h = refl
      go true false h = cc
      go false d h = refl
  resolve_loop_lem (field_reference prefix name) ret h =
      elim (Bool-cases (text_eq name (codes "all"))) [
        | inl e ↦
            let (found, returns, same) = resolve_loop_lem prefix ret h in
            (
              found,
              rw e returns,
              rw e (same ∙ ap (λ l. l ++ all_names ret) (sym (append-nil (kept_names prefix)))),
            )
        | inr e ↦
            let (found, returns, same) =
              resolve_loop_lem prefix (some (hang_on ret (plain name false))) h in
            (
              found,
              rw e returns,
              rw e (
                  same
                  ∙ ap (λ l. kept_names prefix ++ l) (names-hang_on ret (plain name false))
                  ∙ sym (append_assoc (kept_names prefix) (name ∷ []) (all_names ret))),
            )
      ]
  resolve_loop_lem (instance_name referenced) ret h = cc
  resolve_loop_lem (other_value v) ret h = cc

  -- For a dotted name that starts with `work` or with a library that is found, the routine returns, and
  -- the names of the library that it makes, from the innermost one, are those of the dotted name
  -- without a leading `work` and without `all` behind a point; there is no library if none is left.
  pub resolve_library_type_lem :
      (name : Name V)
      → is_dotted declares_library name ≡ true
      → (found : Option Library) × (resolve_library_type declares_library skip_not_found (some name)
          ≡ ok found)
        × (all_names found ≡ kept_names name)
  unfolding resolve_library_type
  resolve_library_type_lem name h =
      let (found, returns, same) = resolve_loop_lem name none h in
      (found, returns, same ∙ append-nil (kept_names name))
