-- ===== src/Vhdl/Operators/Standard/Kept.antt =====
-- What taking out the nodes of a set leaves of a library.
use hif_frontend.Common.{
  ℕ, suc, ◌≡◌, refl, ap, ◌∙◌, Bool, true, false, ◌||◌, List, [], ◌∷◌, ◌++◌, arith, ◌==◌, keep, map,
  All,
}
use hif_frontend.Hif.{HifType}
use hif_frontend.Vhdl.Operators.{Row}
use hif_frontend.Vhdl.Operators.Standard.{
  Declaration, own, overload, LibraryDef, Visitor, stays, without, replace_by_null,
  remove_standard_operator_overloads,
}
use hif_frontend.Vhdl.Operators.Standard.Added.{Overloads, after}

abbrev pub member : ℕ → List ℕ → Bool
member a [] = false
member a (sub ∷ operators) = a == sub || member a operators

abbrev pub Contains : List ℕ → List ℕ → Type 0
Contains operators more = (a : ℕ) → member a operators ≡ true → member a more ≡ true

pub after-Contains :
    (rows : List Row) (visitor : Visitor)
    → Contains visitor.operators (after rows visitor).operators
after-Contains [] visitor a h = h
after-Contains (row ∷ rows) visitor a h =
    after-Contains rows
      (record { operators = visitor.next ∷ visitor.operators; next = suc visitor.next }) a
      (ground arith)

module _ {D R : Type 0} where
  -- The declarations of a library that are not overloads.
  abbrev pub IsOwn : Declaration D R → Type 0
  IsOwn (own d) = Unit
  IsOwn (overload address sub) = ⊥

  abbrev pub HasNoOverload : LibraryDef D R → Type 0
  HasNoOverload ld = All IsOwn ld.declarations

  -- Taking out each node of a set, one after the other.
  abbrev pub keep_all : List ℕ → List (Declaration D R) → List (Declaration D R)
  keep_all [] ds = ds
  keep_all (sub ∷ operators) ds = keep_all operators (keep (stays sub) ds)

  keep-append :
      (sub : ℕ) (xs ys : List (Declaration D R))
      → keep (stays sub) (xs ++ ys) ≡ keep (stays sub) xs ++ keep (stays sub) ys
  keep-append sub [] ys = refl
  keep-append sub (x ∷ xs) ys = ground (arith, keep-append sub xs ys)

  keep_all-append :
      (operators : List ℕ) (xs ys : List (Declaration D R))
      → keep_all operators (xs ++ ys) ≡ keep_all operators xs ++ keep_all operators ys
  keep_all-append [] xs ys = refl
  keep_all-append (sub ∷ operators) xs ys =
      rw (keep-append sub xs ys)
        (keep_all-append operators (keep (stays sub) xs) (keep (stays sub) ys))

  keep-own : (sub : ℕ) (ds : List (Declaration D R)) → All IsOwn ds → keep (stays sub) ds ≡ ds
  keep-own sub [] h = refl
  keep-own sub (own d ∷ ds) (_, h) = ap (λ ds. own d ∷ ds) (keep-own sub ds h)
  keep-own sub (overload a f ∷ ds) (h, _) = absurd h

  keep_all-own :
      (operators : List ℕ) (ds : List (Declaration D R)) → All IsOwn ds → keep_all operators ds ≡ ds
  keep_all-own [] ds h = refl
  keep_all-own (sub ∷ operators) ds h = rw (keep-own sub ds h) (keep_all-own operators ds h)

  keep_all_nil : (operators : List ℕ) → keep_all operators [] ≡ []
  keep_all_nil [] = refl
  keep_all_nil (sub ∷ operators) = keep_all_nil operators

  pub remove-map :
      (operators : List ℕ) (ld : LibraryDef D R) (libraries : List (LibraryDef D R))
      → remove_standard_operator_overloads operators (ld ∷ libraries)
        ≡ record ld { declarations = keep_all operators ld.declarations }
          ∷ remove_standard_operator_overloads operators libraries
  unfolding remove_standard_operator_overloads replace_by_null
  remove-map [] ld libraries = refl
  remove-map (sub ∷ operators) ld libraries =
      remove-map operators (without sub ld) (map (without sub) libraries)

  pub remove_nil :
      (operators : List ℕ) → remove_standard_operator_overloads {D = D} {R = R} operators [] ≡ []
  unfolding remove_standard_operator_overloads replace_by_null
  remove_nil [] = refl
  remove_nil (sub ∷ operators) = remove_nil operators

  -- A set that holds the address of each of some overloads takes them all out.
  abbrev pub Removes : List ℕ → Declaration D R → Type 0
  Removes operators (own d) = ⊥
  Removes operators (overload address sub) = member address operators ≡ true

  keep_all-member :
      (operators : List ℕ) (d : Declaration D R)
      → Removes operators d
      → keep_all operators (d ∷ []) ≡ []
  keep_all-member operators (own d) h = absurd h
  keep_all-member [] (overload a f) h = cc
  keep_all-member (sub ∷ operators) (overload a f) h =
      go (a == sub) refl h (λ h. keep_all-member operators (overload a f) h)
    where
      go :
          (b : Bool)
          → (a == sub) ≡ b
          → (b || member a operators) ≡ true
          → (member a operators ≡ true → keep_all operators (overload a f ∷ []) ≡ [])
          → keep_all (sub ∷ operators) (overload a f ∷ []) ≡ []
      go true e h rest = rw e (keep_all_nil operators)
      go false e h rest = rw e (rest h)

  -- A declaration of the library itself, or an overload that the set takes out.
  abbrev pub Gone : List ℕ → Declaration D R → Type 0
  Gone operators (own d) = Unit
  Gone operators (overload address sub) = member address operators ≡ true

  abbrev pub is_own : Declaration D R → Bool
  is_own (own d) = true
  is_own (overload address sub) = false

  pub keep_all-Gone :
      (operators : List ℕ) (ds : List (Declaration D R))
      → All (Gone operators) ds
      → keep_all operators ds ≡ keep is_own ds
  keep_all-Gone operators [] h = keep_all_nil operators
  keep_all-Gone operators (own d ∷ ds) (h, hs) =
      keep_all-append operators (own d ∷ []) ds
      ∙ rw (keep_all-own operators (own d ∷ []) (tt, tt), keep_all-Gone operators ds hs) refl
  keep_all-Gone operators (overload a f ∷ ds) (h, hs) =
      keep_all-append operators (overload a f ∷ []) ds
      ∙ rw (keep_all-member operators (overload a f) h) (keep_all-Gone operators ds hs)

  pub Overloads-Removes :
      (integer : HifType R) {rows : List Row} (visitor : Visitor) {ds : List (Declaration D R)}
      (operators : List ℕ)
      → Overloads integer rows visitor.next ds
      → Contains (after rows visitor).operators operators
      → All (Removes operators) ds
  Overloads-Removes integer visitor operators Overloads.none c = tt
  Overloads-Removes integer visitor operators (Overloads.next {rows = rows} e os) c =
      let visitor' : Visitor = record {
        operators = visitor.next ∷ visitor.operators;
        next = suc visitor.next;
      } in
      (
        c visitor.next (after-Contains rows visitor' visitor.next (ground arith)),
        Overloads-Removes integer visitor' operators os c,
      )
