-- ===== src/Vhdl/Operators/Standard/Removed.antt =====
-- What is left when the visitor is gone.
use mathlib.Core.Path.{subst}
use hif_frontend.Common.{
  ℕ, ◌≡◌, refl, ap, ◌∙◌, ◌⊎◌, inl, inr, true, List, [], ◌∷◌, ◌++◌, keep, map, All,
}
use hif_frontend.Common.Outcome.{Error, Result, ok, err}
use hif_frontend.Hif.{HifType}
use hif_frontend.Vhdl.Operators.Standard.{
  Declaration, own, overload, LibraryDef, Visitor, add_standard_operator_overloads,
  insert_overloads, visit_system, remove_standard_operator_overloads,
}
use hif_frontend.Vhdl.Operators.Standard.Added.{after, add_standard_operator_overloads_lem}
use hif_frontend.Vhdl.Operators.Standard.Kept.{
  member, Contains, after-Contains, IsOwn, HasNoOverload, remove-map, remove_nil, Removes, Gone,
  is_own, keep_all-Gone, Overloads-Removes,
}

module _ {D R : Type 0} where
  -- What a visit may make of a declaration: one of the same kind, an overload in the same node.
  abbrev pub SameDeclaration : (before after : Declaration D R) → Type 0
  SameDeclaration (own d) (own d') = Unit
  SameDeclaration (own d) (overload a' f') = ⊥
  SameDeclaration (overload a f) (own d') = ⊥
  SameDeclaration (overload a f) (overload a' f') = a ≡ a'

  abbrev pub SameDeclarations : (before after : List (Declaration D R)) → Type 0
  SameDeclarations [] [] = Unit
  SameDeclarations [] (d' ∷ ds') = ⊥
  SameDeclarations (d ∷ ds) [] = ⊥
  SameDeclarations (d ∷ ds) (d' ∷ ds') = SameDeclaration d d' × SameDeclarations ds ds'

  -- Each library and each declaration is in its place.
  abbrev pub InPlace : (before after : List (LibraryDef D R)) → Type 0
  InPlace [] [] = Unit
  InPlace [] (ld' ∷ libraries') = ⊥
  InPlace (ld ∷ libraries) [] = ⊥
  InPlace (ld ∷ libraries) (ld' ∷ libraries') =
      (ld'.name ≡ ld.name)
      × (ld'.is_standard ≡ ld.is_standard)
      × (SameDeclarations ld.declarations ld'.declarations)
      × InPlace libraries libraries'

  -- A library with no more than its own declarations.
  abbrev pub own_only : LibraryDef D R → LibraryDef D R
  own_only ld = record ld { declarations = keep is_own ld.declarations }

  Gone-SameDeclarations :
      (operators : List ℕ) (ds ds' : List (Declaration D R))
      → All (Gone operators) ds
      → SameDeclarations ds ds'
      → All (Gone operators) ds'
  Gone-SameDeclarations operators [] [] h e = tt
  Gone-SameDeclarations operators [] (d' ∷ ds') h e = absurd e
  Gone-SameDeclarations operators (d ∷ ds) [] h e = absurd e
  Gone-SameDeclarations operators (own d ∷ ds) (own d' ∷ ds') (h, hs) (e, es) =
      (tt, Gone-SameDeclarations operators ds ds' hs es)
  Gone-SameDeclarations operators (own d ∷ ds) (overload a' f' ∷ ds') h (e, es) = absurd e
  Gone-SameDeclarations operators (overload a f ∷ ds) (own d' ∷ ds') h (e, es) = absurd e
  Gone-SameDeclarations operators (overload a f ∷ ds) (overload a' f' ∷ ds') (h, hs) (e, es) =
      (subst (λ x. member x operators ≡ true) e h, Gone-SameDeclarations operators ds ds' hs es)

  Gone-new :
      (operators : List ℕ) (old new : List (Declaration D R))
      → All IsOwn old
      → All (Removes operators) new
      → All (Gone operators) (old ++ new)
  Gone-new operators [] [] h k = tt
  Gone-new operators [] (own d ∷ new) h (k, ks) = absurd k
  Gone-new operators [] (overload a f ∷ new) h (k, ks) = (k, Gone-new operators [] new h ks)
  Gone-new operators (own d ∷ old) new (h, hs) k = (tt, Gone-new operators old new hs k)
  Gone-new operators (overload a f ∷ old) new (h, hs) k = absurd h

  -- The declarations that a visit leaves are those of the library itself, if the overloads go.
  SameDeclarations-old :
      (operators : List ℕ) (old new ds' : List (Declaration D R))
      → All IsOwn old
      → All (Removes operators) new
      → SameDeclarations (old ++ new) ds'
      → SameDeclarations old (keep is_own ds')
  SameDeclarations-old operators [] [] [] h k e = tt
  SameDeclarations-old operators [] [] (d' ∷ ds') h k e = absurd e
  SameDeclarations-old operators [] (d ∷ new) [] h k e = absurd e
  SameDeclarations-old operators [] (own d ∷ new) (d' ∷ ds') h (k, ks) e = absurd k
  SameDeclarations-old operators [] (overload a f ∷ new) (own d' ∷ ds') h k (e, es) = absurd e
  SameDeclarations-old operators [] (overload a f ∷ new) (overload a' f' ∷ ds') h (k, ks) (e, es) =
      SameDeclarations-old operators [] new ds' h ks es
  SameDeclarations-old operators (overload a f ∷ old) new ds' (h, hs) k e = absurd h
  SameDeclarations-old operators (own d ∷ old) new [] h k e = absurd e
  SameDeclarations-old operators (own d ∷ old) new (overload a' f' ∷ ds') h k (e, es) = absurd e
  SameDeclarations-old operators (own d ∷ old) new (own d' ∷ ds') (h, hs) k (e, es) =
      (tt, SameDeclarations-old operators old new ds' hs k es)

  insert_overloads_cons :
      (integer : HifType R) (visitor : Visitor) (ld : LibraryDef D R)
      (libraries : List (LibraryDef D R)) {v1 v2 : Visitor} {ld' : LibraryDef D R}
      {libraries' : List (LibraryDef D R)}
      → add_standard_operator_overloads integer visitor ld ≡ ok (v1, ld')
      → insert_overloads integer v1 libraries ≡ ok (v2, libraries')
      → insert_overloads integer visitor (ld ∷ libraries) ≡ ok (v2, ld' ∷ libraries')
  unfolding insert_overloads
  insert_overloads_cons integer visitor ld libraries e f = rw e (rw f refl)

  abbrev with_declarations : List (Declaration D R) → LibraryDef D R → LibraryDef D R
  with_declarations ds ld = record ld { declarations = ds }

  -- Taking out a set leaves of some visited libraries what they have of their own, in place.
  abbrev pub Leaves : List ℕ → (libraries visited : List (LibraryDef D R)) → Type 0
  Leaves operators libraries visited =
      (remove_standard_operator_overloads operators visited ≡ map own_only visited)
      × InPlace libraries (map own_only visited)

  abbrev Restores : HifType R → Visitor → List (LibraryDef D R) → Type 0
  Restores integer visitor libraries =
      (v : Visitor) × (inserted : List (LibraryDef D R)) × (insert_overloads integer visitor
          libraries
        ≡ ok (v, inserted))
      × Contains visitor.operators v.operators
      × ((operators : List ℕ) (visited : List (LibraryDef D R))
          → Contains v.operators operators
          → InPlace inserted visited
          → Leaves operators libraries visited)

  no_library :
      (operators : List ℕ) (visited : List (LibraryDef D R))
      → InPlace [] visited
      → Leaves operators [] visited
  no_library operators [] h = (remove_nil operators, tt)
  no_library operators (ld ∷ visited) h = absurd h

  one_library :
      (operators : List ℕ) (ld : LibraryDef D R) (new : List (Declaration D R))
      (libraries inserted visited : List (LibraryDef D R))
      → HasNoOverload ld
      → All (Removes operators) new
      → ((visited : List (LibraryDef D R))
          → InPlace inserted visited
          → Leaves operators libraries visited)
      → InPlace (record ld { declarations = ld.declarations ++ new } ∷ inserted) visited
      → Leaves operators (ld ∷ libraries) visited
  one_library operators ld new libraries inserted [] h k back e = absurd e
  one_library operators ld new libraries inserted (ld' ∷ visited) h k back (e, e', same, es) =
      let (removed, in_place) = back visited es in
      (
        remove-map operators ld' visited
            ∙ cc (
              removed,
              ap (λ (ds : List (Declaration D R)). with_declarations ds ld')
                  (keep_all-Gone operators ld'.declarations (
                    Gone-SameDeclarations operators (ld.declarations ++ new) ld'.declarations
                      (Gone-new operators ld.declarations new h k) same)),
            ),
        (
          e,
          e',
          SameDeclarations-old operators ld.declarations new ld'.declarations h k same,
          in_place,
        ),
      )

  insert_overloads-Restores :
      (integer : HifType R) (visitor : Visitor) (libraries : List (LibraryDef D R))
      → All HasNoOverload libraries
      → Restores integer visitor libraries
  insert_overloads-Restores integer visitor [] h = (
    visitor,
    [],
    unfold insert_overloads in refl,
    (λ a e. e),
    λ operators visited c e. no_library operators visited e,
  )
  insert_overloads-Restores integer visitor (ld ∷ libraries) (h, hs) =
      let (rows, new, _, e, os) = add_standard_operator_overloads_lem integer visitor ld in
      let (v, inserted, f, c, back) =
        insert_overloads-Restores integer (after rows visitor) libraries hs in
      (
        v,
        record ld { declarations = ld.declarations ++ new } ∷ inserted,
        insert_overloads_cons integer visitor ld libraries e f,
        (λ a m. c a (after-Contains rows visitor a m)),
        λ operators visited d.
            one_library operators ld new libraries inserted visited h
              (Overloads-Removes integer visitor operators os (λ a m. d a (c a m)))
              (λ visited. back operators visited d),
      )

  -- The destructor undoes what `visitSystem` inserts. From libraries without overloads, the insertion
  -- succeeds. If the traversal that follows changes libraries and declarations in place, keeping the
  -- node of each overload, then `visitSystem` either fails with an error of the traversal, or it
  -- returns, and taking out the nodes of `_operators` gives the libraries with exactly their own
  -- declarations, in their places, as the traversal left them.
  pub remove_standard_operator_overloads-visit_system :
      (integer : HifType R) (guide_visit : List (LibraryDef D R) → Result (List (LibraryDef D R)))
      (visitor : Visitor) (libraries : List (LibraryDef D R))
      → ((before visited : List (LibraryDef D R))
          → guide_visit before ≡ ok visited
          → InPlace before visited)
      → All HasNoOverload libraries
      → (v : Visitor) × (inserted : List (LibraryDef D R)) × (insert_overloads integer visitor
            libraries
          ≡ ok (v, inserted))
        × (((e : Error) × (guide_visit inserted ≡ err e)
              × (visit_system integer guide_visit visitor libraries ≡ err e))
            ⊎ ((visited : List (LibraryDef D R)) × (guide_visit inserted ≡ ok visited)
                × (visit_system integer guide_visit visitor libraries ≡ ok (v, visited))
                × Leaves v.operators libraries visited))
  unfolding visit_system
  remove_standard_operator_overloads-visit_system integer guide_visit visitor libraries places h =
      let (v, inserted, e, _, back) = insert_overloads-Restores integer visitor libraries h in
      (v, inserted, e, go v inserted e back (guide_visit inserted) refl)
    where
      go :
          (v : Visitor) (inserted : List (LibraryDef D R))
          → insert_overloads integer visitor libraries ≡ ok (v, inserted)
          → ((operators : List ℕ) (visited : List (LibraryDef D R))
              → Contains v.operators operators
              → InPlace inserted visited
              → Leaves operators libraries visited)
          → (m : Result (List (LibraryDef D R))) → guide_visit inserted ≡ m
          → ((e : Error) × (guide_visit inserted ≡ err e)
              × (visit_system integer guide_visit visitor libraries ≡ err e))
            ⊎ ((visited : List (LibraryDef D R)) × (guide_visit inserted ≡ ok visited)
                × (visit_system integer guide_visit visitor libraries ≡ ok (v, visited))
                × Leaves v.operators libraries visited)
      go v inserted e back (err x) k = inl (x, k, rw (e, visit_system) (rw k refl))
      go v inserted e back (ok visited) k = inr (
        visited,
        k,
        rw (e, visit_system) (rw k refl),
        back v.operators visited (λ a m. m) (places inserted visited k),
      )
