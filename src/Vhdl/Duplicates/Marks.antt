-- ===== src/Vhdl/Duplicates/Marks.antt =====
-- Which subprograms are removed, described by their neighbours of the same signature.
use hif_frontend.Common.{
  ◌≡◌, refl, sym, ◌∙◌, Bool, true, false, not, ◌&&◌, ◌||◌, Option, none, some, List, [], ◌∷◌,
  if◌then◌else◌,
}
use hif_frontend.Vhdl.Duplicates.{
  SubProgram, Declaration, sub_program, other_declaration, has_body, without_state_table,
  has_same_signature,
}

-- A subprogram makes the next one of its signature superfluous, or is made so by it.
abbrev pub replaces : {S B : Type 0} → SubProgram S B → SubProgram S B → Bool
replaces s t = not (not (has_body s) && has_body t)

abbrev pub replaced_by : {S B : Type 0} → Option (SubProgram S B) → SubProgram S B → Bool
replaced_by none s = false
replaced_by (some t) s = replaces t s

abbrev pub gives_way : {S B : Type 0} → SubProgram S B → Option (SubProgram S B) → Bool
gives_way s none = false
gives_way s (some t) = not (replaces s t)

-- Two neighbours of one signature that both have a body, or both have none, are equal.
abbrev pub agrees_with :
    {S B : Type 0}
    → (SubProgram S B → SubProgram S B → Bool)
    → SubProgram S B
    → Option (SubProgram S B)
    → Bool
agrees_with equals s none = true
agrees_with equals s (some t) =
    (has_body s && not (has_body t)) || (not (has_body s) && has_body t) || equals s t

module _ {D S B : Type 0} (equals : SubProgram S B → SubProgram S B → Bool) where
  -- The first subprogram of a list with the signature.
  abbrev pub nearest : SubProgram S B → List (Declaration D S B) → Option (SubProgram S B)
  nearest s [] = none
  nearest s (other_declaration d ∷ ds) = nearest s ds
  nearest s (sub_program t ∷ ds) =
      let rest = nearest s ds in if has_same_signature equals s t then some t else rest

  -- `prior` are the subprograms before, the nearest first.
  abbrev pub removed_by_prior : SubProgram S B → List (Declaration D S B) → Bool
  removed_by_prior s prior = replaced_by (nearest s prior) s

  abbrev pub removed_by_next : SubProgram S B → List (Declaration D S B) → Bool
  removed_by_next s next = gives_way s (nearest s next)

  abbrev pub removed_marks : List (Declaration D S B) → List (Declaration D S B) → List Bool
  removed_marks prior [] = []
  removed_marks prior (other_declaration d ∷ ds) = false ∷ removed_marks prior ds
  removed_marks prior (sub_program s ∷ ds) =
      (removed_by_prior s prior || removed_by_next s ds) ∷ removed_marks (sub_program s ∷ prior) ds

  abbrev pub agree : List (Declaration D S B) → Bool
  agree [] = true
  agree (other_declaration d ∷ ds) = agree ds
  agree (sub_program s ∷ ds) = agrees_with equals s (nearest s ds) && agree ds

module _ {S B : Type 0} (equals : SubProgram S B → SubProgram S B → Bool) where
  -- The comparison is symmetric and transitive.
  abbrev pub IsSymmetric : Type 0
  IsSymmetric = (s t : SubProgram S B) → equals s t ≡ equals t s

  abbrev pub IsTransitive : Type 0
  IsTransitive =
      (s t u : SubProgram S B) → equals s t ≡ true → equals t u ≡ true → equals s u ≡ true

  abbrev pub Classes : Type 0
  Classes =
      (s t u : SubProgram S B)
      → has_same_signature equals s t ≡ true
      → has_same_signature equals s u ≡ has_same_signature equals t u

  pub classes : IsSymmetric → IsTransitive → Classes
  classes symmetric transitive s t u h =
      both_ways (has_same_signature equals s u) (has_same_signature equals t u)
        (λ k.
          transitive (without_state_table t) (without_state_table s) (without_state_table u)
            (symmetric (without_state_table t) (without_state_table s) ∙ h) k)
        (λ k.
          transitive (without_state_table s) (without_state_table t) (without_state_table u) h k)
    where
      both_ways : (a b : Bool) → (a ≡ true → b ≡ true) → (b ≡ true → a ≡ true) → a ≡ b
      both_ways true b f g = sym (f refl)
      both_ways false true f g = g refl
      both_ways false false f g = refl
