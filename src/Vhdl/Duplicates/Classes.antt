-- ===== src/Vhdl/Duplicates/Classes.antt =====
-- The subprograms of one signature, and what it takes for one to stay.
use hif_frontend.Common.{
  ◌≡◌, refl, sym, ◌⊎◌, inl, inr, Bool, true, false, ◌&&◌, ◌||◌, none, some, List, [], ◌∷◌, arith,
  Bool-cases,
}
use hif_frontend.Vhdl.Duplicates.{
  SubProgram, Declaration, sub_program, other_declaration, has_body, remaining, has_same_signature,
}
use hif_frontend.Vhdl.Duplicates.Marks.{nearest, removed_by_prior, removed_by_next, removed_marks}

pub or_both : (a b : Bool) → a ≡ false → b ≡ false → (a || b) ≡ false
or_both a b h k = ground arith

abbrev pub Declares : {D S B : Type 0} → SubProgram S B → List (Declaration D S B) → Type 0
Declares s [] = ⊥
Declares s (other_declaration d ∷ ds) = Declares s ds
Declares s (sub_program t ∷ ds) = (t ≡ s) ⊎ Declares s ds

module _ {D S B : Type 0} (equals : SubProgram S B → SubProgram S B → Bool) where
  -- Some subprogram of the signature has a body.
  abbrev pub class_has_body : SubProgram S B → List (Declaration D S B) → Bool
  class_has_body s [] = false
  class_has_body s (other_declaration d ∷ ds) = class_has_body s ds
  class_has_body s (sub_program t ∷ ds) =
      (has_same_signature equals s t && has_body t) || class_has_body s ds

  -- A subprogram of the signature stays, with a body if one is wanted.
  abbrev pub Survives : SubProgram S B → Bool → List (Declaration D S B) → Type 0
  Survives s wanted ds =
      (t : SubProgram S B) × Declares t ds
      × (has_same_signature equals s t ≡ true)
      × (wanted ≡ true → has_body t ≡ true)

  abbrev pub left_over :
      List (Declaration D S B) → List (Declaration D S B) → List (Declaration D S B)
  left_over q ds = remaining ds (removed_marks equals q ds)

  pub behind :
      (s t : SubProgram S B) (wanted : Bool) (q ds : List (Declaration D S B))
      → Survives s wanted (left_over (sub_program t ∷ q) ds)
      → Survives s wanted (left_over q (sub_program t ∷ ds))
  behind s t wanted q ds (u, declared, same, body) =
      elim (Bool-cases (removed_by_prior equals t q || removed_by_next equals t ds)) [
        | inl e ↦ rw e (u, declared, same, body)
        | inr e ↦ rw e (u, inr declared, same, body)
      ]

  -- The first of its signature is not the one to go for what stands before it; or the body is behind.
  abbrev pub Kept : SubProgram S B → List (Declaration D S B) → List (Declaration D S B) → Type 0
  Kept s q ds =
      ((f : SubProgram S B)
        → nearest equals s ds ≡ some f
        → removed_by_prior equals f q ≡ false
        → Survives s (class_has_body s ds) (left_over q ds))
      × ((f : SubProgram S B)
          → nearest equals s ds ≡ some f
          → has_body f ≡ false
          → class_has_body s ds ≡ true
          → Survives s true (left_over q ds))

  pub nearest_has :
      (s f : SubProgram S B) (ds : List (Declaration D S B))
      → nearest equals s ds ≡ some f
      → has_same_signature equals s f ≡ true
  nearest_has s f [] h = cc
  nearest_has s f (other_declaration d ∷ ds) h = nearest_has s f ds h
  nearest_has s f (sub_program t ∷ ds) h = elim (Bool-cases (has_same_signature equals s t)) [
    | inl e ↦ let e' : t ≡ f = cc (rw e at h) in rw (sym e') e
    | inr e ↦ nearest_has s f ds (rw e at h)
  ]

  pub none_has_body :
      (s : SubProgram S B) (ds : List (Declaration D S B))
      → nearest equals s ds ≡ none
      → class_has_body s ds ≡ false
  none_has_body s [] h = refl
  none_has_body s (other_declaration d ∷ ds) h = none_has_body s ds h
  none_has_body s (sub_program t ∷ ds) h = elim (Bool-cases (has_same_signature equals s t)) [
    | inl e ↦ cc (rw e at h)
    | inr e ↦ rw e (none_has_body s ds (rw e at h))
  ]

  pub stays_first :
      (s t : SubProgram S B) (wanted : Bool) (q ds : List (Declaration D S B))
      → has_same_signature equals s t ≡ true
      → (removed_by_prior equals t q || removed_by_next equals t ds) ≡ false
      → (wanted ≡ true → has_body t ≡ true)
      → Survives s wanted (left_over q (sub_program t ∷ ds))
  stays_first s t wanted q ds same h body = rw h (t, inl refl, same, body)
