-- ===== src/Vhdl/Duplicates/Survivors.antt =====
-- No signature is lost, nor its body.
use hif_frontend.Common.{
  or_left, or_true, ◌≡◌, refl, sym, ◌∙◌, inl, inr, Bool, true, false, Option, none, some, List, [],
  ◌∷◌, if◌then◌else◌, Bool-cases,
}
use mathlib.Core.Path.{subst}
use hif_frontend.Common.Outcome.{ok, err}
use hif_frontend.Vhdl.Duplicates.{
  SubProgram, Declaration, sub_program, other_declaration, LibraryDef, has_body,
  without_state_table, has_same_signature, cleared, fix_library_def,
}
use hif_frontend.Vhdl.Duplicates.Marks.{
  nearest, removed_by_prior, removed_by_next, removed_marks, agree, IsSymmetric, IsTransitive,
  classes,
}
use hif_frontend.Vhdl.Duplicates.Trash.{conflict, nearest_same}
use hif_frontend.Vhdl.Duplicates.Loop.{fix_library_def_lem}
use hif_frontend.Vhdl.Duplicates.Classes.{
  or_both, Declares, class_has_body, Survives, left_over, behind, Kept, nearest_has, none_has_body,
  stays_first,
}

module _ {D S B : Type 0} (equals : SubProgram S B → SubProgram S B → Bool)
    (symmetric : IsSymmetric equals) (transitive : IsTransitive equals) where
  -- The subprogram right behind one without a body, if it has one itself, does not go for it.
  next_kept :
      (s t n : SubProgram S B) (q : List (Declaration D S B))
      → has_same_signature equals s t ≡ true
      → has_same_signature equals s n ≡ true
      → has_body t ≡ false
      → has_body n ≡ true
      → removed_by_prior equals n (sub_program t ∷ q) ≡ false
  next_kept s t n q e e' h k =
      rw (sym (classes equals symmetric transitive s n t e') ∙ e, h, k) refl

  -- At the first of its signature, with what is behind it.
  first_here :
      (s t : SubProgram S B) (q ds : List (Declaration D S B)) (o : Option (SubProgram S B))
      → has_same_signature equals s t ≡ true
      → nearest equals s ds ≡ o
      → Kept equals s (sub_program t ∷ q) ds
      → removed_by_prior equals t q ≡ false
      → Survives equals s
          (class_has_body equals s (sub_program t ∷ ds))
          (left_over equals q (sub_program t ∷ ds))
  first_here s t q ds none e behind_it kept_behind k =
      stays_first equals s t (class_has_body equals s (sub_program t ∷ ds)) q ds e
        (or_both (removed_by_prior equals t q) (removed_by_next equals t ds) k (
          rw
            (
              sym (nearest_same equals symmetric (classes equals symmetric transitive) s t ds e),
              behind_it,
            )
            refl))
        (rw (e, none_has_body equals s ds behind_it) (or_left (has_body t)))
  first_here s t q ds (some n) e behind_it (first, second) k = elim (Bool-cases (has_body t)) [
    | inl body ↦
        stays_first equals s t (class_has_body equals s (sub_program t ∷ ds)) q ds e
          (or_both (removed_by_prior equals t q) (removed_by_next equals t ds) k (
            rw
              (
                sym (nearest_same equals symmetric (classes equals symmetric transitive) s t ds e),
                behind_it,
                body,
              )
              refl))
          (λ _. body)
    | inr no_body ↦ elim (Bool-cases (has_body n)) [
      | inl next_body ↦
          rw (e, no_body)
            (behind equals s t (class_has_body equals s ds) q ds (
              first n behind_it
                (next_kept s t n q e (nearest_has equals s n ds behind_it) no_body next_body)))
      | inr no_next_body ↦ elim (Bool-cases (class_has_body equals s ds)) [
        | inl later ↦
            rw (e, no_body, later)
              (behind equals s t true q ds (second n behind_it no_next_body later))
        | inr never ↦
            stays_first equals s t (class_has_body equals s (sub_program t ∷ ds)) q ds e
              (or_both (removed_by_prior equals t q) (removed_by_next equals t ds) k (
                rw
                  (
                    sym (
                        nearest_same equals symmetric (classes equals symmetric transitive) s t ds
                          e),
                    behind_it,
                    no_body,
                    no_next_body,
                  )
                  refl))
              (rw (e, no_body, never) (λ h. cc))
      ]
    ]
  ]

  second_here :
      (s t : SubProgram S B) (q ds : List (Declaration D S B)) (o : Option (SubProgram S B))
      → has_same_signature equals s t ≡ true
      → nearest equals s ds ≡ o
      → Kept equals s (sub_program t ∷ q) ds
      → has_body t ≡ false
      → class_has_body equals s (sub_program t ∷ ds) ≡ true
      → Survives equals s true (left_over equals q (sub_program t ∷ ds))
  second_here s t q ds none e behind_it kept_behind no_body has =
      cc (rw (e, no_body, none_has_body equals s ds behind_it) at has)
  second_here s t q ds (some n) e behind_it (first, second) no_body has =
      elim (Bool-cases (has_body n)) [
        | inr no_next_body ↦
            behind equals s t true q ds (second n behind_it no_next_body (rw (e, no_body) at has))
        | inl next_body ↦ behind equals s t true q ds (
            subst (λ b. Survives equals s b (left_over equals (sub_program t ∷ q) ds))
              (rw (e, no_body) at has)
              (first n behind_it
                (next_kept s t n q e (nearest_has equals s n ds behind_it) no_body next_body)))
      ]

  step_same :
      (s t : SubProgram S B) (q ds : List (Declaration D S B))
      → has_same_signature equals s t ≡ true
      → Kept equals s (sub_program t ∷ q) ds
      → Kept equals s q (sub_program t ∷ ds)
  step_same s t q ds e kept_behind = (
    λ f h k. first_here s t q ds (nearest equals s ds) e refl kept_behind (
        let e' : t ≡ f = cc (rw e at h) in
        subst (λ f. removed_by_prior equals f q ≡ false) (sym e') k),
    λ f h no_body has.
        second_here s t q ds (nearest equals s ds) e refl kept_behind
          (let e' : t ≡ f = cc (rw e at h) in subst (λ f. has_body f ≡ false) (sym e') no_body) has,
  )

  step_other :
      (s t : SubProgram S B) (q ds : List (Declaration D S B))
      → has_same_signature equals s t ≡ false
      → Kept equals s (sub_program t ∷ q) ds
      → Kept equals s q (sub_program t ∷ ds)
  step_other s t q ds e (first, second) = rw e (
    λ f h k. behind equals s t (class_has_body equals s ds) q ds (
        first f h (
          rw (sym (classes equals symmetric transitive s f t (nearest_has equals s f ds h)) ∙ e)
            k)),
    λ f h no_body has. behind equals s t true q ds (second f h no_body has),
  )

  kept : (s : SubProgram S B) (q ds : List (Declaration D S B)) → Kept equals s q ds
  kept s q [] = (λ f h. cc, λ f h. cc)
  kept s q (other_declaration d ∷ ds) = kept s q ds
  kept s q (sub_program t ∷ ds) = elim (Bool-cases (has_same_signature equals s t)) [
    | inl e ↦ step_same s t q ds e (kept s (sub_program t ∷ q) ds)
    | inr e ↦ step_other s t q ds e (kept s (sub_program t ∷ q) ds)
  ]

  found :
      (s : SubProgram S B) (ds : List (Declaration D S B))
      → has_same_signature equals s s ≡ true
      → Declares s ds
      → ((f : SubProgram S B) × (nearest equals s ds ≡ some f))
        × (has_body s ≡ true → class_has_body equals s ds ≡ true)
  found s [] reflexive o = absurd o
  found s (other_declaration d ∷ ds) reflexive o = found s ds reflexive o
  found s (sub_program t ∷ ds) reflexive (inl o) = rw (o, reflexive) ((s, refl), λ h. rw h refl)
  found s (sub_program t ∷ ds) reflexive (inr o) =
      let ((f, h), body) = found s ds reflexive o in
      elim (Bool-cases (has_same_signature equals s t)) [
        | inl e ↦ rw e ((t, refl), λ h. rw (body h) (or_true (has_body t)))
        | inr e ↦ rw e ((f, h), body)
      ]

  -- In a library that is not standard, with a comparison that is an equivalence relation: if the
  -- routine does not stop the program, then each subprogram has one of its signature that stays, and
  -- that has a body if the subprogram had one.
  pub fix_library_def-Survives :
      (library cleaned : LibraryDef D S B) (s : SubProgram S B)
      → ((t : SubProgram S B) → equals t t ≡ true)
      → library.is_standard ≡ false
      → fix_library_def equals library ≡ ok cleaned
      → Declares s library.declarations
      → Survives equals s (has_body s) cleaned.declarations
  fix_library_def-Survives library cleaned s reflexive h returns o =
      let ((f, e), body) = found s library.declarations (reflexive (without_state_table s)) o in
      let (t, declared, same, class_body) = (kept s [] library.declarations).0 f e refl in
      let e' : cleared library.declarations (removed_marks equals [] library.declarations)
          ≡ cleaned =
        answer (agree equals library.declarations) _ _
          (sym (fix_library_def_lem equals symmetric transitive library h) ∙ returns) in
      subst (λ l. Survives equals s (has_body s) l.declarations) e'
        (t, declared, same, λ w. class_body (body w))
    where
      answer :
          (b : Bool) (l m : LibraryDef D S B) → (if b then ok l else err conflict) ≡ ok m → l ≡ m
      answer true l m h = cc
      answer false l m h = cc
