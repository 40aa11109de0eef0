-- ===== src/Vhdl/Duplicates/Loop.antt =====
-- The loop over the declarations gives the marks of the description.
use hif_frontend.Common.{
  or_false, or_true, ℕ, suc, ◌≡◌, refl, sym, ◌∙◌, inl, inr, Bool, true, false, not, ◌&&◌, ◌||◌,
  Option, none, some, List, [], ◌∷◌, if◌then◌else◌, Bool-cases,
}
use mathlib.Core.Path.{subst}
use hif_frontend.Common.Outcome.{ok, err, ◌>>=◌}
use hif_frontend.Vhdl.Duplicates.{
  SubProgram, Declaration, sub_program, other_declaration, LibraryDef, has_body, insert_trash,
  cleared, next_place, throw_one, has_same_signature, throw, find_same, fix_loop, fix_library_def,
}
use hif_frontend.Vhdl.Duplicates.Marks.{
  nearest, replaces, gives_way, agrees_with, removed_by_prior, removed_by_next, removed_marks,
  agree, IsSymmetric, IsTransitive, classes,
}
use hif_frontend.Vhdl.Duplicates.Trash.{
  unless_found, marked, after, second, conflict, joined, Matches, drop_between, unseen,
}

module _ {S B : Type 0} (equals : SubProgram S B → SubProgram S B → Bool) where
  throw-after :
      (s : SubProgram S B) (o : Option (ℕ × SubProgram S B)) (trash : ℕ → Bool)
      → throw equals s o trash
        ≡ (if agrees_with equals s (second o) then ok (after s o trash) else err conflict)
  throw-after s none trash = refl
  throw-after s (some (j, t)) trash = go (has_body s) (has_body t) (equals s t)
    where
      go :
          (a b c : Bool)
          → throw_one a b c j trash ≡ (
              if (a && not b) || (not a && b) || c
              then ok
                  (if not (not a && b) then insert_trash (suc j) trash else insert_trash 0 trash)
              else err conflict)
      go true true true = refl
      go true true false = refl
      go true false true = refl
      go true false false = refl
      go false true true = refl
      go false true false = refl
      go false false true = refl
      go false false false = refl

  after_here :
      (s : SubProgram S B) (o : Option (ℕ × SubProgram S B)) (trash : ℕ → Bool)
      → after s o trash 0 ≡ (trash 0 || gives_way s (second o))
  after_here s none trash = sym (or_false (trash 0))
  after_here s (some (j, t)) trash = elim (Bool-cases (replaces s t)) [
    | inl e ↦ rw e (sym (or_false (trash 0)))
    | inr e ↦ rw e (sym (or_true (trash 0)))
  ]

  shift_after :
      (s : SubProgram S B) (o : Option (ℕ × SubProgram S B)) (trash : ℕ → Bool)
      → ◌≡◌ {A = ℕ → Bool} (λ k. after s o trash (suc k)) (marked s o (λ k. trash (suc k)))
  shift_after s none trash = refl
  shift_after s (some (j, t)) trash = go (replaces s t)
    where
      go :
          (b : Bool)
          → ◌≡◌ {A = ℕ → Bool}
              (λ k. (if b then insert_trash (suc j) trash else insert_trash 0 trash) (suc k))
              (if b then insert_trash j (λ k. trash (suc k)) else λ k. trash (suc k))
      go true = refl
      go false = refl

module _ {D S B : Type 0} (equals : SubProgram S B → SubProgram S B → Bool)
    (symmetric : IsSymmetric equals) (transitive : IsTransitive equals) where
  second-find_same :
      (s : SubProgram S B) (ds : List (Declaration D S B))
      → second (find_same equals s ds) ≡ nearest equals s ds
  second-find_same s [] = refl
  second-find_same s (other_declaration d ∷ ds) =
      moved (find_same equals s ds) ∙ second-find_same s ds
    where
      moved : (o : Option (ℕ × SubProgram S B)) → second (next_place o) ≡ second o
      moved none = refl
      moved (some (j, t)) = refl
  second-find_same s (sub_program t ∷ ds) = elim (Bool-cases (has_same_signature equals s t)) [
    | inl e ↦ rw e refl
    | inr e ↦ rw e (moved (find_same equals s ds) ∙ second-find_same s ds)
  ]
    where
      moved : (o : Option (ℕ × SubProgram S B)) → second (next_place o) ≡ second o
      moved none = refl
      moved (some (j, t)) = refl

  fix_loop-marks :
      (q ds : List (Declaration D S B)) (trash : ℕ → Bool)
      → Matches equals symmetric
          (classes equals symmetric transitive)
          (λ t. removed_by_prior equals t q)
          []
          ds
          trash
      → fix_loop equals ds trash
        ≡ (if agree equals ds then ok (removed_marks equals q ds) else err conflict)
  unfolding fix_loop
  fix_loop-marks q [] trash h = refl
  fix_loop-marks q (other_declaration d ∷ ds) trash (h, hs) =
      rw (fix_loop-marks q ds (λ k. trash (suc k)) hs, h)
        (joined false (removed_marks equals q ds) (agree equals ds))
  fix_loop-marks q (sub_program s ∷ ds) trash (h, hs) =
      rw (throw-after equals s (find_same equals s ds) trash, second-find_same s ds)
        (elim (Bool-cases (agrees_with equals s (nearest equals s ds))) [
          | inr e ↦ rw e refl
          | inl e ↦
              rw
                (
                  e,
                  fix_loop-marks (sub_program s ∷ q) ds
                      (λ k. after s (find_same equals s ds) trash (suc k))
                      (subst
                        (Matches equals symmetric (classes equals symmetric transitive)
                          (λ t. removed_by_prior equals t (sub_program s ∷ q)) [] ds)
                        (sym (shift_after equals s (find_same equals s ds) trash))
                        (unseen equals symmetric (classes equals symmetric transitive) q s [] ds
                          (λ k. trash (suc k)) refl
                          (drop_between equals symmetric (classes equals symmetric transitive) q s
                            [] ds (λ k. trash (suc k)) hs))),
                  after_here equals s (find_same equals s ds) trash,
                  h,
                  second-find_same s ds,
                )
                (joined (removed_by_prior equals s q || removed_by_next equals s ds)
                  (removed_marks equals (sub_program s ∷ q) ds) (agree equals ds))
        ])

  none_yet :
      (p ds : List (Declaration D S B))
      → Matches equals symmetric
          (classes equals symmetric transitive)
          (λ t. removed_by_prior {D = D} equals t [])
          p
          ds
          (λ k. false)
  none_yet p [] = tt
  none_yet p (other_declaration d ∷ ds) = (refl, none_yet p ds)
  none_yet p (sub_program s ∷ ds) = (go (nearest equals s p), none_yet (sub_program s ∷ p) ds)
    where
      go : (o : Option (SubProgram S B)) → false ≡ unless_found o false
      go none = refl
      go (some t) = refl

  -- In a library that is not standard, with a comparison that is symmetric and transitive: if each
  -- subprogram and the next one of its signature have one body between them or are equal, exactly
  -- those subprograms are removed that stand behind one of their signature than one with a body
  -- right behind one without, or stand, without a body, right before one that has one; otherwise the
  -- program stops.
  pub fix_library_def_lem :
      (library : LibraryDef D S B)
      → library.is_standard ≡ false
      → fix_library_def equals library ≡ (
          if agree equals library.declarations
          then ok (cleared library.declarations (removed_marks equals [] library.declarations))
          else err conflict)
  unfolding fix_library_def
  fix_library_def_lem library h =
      rw (h, fix_loop-marks [] library.declarations (λ k. false) (none_yet [] library.declarations))
        (go (agree equals library.declarations))
    where
      go :
          (b : Bool)
          → ((if b then ok (removed_marks equals [] library.declarations) else err conflict)
              >>= λ marks. ok (cleared library.declarations marks))
            ≡ (if b
                then ok
                    (cleared library.declarations (removed_marks equals [] library.declarations))
                else err conflict)
      go true = refl
      go false = refl
