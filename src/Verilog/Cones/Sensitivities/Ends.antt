-- ===== src/Verilog/Cones/Sensitivities/Ends.antt =====
-- When the loop over the references of waits ends.
use hif_frontend.Common.{
  ℕ, zero, suc, ◌<◌, ◌≡◌, ◌≢◌, refl, ◌↔◌, Option, none, some, List, [], ◌∷◌, arith, length,
}
use hif_frontend.Verilog.Cones.Tree.{Tree}
use hif_frontend.Verilog.Cones.Sensitivities.{Lists, SensitivityState, replace_ref, wait_loop}

-- One reference after the other has a list.
abbrev pub HaveLists : Lists → List ℕ → Type 0
HaveLists lists [] = Unit {0}
HaveLists lists (ref ∷ refs) = (lists.any_sensitivity_list ref ≢ none) × HaveLists lists refs

module _ (tree : Tree) (lists : Lists) (decl : ℕ) (parents : List ℕ) where
  wait_loop_ends :
      (fuel : ℕ) (refs : List ℕ) (s : SensitivityState)
      → HaveLists lists refs
      → length refs < fuel
      → (s' : SensitivityState) × (wait_loop tree lists fuel decl parents refs s ≡ some s')
  unfolding wait_loop
  wait_loop_ends zero refs s h lt = absurd (omega arith)
  wait_loop_ends (suc fuel) [] s h lt = (s, refl)
  wait_loop_ends (suc fuel) (ref ∷ refs) s (has, h) lt =
      go (lists.any_sensitivity_list ref) refl (λ s'. wait_loop_ends fuel refs s' h (omega arith))
    where
      go :
          (o : Option ℕ)
          → lists.any_sensitivity_list ref ≡ o
          → ((s' : SensitivityState)
              → (t : SensitivityState) × (wait_loop tree lists fuel decl parents refs s' ≡ some t))
          → (t : SensitivityState) × (wait_loop tree lists (suc fuel) decl parents (ref ∷ refs) s
              ≡ some t)
      go none e rest = absurd (has e)
      go (some l) e rest =
          let (t, eq) = rest (replace_ref tree lists decl ref l parents s) in
          (t, rw (e, wait_loop) eq)

  stuck :
      (fuel ref : ℕ) (refs : List ℕ) (s : SensitivityState)
      → lists.any_sensitivity_list ref ≡ none
      → wait_loop tree lists fuel decl parents (ref ∷ refs) s ≡ none
  unfolding wait_loop
  stuck zero ref refs s e = refl
  stuck (suc fuel) ref refs s e = rw (e, wait_loop) (stuck fuel ref refs s e)

  wait_loop_needs :
      (fuel : ℕ) (refs : List ℕ) (s s' : SensitivityState)
      → wait_loop tree lists fuel decl parents refs s ≡ some s'
      → HaveLists lists refs
  unfolding wait_loop
  wait_loop_needs fuel [] s s' h = record {}
  wait_loop_needs zero (ref ∷ refs) s s' h = cc
  wait_loop_needs (suc fuel) (ref ∷ refs) s s' h =
      go (lists.any_sensitivity_list ref) refl (λ t. wait_loop_needs fuel refs t s')
    where
      go :
          (o : Option ℕ)
          → lists.any_sensitivity_list ref ≡ o
          → ((t : SensitivityState)
              → wait_loop tree lists fuel decl parents refs t ≡ some s'
              → HaveLists lists refs)
          → HaveLists lists (ref ∷ refs)
      go none e rest = cc (rw (stuck (suc fuel) ref refs s e) at h)
      go (some l) e rest = (
        (λ e'. cc (rw e at e')),
        rest (replace_ref tree lists decl ref l parents s) (rw (e, wait_loop) at h),
      )

  pub wait_loop-HaveLists :
      (refs : List ℕ) (s : SensitivityState)
      → ((fuel : ℕ) × ((s' : SensitivityState) × (wait_loop tree lists fuel decl parents refs s
              ≡ some s')))
        ↔ HaveLists lists refs
  wait_loop-HaveLists refs s = (
    (λ (fuel, (s', e)). wait_loop_needs fuel refs s s' e),
    λ h. (suc (length refs), wait_loop_ends (suc (length refs)) refs s h (omega arith)),
  )
