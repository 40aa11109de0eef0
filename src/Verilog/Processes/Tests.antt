-- ===== src/Verilog/Processes/Tests.antt =====
-- A run on a process with `@*` that reads a signal twice, and waits.
use hif_frontend.Common.{
  ℕ, ◌≡◌, refl, Bool, true, false, none, some, List, [], ◌∷◌, ◌++◌, ◌==◌, if◌then◌else◌, ==_iff,
}
use hif_frontend.Common.Outcome.{ok}
use hif_frontend.Verilog.Processes.{
  Symbol, signal, Action, own_action, loop_tail, other_flavour, StateTable, visit_state_table,
}
use hif_frontend.Verilog.Processes.Sensitivity.{is_present, Watches}
use hif_frontend.Verilog.Processes.Watched.{visit_state_table_lem}

abbrev reads : ℕ → Symbol ℕ
reads v = record {
  value = some v;
  in_left_hand_side = false;
  is_library_instance = false;
  declaration = some (record { class = signal; view_is_standard = none });
}

abbrev process : StateTable ℕ ℕ
process = record {
  all_signals = true;
  sensitivity = [];
  is_of_subprogram = false;
  flavour = other_flavour;
  symbols = reads 4 ∷ reads 5 ∷ reads 4 ∷ [];
  states = (own_action 1 ∷ []) ∷ [];
}

abbrev same_number : ℕ → ℕ → Bool
same_number v w = v == w

abbrev add_number : ℕ → List ℕ → List ℕ
add_number v vs = if is_present same_number v vs then vs else vs ++ (v ∷ [])

-- Each state table contains a wait here.
abbrev waits : List (List (Action ℕ)) → Bool
waits states = true

visit_state_table_example :
    (after : StateTable ℕ ℕ) × (visit_state_table add_number waits process ≡ ok after)
    × Watches same_number [] (4 ∷ 5 ∷ 4 ∷ []) after.sensitivity
    × (after.all_signals ≡ false)
    × (after.states ≡ (own_action 1 ∷ loop_tail ∷ []) ∷ [])
visit_state_table_example =
    visit_state_table_lem same_number add_number waits process (own_action 1 ∷ []) []
      (λ v. (==_iff v v).1 refl) (λ v vs. refl) (refl, (refl, (refl, tt))) refl
