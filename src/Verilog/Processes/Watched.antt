-- ===== src/Verilog/Processes/Watched.antt =====
-- What a process watches after the visit, and how it ends.
use hif_frontend.Common.{
  ◌≡◌, refl, sym, ap, ◌∙◌, inl, inr, Bool, true, false, not, ◌&&◌, List, [], ◌∷◌, ◌++◌, append-nil,
  if◌then◌else◌, Bool-cases, All,
}
use mathlib.Core.Path.{subst}
use hif_frontend.Common.Outcome.{ok, ◌>>=◌}
use hif_frontend.Verilog.Processes.{
  Action, loop_tail, StateTable, watching, with_states, waits_in_loop, close_loop,
  fix_all_signals_sensitivity, fix_processes_with_wait, visit_state_table,
}
use hif_frontend.Verilog.Processes.Sensitivity.{
  is_declared, nets_read, Watches, IsAddUnique, added, added-Watches, watch_loop_lem,
}

module _ {A V : Type 0} (same : V → V → Bool) (add_unique : V → List V → List V)
    (contains_wait : List (List (Action A)) → Bool) where
  -- The table is a process that loops and waits.
  abbrev pub loops : StateTable A V → Bool
  loops table =
      not table.is_of_subprogram && waits_in_loop table.flavour && contains_wait table.states

  processes_lem :
      (table : StateTable A V) (first : List (Action A)) (states : List (List (Action A)))
      → table.states ≡ first ∷ states
      → (after : StateTable A V) × (fix_processes_with_wait add_unique contains_wait table
          ≡ ok after)
        × (after.sensitivity ≡ table.sensitivity)
        × (after.all_signals ≡ table.all_signals)
        × (after.states ≡ (if loops table then first ++ (loop_tail ∷ []) else first) ∷ states)
  unfolding fix_processes_with_wait
  processes_lem table first states has_state = elim (Bool-cases (loops table)) [
    | inl e ↦ (
      with_states ((first ++ (loop_tail ∷ [])) ∷ states) table,
      rw e (ap (λ l. close_loop l >>= λ states. ok (with_states states table)) has_state),
      refl,
      refl,
      rw e refl,
    )
    | inr e ↦ (table, rw e refl, refl, refl, rw e has_state)
  ]

  unwatched :
      (table : StateTable A V)
      → table.all_signals ≡ false
      → fix_all_signals_sensitivity add_unique contains_wait table ≡ ok table
  unfolding fix_all_signals_sensitivity
  unwatched table e = simp (e) refl

  -- With `add_unique` that puts a value behind a list in which none is the same: if each symbol that
  -- is read has a declaration and the table has a state, the visit succeeds. With ALL_SIGNALS, which
  -- it takes off, it adds to the sensitivity each signal and port that is read, other than those of a
  -- view of the standard, once, and nothing else; without, it leaves the sensitivity. It puts one wait
  -- behind the actions of the first state exactly when the table is no subprogram's, neither initial
  -- nor analog, and contains a wait; the other states stay.
  pub visit_state_table_lem :
      (table : StateTable A V) (first : List (Action A)) (states : List (List (Action A)))
      → ((v : V) → same v v ≡ true)
      → IsAddUnique same add_unique
      → All (λ symbol. is_declared symbol ≡ true) table.symbols
      → table.states ≡ first ∷ states
      → (after : StateTable A V) × (visit_state_table add_unique contains_wait table ≡ ok after)
        × Watches same table.sensitivity
            (if table.all_signals then nets_read table.symbols else [])
            after.sensitivity
        × (after.all_signals ≡ false)
        × (after.states ≡ (if loops table then first ++ (loop_tail ∷ []) else first) ∷ states)
  unfolding visit_state_table fix_all_signals_sensitivity fix_processes_with_wait
  visit_state_table_lem table first states reflexive adds declared has_state =
      elim (Bool-cases table.all_signals) [
        | inl e ↦
            let (after, returns, e₁, e₂, e₃) =
              processes_lem
                (watching
                  (added same reflexive add_unique adds (nets_read table.symbols) table.sensitivity)
                  table)
                first states has_state in
            (
              after,
              rw
                  (
                    e,
                    watch_loop_lem same reflexive add_unique adds table.symbols table.sensitivity
                        declared,
                  )
                  returns,
              rw (e, e₁)
                  (added-Watches same reflexive add_unique adds (nets_read table.symbols)
                    table.sensitivity),
              e₂,
              e₃,
            )
        | inr e ↦
            let (after, returns, e₁, e₂, e₃) = processes_lem table first states has_state in
            (
              after,
              ap (λ m. m >>= fix_processes_with_wait add_unique contains_wait) (unwatched table e)
                  ∙ returns,
              subst
                  (λ b.
                    Watches same table.sensitivity (if b then nets_read table.symbols else [])
                      after.sensitivity)
                  (sym e)
                  (subst (Watches same table.sensitivity []) (sym e₁)
                    ([], sym (append-nil table.sensitivity), λ v o. absurd o, λ v o. o, λ u. u)),
              e₂ ∙ e,
              e₃,
            )
      ]
