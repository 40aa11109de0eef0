-- ===== src/Verilog/Initial/Conserved.antt =====
-- Where the actions of the initial processes go.
use hif_frontend.Common.{
  ◌≡◌, refl, sym, ◌∙◌, ap, Bool, true, false, not, inl, inr, Option, none, some, List, [], ◌∷◌,
  ◌++◌, append-nil, if◌then◌else◌, all, length, Bool-cases, Bytes,
}
use hif_frontend.Common.Sets.{is_empty}
use hif_frontend.Verilog.Initial.{
  StateTable, is_initial, collect_initial_processes, splitted, split_process, push_new,
  split_in_place, new_processes, actions_of, fix_initial_processes,
}
use hif_frontend.Verilog.Initial.Parts.{
  other_processes, merge-MergesTo, keep-append, before_wrong, from_wrong, split_actions_lem,
  before_wrong_all, before_all, before_all-all,
}

module _ {A : Type 0} (check_wrong_statement : A → Bool) (wait : A)
    (get_fresh_name : Bytes → Bytes) where
  -- The new processes, for those of a list that have a wrong statement.
  abbrev pub moved_all : List (StateTable A) → List (StateTable A)
  moved_all [] = []
  moved_all (st ∷ ts) =
      let rest = moved_all ts in
      if is_empty (from_wrong check_wrong_statement (st.actions))
      then rest
      else splitted wait get_fresh_name st (from_wrong check_wrong_statement (st.actions)) ∷ rest

  Splits : StateTable A → StateTable A × Option (StateTable A) → Type 0
  Splits st result =
      ((result.0).actions ≡ before_wrong check_wrong_statement (st.actions))
      × (is_initial (result.0) ≡ is_initial st)
      × ((ts : List (StateTable A))
          → push_new (result.1) ts ≡ (
              if is_empty (from_wrong check_wrong_statement (st.actions))
              then ts
              else splitted wait get_fresh_name st (from_wrong check_wrong_statement (st.actions))
                ∷ ts))

  split_process-Splits :
      (st : StateTable A) → Splits st (split_process check_wrong_statement wait get_fresh_name st)
  unfolding split_process Splits
  split_process-Splits st =
      rw (split_actions_lem check_wrong_statement (st.actions))
        (go (is_empty (from_wrong check_wrong_statement (st.actions))) refl)
    where
      go :
          (b : Bool)
          → is_empty (from_wrong check_wrong_statement (st.actions)) ≡ b
          → Splits st (
              if b then (st, none) else (
                record st { actions = before_wrong check_wrong_statement (st.actions) },
                some (
                    splitted wait get_fresh_name st
                      (from_wrong check_wrong_statement (st.actions))),
              ))
      go true e =
          (sym (before_wrong_all check_wrong_statement (st.actions) e), refl, λ ts. rw e refl)
      go false e = (refl, refl, λ ts. rw e refl)

  abbrev in_place : List (StateTable A) → List (StateTable A)
  in_place ts = split_in_place check_wrong_statement wait get_fresh_name ts

  InPlace : (ts changed : List (StateTable A)) → Type 0
  InPlace ts changed =
      (actions_of (collect_initial_processes changed)
        ≡ before_all check_wrong_statement (collect_initial_processes ts))
      × (is_empty (collect_initial_processes changed) ≡ is_empty (collect_initial_processes ts))
      × (other_processes changed ≡ other_processes ts)

  split_in_place-InPlace : (ts : List (StateTable A)) → InPlace ts (in_place ts)
  unfolding split_in_place InPlace Splits
  split_in_place-InPlace [] = (refl, refl, refl)
  split_in_place-InPlace (st ∷ ts) =
      go (is_initial st) refl (split_in_place-InPlace ts)
        (split_process check_wrong_statement wait get_fresh_name st) (split_process-Splits st)
    where
      go :
          (b : Bool)
          → is_initial st ≡ b
          → InPlace ts (in_place ts)
          → (r : StateTable A × Option (StateTable A)) → Splits st r
          → InPlace (st ∷ ts) ((if is_initial st then r.0 else st) ∷ in_place ts)
      go true e (actions, one, others) r (stay, same, _) =
          let kept : is_initial (r.0) ≡ true = same ∙ e in
          rw e (
            rw kept (
              (rw stay (ap (λ t. before_wrong check_wrong_statement (st.actions) ++ t) actions)),
              refl,
              others,
            ))
      go false e (actions, one, others) r h = rw e (rw e (actions, one, ap (λ t. st ∷ t) others))

  new_processes_lem :
      (is : List (StateTable A))
      → new_processes check_wrong_statement wait get_fresh_name is ≡ moved_all is
  unfolding new_processes Splits
  new_processes_lem [] = refl
  new_processes_lem (st ∷ is) =
      let (_, _, pushed) = split_process-Splits st in
      ap (push_new ((split_process check_wrong_statement wait get_fresh_name st).1))
        (new_processes_lem is)
      ∙ pushed (moved_all is)

  -- The new processes are not initial.
  moved_all-others :
      (is : List (StateTable A))
      → (collect_initial_processes (moved_all is) ≡ [])
        × (other_processes (moved_all is) ≡ moved_all is)
  moved_all-others [] = (refl, refl)
  moved_all-others (st ∷ is) =
      let (none_initial, same) = moved_all-others is in
      elim (Bool-cases (is_empty (from_wrong check_wrong_statement (st.actions)))) [
        | inl e ↦ rw e (none_initial, same)
        | inr e ↦ rw e (
          none_initial,
          ap
              (λ t.
                splitted wait get_fresh_name st (from_wrong check_wrong_statement (st.actions)) ∷ t)
              same,
        )
      ]

  -- Let the processes be those of a module. In the result the actions of the initial processes are
  -- those that stand before the first wrong one of each initial process, in their order, and none
  -- of them is wrong. There is one initial process, or none if there was none. The other processes
  -- are those that were there, in their order, and behind them, for each initial process with a
  -- wrong action, a process that is not initial, with its actions from that one on and a wait.
  pub fix_initial_processes_lem :
      (ts : List (StateTable A))
      → let result = fix_initial_processes check_wrong_statement wait get_fresh_name ts in
        let initials = collect_initial_processes ts in
        (actions_of (collect_initial_processes result) ≡ before_all check_wrong_statement initials)
        × (all (λ a. not (check_wrong_statement a)) (actions_of (collect_initial_processes result))
            ≡ true)
        × (length (collect_initial_processes result) ≡ (if is_empty initials then 0 else 1))
        × (other_processes result ≡ other_processes ts ++ moved_all initials)
  unfolding fix_initial_processes InPlace
  fix_initial_processes_lem ts =
      let initials : List (StateTable A) = collect_initial_processes ts in
      let (none_initial, same) = moved_all-others initials in
      let (actions, one, others) = split_in_place-InPlace ts in
      let collected : collect_initial_processes (in_place ts ++ moved_all initials)
          ≡ collect_initial_processes (in_place ts) =
        keep-append is_initial (in_place ts) (moved_all initials)
        ∙ rw none_initial (append-nil _) in
      let (actions', one', others') = merge-MergesTo (in_place ts ++ moved_all initials) in
      rw (new_processes_lem initials) (
        actions' ∙ ap actions_of collected ∙ actions,
        ap (all (λ a. not (check_wrong_statement a))) (actions' ∙ ap actions_of collected ∙ actions)
            ∙ before_all-all check_wrong_statement initials,
        one' ∙ ap (λ t. if is_empty t then 0 else 1) collected ∙ ap (λ b. if b then 0 else 1) one,
        others'
            ∙ keep-append (λ t. not (is_initial t)) (in_place ts) (moved_all initials)
            ∙ rw (others, same) refl,
      )
