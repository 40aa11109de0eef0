-- ===== src/Verilog/Initial.antt =====
-- The initial processes of a module, src/verilog2hif/FixDescription_2.cpp: each is split at its
-- first wrong statement, and what is left of them becomes one process.
pub mod Parts
pub mod Conserved
mod Tests
use hif_frontend.Common.{
  ℕ, Bool, true, false, not, List, [], ◌∷◌, ◌++◌, Option, none, some, map, if◌then◌else◌, keep,
  Bytes,
}
use hif_frontend.Common.Sets.{is_empty}

pub data ProcessFlavour : Type 0 where
  pf_hdl pf_initial pf_analog : ProcessFlavour

-- A process with its only state. `A` is the type of actions.
pub record StateTable (A : Type 0) : Type 0 where
  pub name : Bytes
  pub flavour : ProcessFlavour
  pub dont_initialize : Bool
  pub actions : List A

abbrev pub is_initial : {A : Type 0} → StateTable A → Bool
is_initial st = elim (st.flavour) [ pf_initial ↦ true | pf_hdl ↦ false | pf_analog ↦ false ]

module _ {A : Type 0} where
  -- `_collectInitialProcesses`
  abbrev pub collect_initial_processes : List (StateTable A) → List (StateTable A)
  collect_initial_processes tables = keep is_initial tables

  abbrev pub actions_of : List (StateTable A) → List A
  actions_of [] = []
  actions_of (st ∷ tables) = st.actions ++ actions_of tables

  -- `_mergeInitialProcesses`: the first takes the actions of the others, which are removed.
  unfoldable pub merge_initial_processes : List (StateTable A) → List (StateTable A)
  merge_initial_processes [] = []
  merge_initial_processes (st ∷ tables) =
      let rest = merge_initial_processes tables in
      if is_initial st
      then record st { actions = st.actions ++ actions_of (collect_initial_processes tables) }
        ∷ keep (λ t. not (is_initial t)) tables
      else st ∷ rest

  -- The loop over the actions: those that stay and those that are moved. `found` is the flag, and
  -- `check_wrong_statement` the search in an action.
  unfoldable pub split_actions :
      (check_wrong_statement : A → Bool) → (found : Bool) → List A → List A × List A
  split_actions check_wrong_statement found [] = ([], [])
  split_actions check_wrong_statement found (act ∷ actions) =
      let found_now : Bool = if not found then check_wrong_statement act else true in
      let (stay, moved) = split_actions check_wrong_statement found_now actions in
      if found_now then (stay, act ∷ moved) else (act ∷ stay, moved)

  abbrev pub push_new : Option (StateTable A) → List (StateTable A) → List (StateTable A)
  push_new none tables = tables
  push_new (some t) tables = t ∷ tables

  -- The new process: `wait` is `new Wait()`, and `get_fresh_name` the name table's method.
  abbrev pub splitted :
      (wait : A) → (get_fresh_name : Bytes → Bytes) → StateTable A → List A → StateTable A
  splitted wait get_fresh_name st moved = record {
    name = get_fresh_name (st.name);
    flavour = pf_hdl;
    dont_initialize = false;
    actions = moved ++ (wait ∷ []);
  }

module _ {A : Type 0} (check_wrong_statement : A → Bool) (wait : A)
    (get_fresh_name : Bytes → Bytes) where
  -- One process: what is left of it, and the new one if a wrong statement was found.
  unfoldable pub split_process : StateTable A → StateTable A × Option (StateTable A)
  unfolding split_actions
  split_process st =
      let (stay, moved) = split_actions check_wrong_statement false (st.actions) in
      if is_empty moved
      then (st, none)
      else (record st { actions = stay }, some (splitted wait get_fresh_name st moved))

  -- `_splitInitialProcesses`: the module's processes, those that are initial changed in place, and
  -- the new ones in the order that they are put behind them.
  unfoldable pub split_in_place : List (StateTable A) → List (StateTable A)
  unfolding split_process
  split_in_place [] = []
  split_in_place (st ∷ tables) =
      (if is_initial st then (split_process st).0 else st) ∷ split_in_place tables

  unfoldable pub new_processes : List (StateTable A) → List (StateTable A)
  unfolding split_process
  new_processes [] = []
  new_processes (st ∷ initials) = push_new ((split_process st).1) (new_processes initials)

  unfoldable pub split_initial_processes : List (StateTable A) → List (StateTable A)
  unfolding split_in_place new_processes
  split_initial_processes tables =
      split_in_place tables ++ new_processes (collect_initial_processes tables)

  -- The three steps of `visitDesignUnit`.
  unfoldable pub fix_initial_processes : List (StateTable A) → List (StateTable A)
  unfolding split_initial_processes merge_initial_processes
  fix_initial_processes tables = merge_initial_processes (split_initial_processes tables)
