-- ===== src/Verilog/Actions/Analog.antt =====
-- `_buildActionListFromAnalogStatement` of src/verilog2hif/verilog_parser_extension.cpp, and
-- `parse_AnalogEventControlStatement` of src/verilog2hif/verilog_parser.cpp, which calls it.
use hif_frontend.Common.{
  ℕ, Bool, true, false, Option, none, some, List, [], ◌∷◌, Bytes, if◌then◌else◌,
}
use hif_frontend.Common.Outcome.{Result, ok, err, fatal, ◌>>=◌, ◌>>◌, message_assert}
use hif_frontend.Verilog.Actions.{
  Watched, Action, given, wait_on, block, Actions, empty, and_then, push_back, count, remove_at,
}
use hif_frontend.Verilog.Actions.Watching.{
  AnalogEventControl, fixed_sensitivity, build_analog_sensitivity,
}
use hif_frontend.Verilog.Actions.Procedural.{or_else}

-- The action fields of `analog_statement_t`, in the order of the ladder: four stand before
-- `analog_seq_block_actions`, and three behind it.
pub record AnalogActions (A : Type 0) : Type 0 where
  pub analog_case_statement : Option A
  pub analog_conditional_statement : Option A
  pub analog_loop_statement : Option A
  pub system_task_enable : Option A
  pub analog_procedural_assignment : Option A
  pub contribution_statement : Option A
  pub indirect_contribution_statement : Option A

mutual
  pub data AnalogStatement (A V D : Type 0) : Type 0 where
    null_statement : AnalogStatement A V D
    statement :
        (analog_seq_block_declarations : Option (List D))
        → (event_control : Option (AnalogEventControl V)) → (skipped : Bool) → AnalogActions A
        → (block_name : Bytes) → (analog_seq_block_actions : AnalogBlock A V D)
        → AnalogStatement A V D

  pub data AnalogBlock (A V D : Type 0) : Type 0 where
    no_block : AnalogBlock A V D
    block_of : AnalogStatements A V D → AnalogBlock A V D

  pub data AnalogStatements (A V D : Type 0) : Type 0 where
    last : AnalogStatements A V D
    before : AnalogStatement A V D → AnalogStatements A V D → AnalogStatements A V D

module _ {A : Type 0} where
  abbrev pub first_action : AnalogActions A → Option A
  first_action s = or_else s.analog_case_statement (
      or_else s.analog_conditional_statement (or_else s.analog_loop_statement s.system_task_enable))

  abbrev pub last_action : AnalogActions A → Option A
  last_action s =
      or_else s.analog_procedural_assignment
        (or_else s.contribution_statement s.indirect_contribution_statement)

abbrev pub has_declarations : {D : Type 0} → Option (List D) → Bool
has_declarations (some (d ∷ ds)) = true
has_declarations _ = false

module _ {A V : Type 0}
    (push_value : List (Watched V) → Option (Watched V) → List (Watched V)) where
  -- The `Wait` of an event control.
  unfoldable pub analog_wait : AnalogEventControl V → Result (Actions A V → Action A V)
  unfolding build_analog_sensitivity fixed_sensitivity
  analog_wait ect = do
    (sensitivity, all_signals) ← build_analog_sensitivity push_value ect ([], false)
    message_assert (if all_signals then false else true) "Unsupported case"
    ok (wait_on (fixed_sensitivity sensitivity))

module _ {A V : Type 0} where
  -- The end of the routine: the node of the wait is taken out of the list, where it is at `place`,
  -- and what the list then holds becomes the wait's actions.
  unfoldable pub close_wait : (place : ℕ) → (Actions A V → Action A V) → Actions A V → Actions A V
  close_wait place wait action_list = push_back empty (wait (remove_at place action_list))

-- The fields of a new `analog_statement_t`.
abbrev no_action : {A : Type 0} → AnalogActions A
no_action = record {
  analog_case_statement = none;
  analog_conditional_statement = none;
  analog_loop_statement = none;
  system_task_enable = none;
  analog_procedural_assignment = none;
  contribution_statement = none;
  indirect_contribution_statement = none;
}

-- `stat_or_null`, or a new statement, with an event control.
abbrev pub set_event_control :
    {A V D : Type 0} → AnalogEventControl V → AnalogStatement A V D → AnalogStatement A V D
set_event_control ect null_statement = statement none (some ect) false no_action [] no_block
set_event_control ect (statement declarations old skipped fields block_name blocks) =
    statement declarations (some ect) skipped fields block_name blocks

-- A new statement for an action.
abbrev pub loop_statement : {A V D : Type 0} → A → AnalogStatement A V D
loop_statement a =
    statement none none false (record no_action { analog_loop_statement = some a }) [] no_block

-- The front of the list, with the checks that nothing follows and that it is a `Wait`.
abbrev pub only_wait : {A V : Type 0} → Actions A V → Result (Action A V)
only_wait (and_then (wait_on watched inside) empty) = ok (wait_on watched inside)
only_wait _ = err (fatal "Unexpected parsing result")

module _ {A V D : Type 0}
    (push_value : List (Watched V) → Option (Watched V) → List (Watched V)) where
  unfoldable mutual
    unfolding analog_wait close_wait

    pub build_analog : AnalogStatement A V D → Actions A V → Result (Actions A V)
    build_analog null_statement action_list = ok action_list
    build_analog (statement declarations event_control skipped fields block_name blocks)
          action_list =
        if has_declarations declarations
        then err (fatal "Declarations inside sequential blocks are not supported")
        else elim event_control [
          | none ↦
              (if skipped then ok action_list else push_analog blocks fields block_name action_list)
          | some ect ↦ (do
            wait ← analog_wait push_value ect
            let waiting = push_back action_list (wait empty)
            if skipped then ok waiting else (do
              action_list' ← push_analog blocks fields block_name waiting
              ok (close_wait (count action_list) wait action_list')))
        ]

    -- The ladder.
    pub push_analog :
        AnalogBlock A V D → AnalogActions A → Bytes → Actions A V → Result (Actions A V)
    push_analog no_block fields block_name action_list = elim (first_action fields) [
      | some a ↦ ok (push_back action_list (given a))
      | none ↦ elim (last_action fields) [
        | some a ↦ ok (push_back action_list (given a))
        | none ↦ err (fatal "Unexpected analog statement")
      ]
    ]
    push_analog (block_of ss) fields block_name action_list = elim (first_action fields) [
      | some a ↦ ok (push_back action_list (given a))
      | none ↦ (do
        block_actions ← build_analogs ss empty
        ok (push_back action_list (block block_name block_actions)))
    ]

    pub build_analogs : AnalogStatements A V D → Actions A V → Result (Actions A V)
    build_analogs last block_actions = ok block_actions
    build_analogs (before s ss) block_actions = do
      block_actions ← build_analog s block_actions
      build_analogs ss block_actions

  -- `parse_AnalogEventControlStatement` of src/verilog2hif/verilog_parser.cpp. The actions of the new
  -- statement are those that the routine has made.
  unfoldable pub parse_analog_event_control_statement :
      AnalogEventControl V → AnalogStatement A V D → Result (AnalogStatement (Action A V) V D)
  unfolding build_analog
  parse_analog_event_control_statement event_control stat_or_null = do
    action_list ← build_analog (set_event_control event_control stat_or_null) empty
    w ← only_wait action_list
    ok (loop_statement w)
