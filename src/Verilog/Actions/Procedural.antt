-- ===== src/Verilog/Actions/Procedural.antt =====
-- `_buildActionListFromStatement` of src/verilog2hif/verilog_parser_extension.cpp.
use hif_frontend.Common.{
  Bool, true, false, Option, none, some, List, [], ◌∷◌, ◌++◌, Bytes, if◌then◌else◌,
}
use hif_frontend.Common.Outcome.{Result, ok, err, fatal, ◌>>=◌, ◌>>◌, message_assert}
use hif_frontend.Verilog.Actions.{
  Watched, Action, given, wait_for, wait_on, block, Actions, empty, push_back,
}
use hif_frontend.Verilog.Actions.Watching.{EventControl, fixed_sensitivity, build_sensitivity}

pub record TimingControl (V : Type 0) : Type 0 where
  pub delay_control : Option V
  pub event_control : Option (EventControl V)

-- The action fields of `statement_t`, in the order of the ladder; `none` for `nullptr`. The first
-- eight stand before `seq_block_actions`, the other two behind it.
pub record StatementActions (A : Type 0) : Type 0 where
  pub blocking_assignment : Option A
  pub case_statement : Option A
  pub conditional_statement : Option A
  pub nonblocking_assignment : Option A
  pub loop_statement : Option A
  pub system_task_enable : Option A
  pub task_enable : Option A
  pub wait_statement : Option A
  pub disable_statement : Option A
  pub event_trigger : Option A

-- `statement_t *` and `std::list<statement_t *> *`. `D` is a declaration.
mutual
  pub data Statement (A V D : Type 0) : Type 0 where
    null_statement : Statement A V D
    statement :
        (seq_block_declarations : Option (List D))
        → (procedural_timing_control : Option (TimingControl V)) → (skipped : Bool)
        → StatementActions A
        → (block_name : Bytes) → (seq_block_actions : Block A V D) → Statement A V D

  -- the pointer to a list
  pub data Block (A V D : Type 0) : Type 0 where
    no_block : Block A V D
    block_of : Statements A V D → Block A V D

  pub data Statements (A V D : Type 0) : Type 0 where
    last : Statements A V D
    before : Statement A V D → Statements A V D → Statements A V D

abbrev pub or_else : {A : Type 0} → Option A → Option A → Option A
or_else (some a) b = some a
or_else none b = b

module _ {A : Type 0} where
  -- The branches in front of `seq_block_actions`.
  abbrev pub first_action : StatementActions A → Option A
  first_action s = or_else s.blocking_assignment (
      or_else s.case_statement (
        or_else s.conditional_statement (
          or_else s.nonblocking_assignment (
            or_else s.loop_statement
              (or_else s.system_task_enable (or_else s.task_enable s.wait_statement))))))

  abbrev pub last_action : StatementActions A → Option A
  last_action s = or_else s.disable_statement s.event_trigger

module _ {A V : Type 0} where
  abbrev pub push_action : Option A → Actions A V → Actions A V
  push_action (some a) action_list = push_back action_list (given a)
  push_action none action_list = action_list

module _ {D : Type 0} where
  -- The declarations of a block go to `declList`, `none` for `nullptr`.
  pub take_declarations : Option (List D) → Option (List D) → Result (Option (List D))
  take_declarations none decl_list = ok decl_list
  take_declarations (some []) decl_list = ok decl_list
  take_declarations (some (d ∷ ds)) none =
      err (fatal "Declarations inside sequential blocks are not supported")
  take_declarations (some (d ∷ ds)) (some decls) = ok (some (decls ++ d ∷ ds))

module _ {A V : Type 0} where
  abbrev push_block : Bytes → Actions A V → Actions A V → Actions A V
  push_block block_name block_actions action_list =
      push_back action_list (block block_name block_actions)

-- `push_value` is `BList::push_back` on values, which the code also calls with `nullptr`.
module _ {A V : Type 0}
    (push_value : List (Watched V) → Option (Watched V) → List (Watched V)) where
  unfoldable pub event_wait : EventControl V → Result (Action A V)
  unfolding build_sensitivity fixed_sensitivity
  event_wait ect = do
    let (sensitivity, all_signals) = build_sensitivity push_value ect ([], false)
    message_assert (if all_signals then false else true) "Unsupported case"
    ok (wait_on (fixed_sensitivity sensitivity) empty)

  unfoldable pub push_timing : Option (TimingControl V) → Actions A V → Result (Actions A V)
  unfolding event_wait
  push_timing none action_list = ok action_list
  push_timing (some ptc) action_list = elim ptc.delay_control [
    | some dc ↦ ok (push_back action_list (wait_for dc))
    | none ↦ elim ptc.event_control [
      | some ect ↦ (do w ← event_wait ect; ok (push_back action_list w))
      | none ↦ ok action_list
    ]
  ]

module _ {A V D : Type 0}
    (push_value : List (Watched V) → Option (Watched V) → List (Watched V)) where
  unfoldable mutual
    unfolding take_declarations push_timing

    pub build_statement :
        Statement A V D → Actions A V → Option (List D) → Result (Actions A V × Option (List D))
    build_statement null_statement action_list decl_list = ok (action_list, decl_list)
    build_statement (statement declarations timing skipped fields block_name blocks) action_list
          decl_list =
        let inner = build_block_of blocks in
        (do
          decl_list ← take_declarations declarations decl_list
          action_list ← push_timing push_value timing action_list
          action_list ←
              (if skipped then ok action_list else elim (first_action fields) [
                | some a ↦ ok (push_back action_list (given a))
                | none ↦ inner block_name (last_action fields) action_list
              ])
          ok (action_list, decl_list))

    -- The branch of `seq_block_actions`, and those behind it.
    pub build_block_of : Block A V D → Bytes → Option A → Actions A V → Result (Actions A V)
    build_block_of no_block block_name action action_list = ok (push_action action action_list)
    build_block_of (block_of last) block_name action action_list = ok action_list
    build_block_of (block_of (before s ss)) block_name action action_list = do
      block_actions ← build_statements (before s ss) empty
      ok (push_block block_name block_actions action_list)

    -- The loop over the statements of a block, with no `declList`.
    pub build_statements : Statements A V D → Actions A V → Result (Actions A V)
    build_statements last block_actions = ok block_actions
    build_statements (before s ss) block_actions = do
      (block_actions, _) ← build_statement s block_actions none
      build_statements ss block_actions
