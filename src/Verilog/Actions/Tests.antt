-- ===== src/Verilog/Actions/Tests.antt =====
-- Runs of the routines that build actions, with texts as actions and values.
use hif_frontend.Common.{
  ◌≡◌, refl, true, false, Option, none, some, List, [], ◌∷◌, ◌++◌, Bytes, codes,
}
use hif_frontend.Common.Outcome.{ok, ◌>>=◌}
use hif_frontend.Verilog.Actions.{Watched, given, wait_on, Actions, empty, and_then, ◌+++◌}
use hif_frontend.Verilog.Actions.Watching.{EventExpression, EventControl, AnalogEventControl}
use hif_frontend.Verilog.Actions.Edges.{without_pos, without_neg}
use hif_frontend.Verilog.Actions.Procedural.{
  StatementActions, Statement, statement, no_block, Statements, last, before, event_wait,
  build_statements,
}
use hif_frontend.Verilog.Actions.Append.{parts, build_statements-parts}
use hif_frontend.Verilog.Actions.Analog.{
  AnalogActions, AnalogStatement, AnalogBlock, loop_statement, parse_analog_event_control_statement,
}
use hif_frontend.Verilog.Actions.EventControl.{
  sorted, parse_analog_event_control_statement-WaitsFor,
}
use hif_frontend.Verilog.Actions.EventList.{event_wait_lem}

-- A `push_back` that ignores `nullptr`.
abbrev push_value : List (Watched Bytes) → Option (Watched Bytes) → List (Watched Bytes)
push_value vs (some v) = vs ++ v ∷ []
push_value vs none = vs

abbrev clk : Watched Bytes
clk = record { value = codes "clk"; sensitive_pos = true; sensitive_neg = false }

abbrev reset : Watched Bytes
reset = record { value = codes "reset"; sensitive_pos = false; sensitive_neg = true }

abbrev data_in : Watched Bytes
data_in = record { value = codes "d"; sensitive_pos = false; sensitive_neg = false }

abbrev edges : List (EventExpression Bytes)
edges =
    record { expression = none; posedge_expression = some clk; negedge_expression = none }
    ∷ record { expression = none; posedge_expression = none; negedge_expression = some reset }
    ∷ []

abbrev on_edges : EventControl Bytes
on_edges = record { event_expression_list = some edges; event_identifier = none; event_all = false }

event_wait_example :
    event_wait {A = Bytes} push_value on_edges
    ≡ ok (
        wait_on
          (record { any = []; rising = without_pos clk ∷ []; falling = without_neg reset ∷ [] })
          empty)
event_wait_example =
    event_wait_lem push_value (λ vs v. refl) (λ vs. refl) {A = Bytes} on_edges edges refl

abbrev assigns : Bytes → StatementActions Bytes
assigns a = record {
  blocking_assignment = some a;
  case_statement = none;
  conditional_statement = none;
  nonblocking_assignment = none;
  loop_statement = none;
  system_task_enable = none;
  task_enable = none;
  wait_statement = none;
  disable_statement = none;
  event_trigger = none;
}

abbrev assign : Bytes → Statement Bytes Bytes Bytes
assign a = statement none none false (assigns a) [] no_block

abbrev first : Actions Bytes Bytes
first = and_then (given (codes "a = 1")) empty

abbrev two_assigns : Statements Bytes Bytes Bytes
two_assigns = before (assign (codes "b = 2")) (before (assign (codes "c = 3")) last)

build_statements_example :
    build_statements push_value two_assigns first
    ≡ (parts push_value two_assigns >>= λ new. ok (first +++ new))
build_statements_example = build_statements-parts push_value two_assigns first

abbrev analog_assigns : Bytes → AnalogActions Bytes
analog_assigns a = record {
  analog_case_statement = none;
  analog_conditional_statement = none;
  analog_loop_statement = none;
  system_task_enable = none;
  analog_procedural_assignment = some a;
  contribution_statement = none;
  indirect_contribution_statement = none;
}

abbrev analog_on_edges : AnalogEventControl Bytes
analog_on_edges = record { analog_event_expression = none; control = on_edges }

parse_analog_event_control_statement_example :
    parse_analog_event_control_statement {D = Bytes} push_value analog_on_edges (
      AnalogStatement.statement none none true
        (analog_assigns (codes "b = 2"))
        []
        AnalogBlock.no_block)
    ≡ ok (loop_statement (wait_on (sorted (clk ∷ reset ∷ [])) empty))
parse_analog_event_control_statement_example =
    parse_analog_event_control_statement-WaitsFor push_value (λ vs v. refl) (λ vs. refl) none
      analog_on_edges none true (analog_assigns (codes "b = 2")) [] AnalogBlock.no_block refl
