-- ===== src/Verilog/Actions/Watching.antt =====
-- `_buildSensitivityFromEventControl`, `_buildSensitivityFromAnalogEventControl`, and the loop that
-- fixes the sensitivity of a `Wait`, of src/verilog2hif/verilog_parser_extension.cpp.
use hif_frontend.Common.{Bool, true, false, Option, none, some, List, [], ◌∷◌, ◌++◌, if◌then◌else◌}
use hif_frontend.Common.Outcome.{Result, ok, err, fatal}
use hif_frontend.Verilog.Actions.{Watched, Sensitivity}

-- `event_expression_t`; `none` for `nullptr`.
pub record EventExpression (V : Type 0) : Type 0 where
  pub expression : Option (Watched V)
  pub posedge_expression : Option (Watched V)
  pub negedge_expression : Option (Watched V)

pub record EventControl (V : Type 0) : Type 0 where
  pub event_expression_list : Option (List (EventExpression V))
  pub event_identifier : Option (Watched V)
  pub event_all : Bool

-- `analog_event_expression_t`, with the list of an `or`.
pub record AnalogEventExpression (V : Type 0) : Type 0 where
  pub or_analog_event_expression : Option (List (Watched V))
  pub negedge_expression : Option (Watched V)
  pub posedge_expression : Option (Watched V)

pub record AnalogEventControl (V : Type 0) : Type 0 where
  pub analog_event_expression : Option (AnalogEventExpression V)
  pub control : EventControl V

-- The loop "Fixing sensitivity": it takes the values with an edge out of the list, one by one.
module _ {V : Type 0} where
  unfoldable pub fix_sensitivity : List (Watched V) → Sensitivity V → Sensitivity V
  fix_sensitivity [] s = s
  fix_sensitivity (v ∷ vs) s = fix_sensitivity vs (
      if v.sensitive_pos
      then record s { rising = s.rising ++ record v { sensitive_pos = false } ∷ [] }
      else if v.sensitive_neg
      then record s { falling = s.falling ++ record v { sensitive_neg = false } ∷ [] }
      else record s { any = s.any ++ v ∷ [] })

  unfoldable pub fixed_sensitivity : List (Watched V) → Sensitivity V
  unfolding fix_sensitivity
  fixed_sensitivity vs = fix_sensitivity vs (record { any = []; rising = []; falling = [] })

-- `push_back` is `BList::push_back`, which the code also calls with `nullptr`.
module _ {V : Type 0} (push_back : List (Watched V) → Option (Watched V) → List (Watched V)) where
  unfoldable pub push_expressions : List (EventExpression V) → List (Watched V) → List (Watched V)
  push_expressions [] sensitivity = sensitivity
  push_expressions (e ∷ es) sensitivity = push_expressions es (
      push_back (push_back (push_back sensitivity e.expression) e.negedge_expression)
        e.posedge_expression)

  -- The sensitivity and `allSignals`, from their values before the call.
  unfoldable pub build_sensitivity :
      EventControl V → List (Watched V) × Bool → List (Watched V) × Bool
  unfolding push_expressions
  build_sensitivity ect (sensitivity, all_signals) = elim ect.event_expression_list [
    | some es ↦ (push_expressions es sensitivity, all_signals)
    | none ↦ elim ect.event_identifier [
      | some v ↦ (push_back sensitivity (some v), all_signals)
      | none ↦ (sensitivity, (if ect.event_all then true else all_signals))
    ]
  ]

  unfoldable pub build_analog_sensitivity :
      AnalogEventControl V → List (Watched V) × Bool → Result (List (Watched V) × Bool)
  unfolding build_sensitivity
  build_analog_sensitivity ect (sensitivity, all_signals) = elim ect.analog_event_expression [
    | some e ↦ elim e.or_analog_event_expression [
      | some vs ↦ ok (sensitivity ++ vs, all_signals)
      | none ↦ elim e.negedge_expression [
        | some v ↦ ok (push_back sensitivity (some v), all_signals)
        | none ↦ elim e.posedge_expression [
          | some v ↦ ok (push_back sensitivity (some v), all_signals)
          | none ↦ err (fatal "Unexpected case")
        ]
      ]
    ]
    | none ↦ ok (build_sensitivity ect.control (sensitivity, all_signals))
  ]
