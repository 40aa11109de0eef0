-- ===== src/Verilog/Actions/EventControl.antt =====
-- The wait of an analog event control, and the statement that it makes.
use hif_frontend.Common.{
  ◌≡◌, refl, ap, ◌∙◌, Bool, true, false, Option, none, some, List, [], ◌∷◌, ◌++◌, map, keep, Bytes,
  if◌then◌else◌,
}
use hif_frontend.Common.Outcome.{Error, Result, ok, err, ◌>>=◌}
use hif_frontend.Verilog.Actions.{Watched, Sensitivity, Action, Actions, wait_on}
use hif_frontend.Verilog.Actions.Watching.{
  AnalogEventExpression, EventControl, AnalogEventControl, push_expressions, fixed_sensitivity,
  build_sensitivity, build_analog_sensitivity,
}
use hif_frontend.Verilog.Actions.Edges.{
  without_pos, without_neg, is_falling, is_any, fixed_sensitivity_lem,
}
use hif_frontend.Verilog.Actions.EventList.{values, push_expressions-values}
use hif_frontend.Verilog.Actions.Analog.{
  AnalogActions, statement, AnalogBlock, has_declarations, analog_wait, loop_statement,
  parse_analog_event_control_statement,
}
use hif_frontend.Verilog.Actions.Events.{own_actions, parse_analog_event_control_statement_lem}

module _ {V : Type 0} where
  -- The values that a control names, in order; `none` for a control that is refused: an analog event
  -- expression without a value, or `@*`.
  abbrev pub watched_values : AnalogEventControl V → Option (List (Watched V))
  watched_values ect = elim ect.analog_event_expression [
    | some e ↦ elim e.or_analog_event_expression [
      | some vs ↦ some vs
      | none ↦ elim e.negedge_expression [
        | some v ↦ some (v ∷ [])
        | none ↦ elim e.posedge_expression [ some v ↦ some (v ∷ []) | none ↦ none ]
      ]
    ]
    | none ↦ elim ect.control.event_expression_list [
      | some es ↦ some (values es)
      | none ↦ elim ect.control.event_identifier [
        | some v ↦ some (v ∷ [])
        | none ↦ if ect.control.event_all then none else some []
      ]
    ]
  ]

  -- The values of a `posedge` as rising, the other ones of a `negedge` as falling, and the rest.
  abbrev pub sorted : List (Watched V) → Sensitivity V
  sorted vs = record {
    any = keep is_any vs;
    rising = map without_pos (keep (λ v. v.sensitive_pos) vs);
    falling = map without_neg (keep is_falling vs);
  }

  -- A result that waits for the values, or an error where the control is refused.
  abbrev pub WaitsFor :
      {B : Type 0} → Option (List (Watched V)) → (Sensitivity V → Result B) → Result B → Type 0
  WaitsFor none made m = (e : Error) × (m ≡ err e)
  WaitsFor (some vs) made m = m ≡ made (sorted vs)

made_wait : {A V : Type 0} → Sensitivity V → Result (Actions A V → Action A V)
made_wait s = ok (wait_on s)

-- `BList::push_back` appends a value, and leaves the list as it is on `nullptr`.
module _ (A : Type 0) {V : Type 0}
    (push_value : List (Watched V) → Option (Watched V) → List (Watched V))
    (push_some : (vs : List (Watched V)) (v : Watched V) → push_value vs (some v) ≡ vs ++ v ∷ [])
    (push_none : (vs : List (Watched V)) → push_value vs none ≡ vs) where
  sorted_wait :
      (vs vs' : List (Watched V))
      → vs ≡ vs'
      → made_wait {A = A} (fixed_sensitivity vs) ≡ made_wait (sorted vs')
  sorted_wait vs vs' e =
      ap (λ xs. made_wait (fixed_sensitivity xs)) e ∙ ap made_wait (fixed_sensitivity_lem vs')

  analog_wait_lem :
      (ect : AnalogEventControl V)
      → WaitsFor (watched_values ect) made_wait (analog_wait {A = A} push_value ect)
  unfolding analog_wait build_analog_sensitivity build_sensitivity made_wait
  analog_wait_lem ect = go ect.analog_event_expression ect.control
    where
      of_expression :
          (o : Option (List (Watched V))) (n p : Option (Watched V)) (c : EventControl V)
          → let ect : AnalogEventControl V = record {
            analog_event_expression = some (record {
              or_analog_event_expression = o;
              negedge_expression = n;
              posedge_expression = p;
            });
            control = c;
          } in
            WaitsFor (watched_values ect) made_wait (analog_wait {A = A} push_value ect)
      of_expression (some vs) n p c = sorted_wait ([] ++ vs) vs refl
      of_expression none (some v) p c =
          sorted_wait (push_value [] (some v)) (v ∷ []) (push_some [] v)
      of_expression none none (some v) c =
          sorted_wait (push_value [] (some v)) (v ∷ []) (push_some [] v)
      of_expression none none none c = (_, refl)

      of_control :
          (es : Option (List _)) (i : Option (Watched V)) (b : Bool)
          → let ect : AnalogEventControl V = record {
            analog_event_expression = none;
            control = record { event_expression_list = es; event_identifier = i; event_all = b };
          } in
            WaitsFor (watched_values ect) made_wait (analog_wait {A = A} push_value ect)
      of_control (some es) i b =
          sorted_wait (push_expressions push_value es []) (values es)
            (push_expressions-values push_value push_some push_none es [])
      of_control none (some v) b = sorted_wait (push_value [] (some v)) (v ∷ []) (push_some [] v)
      of_control none none true = (_, refl)
      of_control none none false = sorted_wait [] [] refl

      go :
          (e : Option (AnalogEventExpression V)) (c : EventControl V)
          → let ect : AnalogEventControl V = record { analog_event_expression = e; control = c } in
            WaitsFor (watched_values ect) made_wait (analog_wait {A = A} push_value ect)
      go (some e) c =
          of_expression e.or_analog_event_expression e.negedge_expression e.posedge_expression c
      go none c = of_control c.event_expression_list c.event_identifier c.event_all

module _ {A V D : Type 0} (push_value : List (Watched V) → Option (Watched V) → List (Watched V))
    (push_some : (vs : List (Watched V)) (v : Watched V) → push_value vs (some v) ≡ vs ++ v ∷ [])
    (push_none : (vs : List (Watched V)) → push_value vs none ≡ vs) where
  -- A statement behind an event control, if it has no declarations, becomes a statement whose only
  -- action is a wait over the actions that the statement itself makes, or over none, if it is skipped,
  -- as that of `@(e);` is. The wait watches the values of the control: those of a `posedge` as rising,
  -- the other ones of a `negedge` as falling, and the rest for any change. It fails on `@*` and on an
  -- analog event expression without a value, and else only with the error of the statement. An event
  -- control that the statement had is replaced. (`BList::push_back` ignores `nullptr`.)
  pub parse_analog_event_control_statement-WaitsFor :
      (declarations : Option (List D)) (ect : AnalogEventControl V)
      (old : Option (AnalogEventControl V)) (skipped : Bool) (fields : AnalogActions A)
      (block_name : Bytes) (blocks : AnalogBlock A V D)
      → has_declarations declarations ≡ false
      → WaitsFor
          (watched_values ect)
          (λ s. own_actions push_value skipped fields block_name blocks >>= λ new.
            ok (loop_statement {V = V} {D = D} (wait_on s new)))
          (parse_analog_event_control_statement push_value ect
            (statement declarations old skipped fields block_name blocks))
  unfolding made_wait
  parse_analog_event_control_statement-WaitsFor declarations ect old skipped fields block_name
        blocks h =
      go (watched_values ect) (analog_wait push_value ect)
        (analog_wait_lem A push_value push_some push_none ect)
        (parse_analog_event_control_statement_lem push_value declarations ect old skipped fields
          block_name blocks h)
    where
      go :
          (values : Option (List (Watched V))) (m : Result (Actions A V → Action A V))
          → WaitsFor values (λ s. ok (wait_on s)) m
          → parse_analog_event_control_statement push_value ect
              (statement declarations old skipped fields block_name blocks)
            ≡ (m >>= λ wait. own_actions push_value skipped fields block_name blocks >>= λ new.
                ok (loop_statement (wait new)))
          → WaitsFor values
              (λ s. own_actions push_value skipped fields block_name blocks >>= λ new.
                ok (loop_statement {V = V} {D = D} (wait_on s new)))
              (parse_analog_event_control_statement push_value ect
                (statement declarations old skipped fields block_name blocks))
      go none m (e, k) made = (e, made ∙ rw k refl)
      go (some vs) m k made = made ∙ rw k refl
