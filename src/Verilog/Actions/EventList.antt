-- ===== src/Verilog/Actions/EventList.antt =====
-- The wait that a list of event expressions gives.
use hif_frontend.Common.{
  ◌≡◌, refl, sym, ap, ◌∙◌, Option, none, some, List, [], ◌∷◌, ◌++◌, map, append-nil, append_assoc,
  keep,
}
use hif_frontend.Common.Outcome.{ok}
use hif_frontend.Verilog.Actions.{Watched, wait_on, empty}
use hif_frontend.Verilog.Actions.Watching.{
  EventExpression, EventControl, push_expressions, build_sensitivity, fixed_sensitivity,
}
use hif_frontend.Verilog.Actions.Edges.{
  without_pos, without_neg, is_falling, is_any, fixed_sensitivity_lem,
}
use hif_frontend.Verilog.Actions.Procedural.{event_wait}

abbrev pub present : {B : Type 0} → Option B → List B
present (some v) = v ∷ []
present none = []

-- The values of the expressions, in their order.
abbrev pub values : {V : Type 0} → List (EventExpression V) → List (Watched V)
values [] = []
values (e ∷ es) =
    present e.expression
    ++ present e.negedge_expression
    ++ present e.posedge_expression
    ++ values es

-- `BList::push_back` appends a value, and leaves the list as it is on `nullptr`.
module _ {V : Type 0} (push_value : List (Watched V) → Option (Watched V) → List (Watched V))
    (push_some : (vs : List (Watched V)) (v : Watched V) → push_value vs (some v) ≡ vs ++ v ∷ [])
    (push_none : (vs : List (Watched V)) → push_value vs none ≡ vs) where
  push_value-present :
      (vs : List (Watched V)) (o : Option (Watched V)) → push_value vs o ≡ vs ++ present o
  push_value-present vs (some v) = push_some vs v
  push_value-present vs none = push_none vs ∙ sym (append-nil vs)

  pub push_expressions-values :
      (es : List (EventExpression V)) (vs : List (Watched V))
      → push_expressions push_value es vs ≡ vs ++ values es
  unfolding push_expressions
  push_expressions-values [] vs = sym (append-nil vs)
  push_expressions-values (e ∷ es) vs =
      push_expressions-values es _ ∙ simp (push_value-present, append_assoc)

  listed :
      {A : Type 0} (ect : EventControl V) (es : List (EventExpression V))
      → ect.event_expression_list ≡ some es
      → event_wait {A = A} push_value ect
        ≡ ok (wait_on (fixed_sensitivity (push_expressions push_value es [])) empty)
  unfolding event_wait build_sensitivity
  listed ect es e = rw e refl

  -- A wait on a list of event expressions watches each value of the list once: those of a `posedge`
  -- as rising, the other ones of a `negedge` as falling, and the rest for any change, each in the
  -- order of the list. (`BList::push_back` ignores `nullptr`.)
  pub event_wait_lem :
      {A : Type 0} (ect : EventControl V) (es : List (EventExpression V))
      → ect.event_expression_list ≡ some es
      → event_wait {A = A} push_value ect
        ≡ ok (
            wait_on
              (record {
                any = keep is_any (values es);
                rising = map without_pos (keep (λ v. v.sensitive_pos) (values es));
                falling = map without_neg (keep is_falling (values es));
              })
              empty)
  event_wait_lem ect es e =
      listed ect es e
      ∙ ap (λ vs. ok (wait_on (fixed_sensitivity vs) empty)) (push_expressions-values es [])
      ∙ ap (λ s. ok (wait_on s empty)) (fixed_sensitivity_lem (values es))
