-- ===== src/Verilog/Actions/Events.antt =====
-- The wait that an event control makes of an analog statement.
use hif_frontend.Common.{
  ◌≡◌, refl, sym, ap, ◌∙◌, Bool, true, false, Option, none, some, List, [], Bytes, if◌then◌else◌,
}
use hif_frontend.Common.Outcome.{Error, Result, ok, err, ◌>>=◌, ◌>>◌, message_assert}
use hif_frontend.Verilog.Actions.{
  Watched, Sensitivity, Action, given, wait_on, block, Actions, empty, and_then, push_back, ◌+++◌,
  +++_assoc, count, remove_at, remove_at-append,
}
use hif_frontend.Verilog.Actions.Watching.{
  AnalogEventControl, fixed_sensitivity, build_analog_sensitivity,
}
use hif_frontend.Verilog.Actions.Analog.{
  AnalogActions, statement, AnalogBlock, no_block, block_of, has_declarations, first_action,
  last_action, analog_wait, close_wait, build_analog, push_analog, build_analogs, loop_statement,
  only_wait, parse_analog_event_control_statement,
}

module _ {A V : Type 0} where
  abbrev pub behind : Actions A V → Result (Actions A V) → Result (Actions A V)
  behind actions m = m >>= λ new. ok (actions +++ new)

  closed :
      (actions new : Actions A V) (wait : Actions A V → Action A V)
      → close_wait (count actions) wait (push_back actions (wait empty) +++ new)
        ≡ and_then (wait (actions +++ new)) empty
  unfolding close_wait
  closed actions new wait =
      ap (λ xs. and_then (wait xs) empty)
        (ap (remove_at (count actions)) (+++_assoc actions (and_then (wait empty) empty) new)
          ∙ remove_at-append actions new (wait empty))

module _ {A V : Type 0} where
  -- A wait of an event control is a `Wait`.
  abbrev IsWait : (Actions A V → Action A V) → Type 0
  IsWait wait = (watched : Sensitivity V) × ((xs : Actions A V) → wait xs ≡ wait_on watched xs)

  only_wait_lem :
      (wait : Actions A V → Action A V) (xs : Actions A V)
      → IsWait wait
      → only_wait (and_then (wait xs) empty) ≡ ok (wait xs)
  only_wait_lem wait xs (watched, e) = rw (e xs) refl

  same_ok : {a b : Actions A V → Action A V} → ok a ≡ ok b → (xs : Actions A V) → b xs ≡ a xs
  same_ok {a} {b} h xs = let e : a ≡ b = cc in ap (λ (w : Actions A V → Action A V). w xs) (sym e)

module _ {A V : Type 0}
    (push_value : List (Watched V) → Option (Watched V) → List (Watched V)) where
  analog_wait-IsWait :
      (ect : AnalogEventControl V) (wait : Actions A V → Action A V)
      → analog_wait push_value ect ≡ ok wait
      → IsWait wait
  unfolding analog_wait
  analog_wait-IsWait ect wait h = go (build_analog_sensitivity push_value ect ([], false)) h
    where
      go :
          (m : Result (List (Watched V) × Bool))
          → (m >>= λ (sensitivity, all_signals).
              message_assert (if all_signals then false else true) "Unsupported case"
              >> ok (wait_on (fixed_sensitivity sensitivity)))
            ≡ ok wait
          → IsWait wait
      go (err e) h = cc
      go (ok (sensitivity, true)) h = cc
      go (ok (sensitivity, false)) h = (fixed_sensitivity sensitivity, same_ok h)

module _ {A V D : Type 0}
    (push_value : List (Watched V) → Option (Watched V) → List (Watched V)) where
  push_analog-behind :
      (blocks : AnalogBlock A V D) (fields : AnalogActions A) (block_name : Bytes)
      (actions : Actions A V)
      → push_analog push_value blocks fields block_name actions
        ≡ behind actions (push_analog push_value blocks fields block_name empty)
  unfolding push_analog
  push_analog-behind no_block fields block_name actions =
      go _ (first_action fields) (last_action fields)
    where
      go :
          (x : Error) (a b : Option A)
          → elim a [
            | some a ↦ ok (push_back actions (given a))
            | none ↦ elim b [ some a ↦ ok (push_back actions (given a)) | none ↦ err x ]
          ]
            ≡ behind actions (elim a [
              | some a ↦ ok (push_back empty (given a))
              | none ↦ elim b [ some a ↦ ok (push_back empty (given a)) | none ↦ err x ]
            ])
      go x (some a) b = refl
      go x none (some b) = refl
      go x none none = refl
  push_analog-behind (block_of ss) fields block_name actions =
      go (first_action fields) (build_analogs push_value ss empty)
    where
      go :
          (a : Option A) (m : Result (Actions A V))
          → elim a [
            | some a ↦ ok (push_back actions (given a))
            | none ↦ (m >>= λ inside. ok (push_back actions (block block_name inside)))
          ]
            ≡ behind actions (elim a [
              | some a ↦ ok (push_back empty (given a))
              | none ↦ (m >>= λ inside. ok (push_back empty (block block_name inside)))
            ])
      go (some a) m = refl
      go none (ok inside) = refl
      go none (err e) = refl

  build_analog-event :
      (declarations : Option (List D)) (ect : AnalogEventControl V) (fields : AnalogActions A)
      (block_name : Bytes) (blocks : AnalogBlock A V D) (actions : Actions A V)
      → has_declarations declarations ≡ false
      → build_analog push_value
          (statement declarations (some ect) false fields block_name blocks)
          actions
        ≡ (analog_wait push_value ect >>= λ wait.
            push_analog push_value blocks fields block_name empty >>= λ new.
            ok (and_then (wait (actions +++ new)) empty))
  unfolding build_analog
  build_analog-event declarations ect fields block_name blocks actions h =
      rw h (go (analog_wait push_value ect))
    where
      made :
          (wait : Actions A V → Action A V) (m : Result (Actions A V))
          → (behind (push_back actions (wait empty)) m >>= λ xs.
              ok (close_wait (count actions) wait xs))
            ≡ (m >>= λ new. ok (and_then (wait (actions +++ new)) empty))
      made wait (ok new) = ap ok (closed actions new wait)
      made wait (err e) = refl

      go :
          (m : Result (Actions A V → Action A V))
          → (m >>= λ wait.
              push_analog push_value blocks fields block_name (push_back actions (wait empty))
              >>= λ xs. ok (close_wait (count actions) wait xs))
            ≡ (m >>= λ wait. push_analog push_value blocks fields block_name empty >>= λ new.
                ok (and_then (wait (actions +++ new)) empty))
      go (err e) = refl
      go (ok wait) =
          ap (λ m. m >>= λ xs. ok (close_wait (count actions) wait xs))
            (push_analog-behind blocks fields block_name (push_back actions (wait empty)))
          ∙ made wait (push_analog push_value blocks fields block_name empty)

  -- What the statement makes itself: nothing if it is skipped.
  abbrev pub own_actions :
      (skipped : Bool) → AnalogActions A → Bytes → AnalogBlock A V D → Result (Actions A V)
  own_actions true fields block_name blocks = ok empty
  own_actions false fields block_name blocks = push_analog push_value blocks fields block_name empty

  -- A statement behind an event control, if it has no declarations, becomes a statement whose only
  -- action is the wait for the event, over the actions that the statement itself makes; over none, if
  -- it is skipped, as that of `@(e);` is. It fails only with the error of the event control, or else
  -- with that of the statement. An event control that the statement had is replaced.
  pub parse_analog_event_control_statement_lem :
      (declarations : Option (List D)) (ect : AnalogEventControl V)
      (old : Option (AnalogEventControl V)) (skipped : Bool) (fields : AnalogActions A)
      (block_name : Bytes) (blocks : AnalogBlock A V D)
      → has_declarations declarations ≡ false
      → parse_analog_event_control_statement push_value ect
          (statement declarations old skipped fields block_name blocks)
        ≡ (analog_wait push_value ect >>= λ wait.
            own_actions skipped fields block_name blocks >>= λ new. ok (loop_statement (wait new)))
  unfolding parse_analog_event_control_statement build_analog
  parse_analog_event_control_statement_lem declarations ect old true fields block_name blocks h =
      rw h (go (analog_wait push_value ect) refl)
    where
      go :
          (m : Result (Actions A V → Action A V))
          → analog_wait push_value ect ≡ m
          → ((m >>= λ wait. ok (push_back empty (wait empty))) >>= λ action_list.
              only_wait action_list >>= λ w. ok (loop_statement {V = V} {D = D} w))
            ≡ (m >>= λ wait. ok empty >>= λ new. ok (loop_statement (wait new)))
      go (err e) k = refl
      go (ok wait) k =
          ap (λ m. m >>= λ w. ok (loop_statement w))
            (only_wait_lem wait empty (analog_wait-IsWait push_value ect wait k))
  parse_analog_event_control_statement_lem declarations ect old false fields block_name blocks h =
      ap (λ m. m >>= λ action_list. only_wait action_list >>= λ w. ok (loop_statement w))
        (build_analog-event declarations ect fields block_name blocks empty h)
      ∙ go (analog_wait push_value ect) (push_analog push_value blocks fields block_name empty) refl
    where
      go :
          (m : Result (Actions A V → Action A V)) (made : Result (Actions A V))
          → analog_wait push_value ect ≡ m
          → ((m >>= λ wait. made >>= λ new. ok (and_then (wait (empty +++ new)) empty))
              >>= λ action_list.
                  only_wait action_list >>= λ w. ok (loop_statement {V = V} {D = D} w))
            ≡ (m >>= λ wait. made >>= λ new. ok (loop_statement (wait new)))
      go (err e) made k = refl
      go (ok wait) (err e) k = refl
      go (ok wait) (ok new) k =
          ap (λ m. m >>= λ w. ok (loop_statement w))
            (only_wait_lem wait new (analog_wait-IsWait push_value ect wait k))
