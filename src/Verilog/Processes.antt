-- ===== src/Verilog/Processes.antt =====
-- `visitStateTable`, `_fixAllSignalsSesitivity` and `_fixProcessesWithWait` of
-- src/verilog2hif/FixDescription_1.cpp: what a process with `@*` watches, and the wait that closes the
-- loop of a process that waits.
pub mod Sensitivity
pub mod Watched
mod Tests
use hif_frontend.Common.{
  Bool, true, false, not, ◌&&◌, ◌||◌, Option, none, some, List, [], ◌∷◌, ◌++◌, if◌then◌else◌,
}
use hif_frontend.Common.Outcome.{Result, ok, err, fatal, undefined, ◌>>=◌}

-- What a declaration is: `other_data` for a `DataDeclaration` that is no signal and no port.
pub data DeclarationClass : Type 0 where
  signal port other_data no_data : DeclarationClass

-- A declaration, and, if its type is a view, whether the view is part of the standard.
pub record Declaration : Type 0 where
  pub class : DeclarationClass
  pub view_is_standard : Option Bool

-- A symbol that `collectSymbols` finds: itself, if it is a value, and what the library says of it.
pub record Symbol (V : Type 0) : Type 0 where
  pub value : Option V
  pub in_left_hand_side : Bool
  pub is_library_instance : Bool
  pub declaration : Option Declaration

pub data Flavour : Type 0 where
  initial analog other_flavour : Flavour

-- An action, or the wait with `PROPERTY_PROCESS_LOOP_TAIL`.
pub data Action (A : Type 0) : Type 0 where
  own_action : A → Action A
  loop_tail : Action A

-- A state table: the property ALL_SIGNALS, the sensitivity, whether it is a subprogram's, the flavour,
-- the symbols that `collectSymbols` finds in it, and the actions of its states.
pub record StateTable (A V : Type 0) : Type 0 where
  pub all_signals : Bool
  pub sensitivity : List V
  pub is_of_subprogram : Bool
  pub flavour : Flavour
  pub symbols : List (Symbol V)
  pub states : List (List (Action A))

-- The sensitivity anew, without the property.
abbrev pub watching : {A V : Type 0} → List V → StateTable A V → StateTable A V
watching sensitivity table = record {
  all_signals = false;
  sensitivity = sensitivity;
  is_of_subprogram = table.is_of_subprogram;
  flavour = table.flavour;
  symbols = table.symbols;
  states = table.states;
}

abbrev pub with_states : {A V : Type 0} → List (List (Action A)) → StateTable A V → StateTable A V
with_states states table = record {
  all_signals = table.all_signals;
  sensitivity = table.sensitivity;
  is_of_subprogram = table.is_of_subprogram;
  flavour = table.flavour;
  symbols = table.symbols;
  states = states;
}

abbrev pub is_net : DeclarationClass → Bool
is_net signal = true
is_net port = true
is_net _ = false

abbrev pub is_true : Option Bool → Bool
is_true (some true) = true
is_true _ = false

-- The value that a symbol adds to the sensitivity, if it adds one.
unfoldable pub watched_value : {V : Type 0} → Symbol V → Result (Option V)
watched_value symbol = elim symbol.value [
  | none ↦ ok none
  | some v ↦
      if symbol.in_left_hand_side
      then ok none
      else if symbol.is_library_instance
      then ok none
      else elim symbol.declaration [
        | none ↦ err (fatal "Unable to get declaration.")
        | some decl ↦
            if is_net decl.class && not (is_true decl.view_is_standard)
            then ok (some v)
            else ok none
      ]
]

abbrev pub waits_in_loop : Flavour → Bool
waits_in_loop other_flavour = true
waits_in_loop _ = false

-- `o->states.front()->actions.push_back(w)`.
abbrev pub close_loop : {A : Type 0} → List (List (Action A)) → Result (List (List (Action A)))
close_loop [] = err undefined
close_loop (actions ∷ states) = ok ((actions ++ (loop_tail ∷ [])) ∷ states)

-- `add_unique` is the library's `addUniqueObject`, and `contains_wait` its search for a `Wait`.
module _ {V : Type 0} (add_unique : V → List V → List V) where
  abbrev pub add_value : Option V → List V → List V
  add_value none sensitivity = sensitivity
  add_value (some v) sensitivity = add_unique v sensitivity

  unfoldable pub watch_loop : List (Symbol V) → List V → Result (List V)
  watch_loop [] sensitivity = ok sensitivity
  watch_loop (symbol ∷ symbols) sensitivity =
      watched_value symbol >>= λ value. watch_loop symbols (add_value value sensitivity)

module _ {A V : Type 0} (add_unique : V → List V → List V)
    (contains_wait : List (List (Action A)) → Bool) where
  unfoldable pub fix_all_signals_sensitivity : StateTable A V → Result (StateTable A V)
  unfolding watch_loop
  fix_all_signals_sensitivity table =
      if table.all_signals
      then (watch_loop add_unique table.symbols table.sensitivity >>= λ sensitivity.
          ok (watching sensitivity table))
      else ok table

  unfoldable pub fix_processes_with_wait : StateTable A V → Result (StateTable A V)
  fix_processes_with_wait table =
      if not table.is_of_subprogram && waits_in_loop table.flavour && contains_wait table.states
      then (close_loop table.states >>= λ states. ok (with_states states table))
      else ok table

  unfoldable pub visit_state_table : StateTable A V → Result (StateTable A V)
  unfolding fix_all_signals_sensitivity fix_processes_with_wait
  visit_state_table table = fix_all_signals_sensitivity table >>= fix_processes_with_wait
