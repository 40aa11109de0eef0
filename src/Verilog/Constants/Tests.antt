-- ===== src/Verilog/Constants/Tests.antt =====
-- Runs of the passes on constants, on inputs where the hypotheses of the theorems hold.
use hif_frontend.Common.{
  ℕ, ◌≡◌, refl, ◌↔◌, ◌⊎◌, true, false, not, Option, none, some, List, [], ◌∷◌, Bytes, codes, keep,
  text_eq,
}
use hif_frontend.Common.Int.{ℤ, pos}
use hif_frontend.Common.Outcome.{ok}
use hif_frontend.Hif.{BitConstant}
use hif_frontend.Verilog.Constants.{
  Declaration, Symbol, signal, other, GlobalAction, assign, identifier, visit_global_action,
}
use hif_frontend.Verilog.Constants.Folding.{
  all_of_value, all_reachable, is_folded, last_value, visit_global_action_lem,
}
use hif_frontend.Verilog.Constants.Replication.{
  Operand, bitvector_operand, symbolic_operand, constant_operand, Call, check_replication_count,
  fix_iterated_concat,
}
use hif_frontend.Verilog.Constants.Counts.{
  all_static, system_call, check_replication_count_lem, check_replication_count-fix_system_name,
}
use hif_frontend.Verilog.Constants.Copies.{IsRepeated, fix_iterated_concat_lem}

abbrev wire : Declaration
wire = record { class = signal; is_genvar = false; in_contents = true }

abbrev function : Declaration
function = record { class = other; is_genvar = false; in_contents = false }

abbrev named_signal : Symbol
named_signal = record { call_name = none; is_library_instance = false; declaration = some wire }

-- A value is the list of its symbols.
abbrev symbols_of : List Symbol → List Symbol
symbols_of symbols = symbols

abbrev two_actions : List (GlobalAction ℕ ℕ (List Symbol))
two_actions =
    assign (identifier (some 1)) (some [])
    ∷ assign (identifier (some 2)) (some (named_signal ∷ []))
    ∷ []

visit_global_action_example :
    (after : (ℕ → Option (List Symbol))) × (visit_global_action symbols_of two_actions (λ d. none)
      ≡ ok (keep (λ a. not (is_folded symbols_of a)) two_actions, after))
    × ((d : ℕ) → after d ≡ last_value symbols_of d two_actions none)
    × ((d : ℕ) → (after d ≡ none) ⊎ (all_of_value symbols_of all_reachable (after d) ≡ true))
visit_global_action_example =
    visit_global_action_lem symbols_of two_actions (λ d. none) (refl, (refl, tt))

abbrev clog2_call : Bytes → Call ℕ (List Symbol)
clog2_call n = record {
  name = codes "iterated_concat";
  times = some (some (symbolic_operand (system_call n function ∷ [])));
  repeated = bitvector_operand (codes "10");
}

check_replication_count_example :
    (check_replication_count symbols_of (clog2_call (codes "time")) ≡ ok tt)
    ↔ (all_static (system_call (codes "time") function ∷ []) ≡ true)
check_replication_count_example =
    check_replication_count_lem symbols_of (clog2_call (codes "time"))
      (system_call (codes "time") function ∷ []) refl

-- A count that is the sum of a parameter and of the call.
abbrev parameter : Symbol
parameter = record { call_name = none; is_library_instance = false; declaration = none }

abbrev sum_call : Call ℕ (List Symbol)
sum_call = record {
  name = codes "iterated_concat";
  times = some (some (symbolic_operand (parameter ∷ system_call (codes "time") function ∷ [])));
  repeated = bitvector_operand (codes "10");
}

check_replication_count-fix_system_name_example :
    (check_replication_count symbols_of sum_call ≡ ok tt)
    ↔ ((codes "time" ≡ codes "clog2") × (all_static (parameter ∷ []) ≡ true))
check_replication_count-fix_system_name_example =
    check_replication_count-fix_system_name symbols_of sum_call
      (parameter ∷ system_call (codes "time") function ∷ []) (codes "time") function
      (parameter ∷ []) [] refl refl refl

abbrev three_times : Call ℕ (List Symbol)
three_times = record {
  name = codes "iterated_concat";
  times = some (some (constant_operand 3));
  repeated = bitvector_operand (codes "10");
}

-- The value of a constant, which is a number here.
abbrev number_of : Operand ℕ (List Symbol) → Option ℤ
number_of (constant_operand n) = some (pos n)
number_of _ = none

abbrev bit_name : BitConstant → Bytes
bit_name b = codes "1"

fix_iterated_concat_example :
    (r : Bytes) × (fix_iterated_concat symbols_of number_of bit_name
        (λ _ call. call)
        false
        three_times
      ≡ ok (some r))
    × IsRepeated 3 (codes "10") r
unfolding text_eq
fix_iterated_concat_example =
    fix_iterated_concat_lem symbols_of number_of bit_name (λ _ call. call) false three_times
      (constant_operand 3) 2 (codes "10") refl refl refl refl refl
