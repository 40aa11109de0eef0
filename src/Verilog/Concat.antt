-- ===== src/Verilog/Concat.antt =====
-- `concat` of src/verilog2hif/verilog_support.cpp, and `parse_Concatenation` and
-- `parse_MultipleConcatenation` of src/verilog2hif/verilog_parser.cpp.
pub mod Texts
mod Tests
use hif_frontend.Common.{
  ℕ, zero, suc, Bool, true, false, List, [], ◌∷◌, leb, if◌then◌else◌, replicate,
}
use hif_frontend.Common.Int.{ℤ, pos, negsuc}
use hif_frontend.Common.Outcome.{Result, ok, err, fatal, undefined, int_max}

-- A value: an operand, an expression with op_concat, or the call `iterated_concat` of the library
-- `standard`, with its count and its operand.
pub data Value (V : Type 0) : Type 0 where
  operand : V → Value V
  concat_of : (first second : Value V) → Value V
  iterated_concat : (times : V) → (repeated : Value V) → Value V

-- The loops over the values behind the first one.
abbrev pub concat_loop : {V : Type 0} → Value V → List (Value V) → Value V
concat_loop curr_val [] = curr_val
concat_loop curr_val (v ∷ vs) = concat_loop (concat_of curr_val v) vs

unfoldable pub concat : {V : Type 0} → List (Value V) → Result (Value V)
concat [] = err (fatal "Unexpected empty list values")
concat (v ∷ vs) = ok (concat_loop v vs)

-- The grammar gives at least one value; `front` of an empty list is undefined.
unfoldable pub parse_concatenation : {V : Type 0} → List (Value V) → Result (Value V)
parse_concatenation [] = err undefined
parse_concatenation (v ∷ vs) = ok (concat_loop v vs)

-- The count: a constant, or another value.
pub data Count (V : Type 0) : Type 0 where
  int_count : ℤ → Count V
  other_count : V → Count V

-- The loop counts with an `int`, so that a count above the largest one is undefined.
unfoldable pub parse_multiple_concatenation : {V : Type 0} → Count V → Value V → Result (Value V)
unfolding concat
parse_multiple_concatenation (int_count (negsuc n)) concatenation =
    err (fatal "Negative index for concatenation")
parse_multiple_concatenation (int_count (pos n)) concatenation =
    if leb n int_max then concat (replicate n concatenation) else err undefined
parse_multiple_concatenation (other_count v) concatenation = ok (iterated_concat v concatenation)
