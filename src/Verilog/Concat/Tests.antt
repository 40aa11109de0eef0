-- ===== src/Verilog/Concat/Tests.antt =====
-- The replication `{3{2'b10}}`.
use hif_frontend.Common.{
  ℕ, ◌≡◌, refl, Option, none, some, List, Bytes, codes, arith, text_eq, false,
}
use hif_frontend.Common.Int.{ℤ, pos}
use hif_frontend.Common.Outcome.{ok}
use hif_frontend.Hif.{BitConstant}
use hif_frontend.Verilog.Constants.{Symbol}
use hif_frontend.Verilog.Constants.Replication.{
  Operand, bitvector_operand, constant_operand, Call, fix_iterated_concat,
}
use hif_frontend.Verilog.Constants.Copies.{IsRepeated}
use hif_frontend.Verilog.Concat.{Value, operand, int_count, parse_multiple_concatenation}
use hif_frontend.Verilog.Concat.Texts.{text, parse_multiple_concatenation_lem}

abbrev itself : Bytes → Bytes
itself s = s

-- The call that the later pass sees.
abbrev three_times : Call ℕ (List Symbol)
three_times = record {
  name = codes "iterated_concat";
  times = some (some (constant_operand 3));
  repeated = bitvector_operand (codes "10");
}

abbrev all_symbols : List Symbol → List Symbol
all_symbols symbols = symbols

abbrev number_of : Operand ℕ (List Symbol) → Option ℤ
number_of (constant_operand n) = some (pos n)
number_of _ = none

abbrev bit_name : BitConstant → Bytes
bit_name b = codes "1"

parse_multiple_concatenation_example :
    (made : Value Bytes) × (r : Bytes) × (parse_multiple_concatenation
        (int_count (pos 3))
        (operand (codes "10"))
      ≡ ok made)
    × (text itself made ≡ some r)
    × IsRepeated 3 (codes "10") r
    × (fix_iterated_concat all_symbols number_of bit_name (λ _ call. call) false three_times
        ≡ ok (some r))
unfolding text_eq
parse_multiple_concatenation_example =
    parse_multiple_concatenation_lem itself all_symbols number_of bit_name (λ _ call. call) 2
      (operand (codes "10")) (codes "10") false three_times (constant_operand 3) (omega arith) refl
      refl refl refl refl refl
