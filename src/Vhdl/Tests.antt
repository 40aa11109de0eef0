-- ===== src/Vhdl/Tests.antt =====
-- Runs of the vhdl2hif routines on inputs where the hypotheses of the theorems hold.
use mathlib.Core.List.{reverse}
use mathlib.Core.Option
use native.Mathlib.Nat.{pow-suc, pow-zero}
use hif_frontend.Common.{
  ◌↔◌, ℕ, ◌≡◌, refl, ◌↔◌, true, none, some, [], ◌∷◌, ◌^◌, ap, map, arith, codes, All,
}
use hif_frontend.Common.Int.{ℤ, pos, negsuc}
use hif_frontend.Common.Outcome.{Result, ok, ◌>>=◌}
use hif_frontend.Common.Text.{atoi}
use hif_frontend.Common.Digits.{digit_value, IsDigit}
use hif_frontend.Hif.{Value, int_value, time_value, identifier, range, time_ns, int_range}
use hif_frontend.Vhdl.Bits.{to_bits, bit2decimal}
use hif_frontend.Vhdl.Bits.Decode.{sixteen, bit2decimal-to_bits, bit2decimal-reverse-to_bits}
use hif_frontend.Vhdl.Literals.{parse_based_literal, parse_numeric_literal}
use hif_frontend.Vhdl.Literals.Based.{parse_based_literal_lem, parse_based_literal_exponent}
use hif_frontend.Vhdl.Literals.Strings.{PhysicalLiteral, parse_numeric_literal_lem}
use hif_frontend.Vhdl.Types.{resolve_type, vector_span}
use hif_frontend.Vhdl.Types.Laws.{Vector, spans, flags, resolve_type-Vector}

digits_3F : All (IsDigit 16) (codes "3F")
unfolding digit_value
digits_3F = ((refl, omega arith), ((refl, omega arith), tt))

bit2decimal-to_bits_example :
    (do bits ← to_bits (codes "3F") (pos 16); bit2decimal bits) ≡ ok (pos 63)
unfolding digit_value
bit2decimal-to_bits_example = bit2decimal-to_bits sixteen (codes "3F") digits_3F (omega arith)

bit2decimal-reverse-to_bits_example :
    (do bits ← to_bits (codes "10") (pos 10); bit2decimal (reverse bits)) ≡ ok (pos 10)
unfolding atoi
bit2decimal-reverse-to_bits_example = bit2decimal-reverse-to_bits (codes "10") 10 (cc) refl

-- A power for exponents that are not negative.
abbrev int_pow : ℤ → ℤ → Result ℤ
int_pow (pos x) (pos n) = ok (pos (x ^ n))
int_pow x n = ok x

int_pow_one : (x : ℤ) → int_pow x (pos 1) ≡ ok x
int_pow_one (pos x) = ap (λ y. ok (pos y)) (rw (pow-suc x 0, pow-zero x) (omega arith))
int_pow_one (negsuc x) = refl

parse_based_literal_example :
    parse_based_literal {R = ℕ} int_pow (codes "16#3F#") ≡ ok (int_value (pos 63))
unfolding digit_value
parse_based_literal_example =
    parse_based_literal_lem int_pow int_pow_one sixteen (codes "3F") digits_3F (omega arith)

parse_based_literal_exponent_example :
    parse_based_literal {R = ℕ} int_pow (codes "16#3F#E2")
    ≡ (do e ← atoi (codes "2"); p ← int_pow (pos 63) e; ok (int_value p))
unfolding digit_value
parse_based_literal_exponent_example =
    parse_based_literal_exponent int_pow sixteen (codes "3F") (codes "2") digits_3F (omega arith)
      (cc) (refl, tt)

parse_numeric_literal_example :
    (parse_numeric_literal {R = ℤ} (λ n. n) (int_value (pos 5)) (identifier (codes "ns"))
      ≡ ok (time_value (pos 5) time_ns))
    ↔ PhysicalLiteral
        (λ n. n)
        (int_value (pos 5))
        (identifier (codes "ns"))
        (time_value (pos 5) time_ns)
parse_numeric_literal_example =
    parse_numeric_literal_lem (λ n. n) (int_value (pos 5)) (identifier (codes "ns"))
      (time_value (pos 5) time_ns)

seven_to_zero : Value ℕ
seven_to_zero = range (int_range (pos 7) (pos 0))

resolve_type-Vector_example :
    let (type, left) =
      resolve_type (codes "std_logic_vector") (some (seven_to_zero ∷ [])) none true in
    (Option.map spans type ≡ some (map vector_span (seven_to_zero ∷ [])))
    × (Option.map flags type ≡ some (some (true, true)))
    × (left ≡ some [])
resolve_type-Vector_example = resolve_type-Vector Vector.std_logic_vector seven_to_zero [] none true
