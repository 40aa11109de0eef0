-- ===== src/Verilog/Tests.antt =====
-- Runs of the verilog2hif routines on inputs where the hypotheses of the theorems hold.
use hif_frontend.Common.{
  true, [], ◌∷◌, ℕ, ◌^◌, ◌%◌, ◌≡◌, refl, inl, inr, false, none, some, arith, Bytes, codes, length,
}
use hif_frontend.Common.Int.{pos}
use hif_frontend.Common.Outcome.{ok}
use hif_frontend.Common.Text.{atoi}
use hif_frontend.Common.Digits.{digit_value, number}
use hif_frontend.Hif.{bitvector_value, int_value, time_value, time_ns, time_ps, bit_x}
use hif_frontend.Verilog.Numbers.{Number, parse_based_number}
use hif_frontend.Verilog.Numbers.Radix.{parse_based_number_octal}
use hif_frontend.Verilog.Sized.{parse_dec_based_number}
use hif_frontend.Verilog.Sized.Bits.{Format}
use hif_frontend.Verilog.Sized.Meaning.{parse_dec_based_number_lem}
use hif_frontend.Verilog.Defaults.{own, Fixer, default_timescale}
use hif_frontend.Verilog.Defaults.Once.{check_calls, check_view_time_scale_once}
use hif_frontend.Verilog.Timescale.{parse_timescale}
use hif_frontend.Verilog.Timescale.Laws.{UnitText, parse_timescale_lem}

parse_based_number_octal_example :
    (parse_based_number {R = ℕ} bit_x
        (λ s. pos 0)
        (record { value = codes "17"; type = b'd'; sign = false })
      ≡ ok (some (int_value (pos 17))))
    × (parse_based_number {R = ℕ} bit_x
          (λ s. pos 0)
          (record { value = codes "17"; type = b'o'; sign = false })
        ≡ ok (some (int_value (pos 17))))
unfolding digit_value
parse_based_number_octal_example =
    parse_based_number_octal bit_x (λ s. pos 0) (codes "17") (cc)
      ((refl, omega arith), ((refl, omega arith), tt)) (omega arith)

abbrev size_12 : Number
size_12 = record { value = codes "12"; type = b'd'; sign = false }

abbrev hex_ab : Number
hex_ab = record { value = codes "ab"; type = b'h'; sign = false }

parse_dec_based_number_example :
    (r : Bytes) × (parse_dec_based_number {R = ℕ} size_12 hex_ab ≡ ok (bitvector_value r))
    × (length r ≡ 12)
    × (number 2 0 r ≡ number 16 0 (codes "ab") % 2 ^ 12)
unfolding digit_value atoi
parse_dec_based_number_example =
    parse_dec_based_number_lem Format.hexadecimal size_12 hex_ab 12 refl (omega arith) refl refl
      ((refl, omega arith), ((refl, omega arith), tt)) (cc) tt

parse_timescale_example :
    parse_timescale {R = ℕ} length
      (codes "`timescale 1 ns / 10 ps")
      (record { unit = none; precision = none })
    ≡ ok (record { unit = some (time_value 1 time_ns); precision = some (time_value 2 time_ps) })
parse_timescale_example =
    parse_timescale_lem length (codes " 1 ns / 10 ps") (codes "1") (codes "ns") (codes "10")
      (codes "ps") time_ns time_ps (record { unit = none; precision = none }) refl (inr refl, tt)
      (inr refl, (inl refl, tt)) UnitText.ns UnitText.ps

abbrev fixer : Fixer ℕ ℕ
fixer = record { declarations = own 1 ∷ []; added_default_time_scale = false }

check_view_time_scale_once_example :
    check_calls {E = ℕ} 1 10 (some [] ∷ some (5 ∷ 6 ∷ []) ∷ some [] ∷ []) fixer
    ≡ ok (record { declarations = own 1 ∷ default_timescale 1 10; added_default_time_scale = true })
check_view_time_scale_once_example =
    check_view_time_scale_once 1 10 (some [] ∷ some (5 ∷ 6 ∷ []) ∷ some [] ∷ []) fixer
      (tt, (refl, (tt, tt)))
