-- ===== src/Verilog/Binary.antt =====
-- `convertToBinary` of src/verilog2hif/verilog_support.cpp, both versions.
pub mod Value
use mathlib.Core.List.{reverse}
use hif_frontend.Common.{
  ℕ, zero, suc, ◌-◌, ◌/◌, ◌%◌, Bool, [], ◌∷◌, ◌++◌, Bytes, ◌==◌, if◌then◌else◌,
}
use hif_frontend.Common.Int.{ℤ, pos, negsuc}
use hif_frontend.Common.Outcome.{Result, ok, ◌>>=◌}
use hif_frontend.Common.Text.{atoi}

-- `number % 2 == 0`.
abbrev is_even : ℤ → Bool
is_even (pos n) = n % 2 == 0
is_even (negsuc n) = suc n % 2 == 0

-- `number / 2`, which rounds towards zero.
abbrev half : ℤ → ℤ
half (pos n) = pos (n / 2)
half (negsuc n) = if suc n / 2 == 0 then pos 0 else negsuc (suc n / 2 - 1)

-- The `while` loop, by recursion on the rounds left: the lowest bit is appended first.
pub binary_loop : ℕ → ℤ → Bytes → Bytes
binary_loop zero number binary_number = binary_number
binary_loop (suc rounds) number binary_number =
    binary_loop rounds (half number)
      (binary_number ++ (if is_even number then b'0' ∷ [] else b'1' ∷ []))

unfoldable pub convert_to_binary : ℤ → ℕ → Bytes
unfolding binary_loop
convert_to_binary number num_bits = reverse (binary_loop num_bits number [])

-- The version that takes a text.
unfoldable pub convert_text_to_binary : Bytes → ℕ → Result Bytes
unfolding convert_to_binary
convert_text_to_binary number num_bits = do temp ← atoi number; ok (convert_to_binary temp num_bits)
