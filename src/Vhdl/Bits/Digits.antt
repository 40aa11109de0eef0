-- ===== src/Vhdl/Bits/Digits.antt =====
-- The bits of a text of digits stand for the number that the digits spell.
use hif_frontend.Common.{
  ℕ, ◌+◌, ◌*◌, ◌/◌, ◌%◌, ◌≤◌, ◌≡◌, refl, true, ◌&&◌, ◌||◌, not, [], ◌∷◌, arith, Bytes, ltb, text_eq,
  text_eq-eq, all_below, all_below_sound,
}
use hif_frontend.Common.Int.{pos, ◌+ℤ◌, ◌-ℤ◌, ◌*ℤ◌}
use hif_frontend.Common.Outcome.{checked, int_max}
use hif_frontend.Common.Digits.{digit_value, is_hex, IsDigit}
use hif_frontend.Vhdl.Bits.{oct2bits, hex2bits, shift_in, bit2decimal_loop}

abbrev bit_of : ℕ → ℕ
bit_of n = b'0' + n % 2

abbrev nibble : ℕ → Bytes
nibble d = bit_of (d / 8) ∷ bit_of (d / 4) ∷ bit_of (d / 2) ∷ bit_of d ∷ []

abbrev triple : ℕ → Bytes
triple d = bit_of (d / 4) ∷ bit_of (d / 2) ∷ bit_of d ∷ []

hex_table :
    all_below 128 (λ c. not (is_hex c) || text_eq (hex2bits c) (nibble (digit_value c))) ≡ true
unfolding all_below hex2bits digit_value text_eq
hex_table = refl

oct_table :
    all_below 128 (λ c.
      not (is_hex c && ltb (digit_value c) 8) || text_eq (oct2bits c) (triple (digit_value c)))
    ≡ true
unfolding all_below oct2bits digit_value text_eq
oct_table = refl

pub hex2bits-nibble : (c : ℕ) → is_hex c ≡ true → hex2bits c ≡ nibble (digit_value c)
hex2bits-nibble c h =
    text_eq-eq _ _ (ground (arith, all_below_sound 128 _ c hex_table (ground arith)))

pub oct2bits-triple : (c : ℕ) → IsDigit 8 c → oct2bits c ≡ triple (digit_value c)
oct2bits-triple c h =
    text_eq-eq _ _ (ground (arith, all_below_sound 128 _ c oct_table (ground arith)))

shift_bit : (n d : ℕ) → shift_in (pos n) (b'0' + d) ≡ pos (2 * n + d)
unfolding shift_in ◌+ℤ◌ ◌-ℤ◌ ◌*ℤ◌
shift_bit n d = ground arith

-- One bit is shifted in while the value stays an `int`.
pub loop_bit :
    (n d : ℕ) (s : Bytes)
    → 2 * n + d ≤ int_max
    → bit2decimal_loop (pos n) ((b'0' + d) ∷ s) ≡ bit2decimal_loop (pos (2 * n + d)) s
unfolding bit2decimal_loop checked
loop_bit n d s h = rw (shift_bit n d) (ground arith)
