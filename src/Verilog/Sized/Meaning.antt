-- ===== src/Verilog/Sized/Meaning.antt =====
-- The number that a sized literal stands for.
use native.Mathlib.Nat.{mod-eq_of_lt, pow-le-pow_right}
use hif_frontend.Common.{
  ℕ, zero, suc, ◌+◌, ◌-◌, ◌*◌, ◌%◌, ◌^◌, ◌≤◌, ◌<◌, ◌≡◌, ◌≢◌, refl, sym, ap, ◌∙◌, inl, inr, Bool,
  true, false, [], ◌∷◌, ◌++◌, arith, Bytes, ltb, if◌then◌else◌, length, length-drop, drop, take,
  All, Bool-cases,
}
use hif_frontend.Common.Int.{pos}
use hif_frontend.Common.Outcome.{Result, ok, ◌>>=◌}
use hif_frontend.Common.Text.{atoi, atoi_bounds}
use hif_frontend.Common.Digits.{
  digit_value, IsDigit, number, number-append, number_split, number-lt, number-replicate,
  mod_unique,
}
use hif_frontend.Hif.{Value, bitvector_value}
use hif_frontend.Verilog.Numbers.{Number}
use hif_frontend.Verilog.Sized.{resize, pad_char, digit_text, sized_value, parse_dec_based_number}
use hif_frontend.Verilog.Sized.Bits.{Format, Readable, digit_text-Format}
use hif_frontend.Verilog.Sized.Width.{length-resize, sized_value_wide, sized}

-- A leading zero does not change bits, and cutting keeps the low ones.
pad_zero : (c : ℕ) → IsDigit 2 c → pad_char c false ≡ b'0'
unfolding pad_char digit_value
pad_zero c h = ground arith

take-drop : (k : ℕ) (s : Bytes) → take k s ++ drop k s ≡ s
take-drop zero s = refl
take-drop (suc k) [] = refl
take-drop (suc k) (c ∷ s) = rw (take-drop k s)

All-drop : (k : ℕ) (s : Bytes) → All (IsDigit 2) s → All (IsDigit 2) (drop k s)
All-drop zero s h = h
All-drop (suc k) [] h = tt
All-drop (suc k) (c ∷ s) (h, hs) = All-drop k s hs

number-drop :
    (k w : ℕ) (s : Bytes)
    → All (IsDigit 2) s
    → length (drop k s) ≡ w
    → number 2 0 (drop k s) ≡ number 2 0 s % 2 ^ w
number-drop k w s h e =
    let low = drop k s in
    let high = number 2 0 (take k s) in
    let below : number 2 0 low < 2 ^ w = rw e at (number-lt 2 low (All-drop k s h)) in
    let whole : number 2 0 s ≡ high * 2 ^ w + number 2 0 low =
      ap (number 2 0) (sym (take-drop k s))
      ∙ number-append 2 (take k s) low 0
      ∙ rw e at (number_split 2 low high) in
    sym (rw whole (mod_unique high (number 2 0 low) (2 ^ w) below))

number-resize :
    (w : ℕ) (s : Bytes)
    → All (IsDigit 2) s
    → s ≢ []
    → number 2 0 (resize w false s) ≡ number 2 0 s % 2 ^ w
unfolding resize
number-resize w [] h n = absurd (n refl)
number-resize w (c ∷ s) h n =
    let tmp = c ∷ s in
    elim (Bool-cases (ltb (length tmp) w)) [
      | inl e ↦
          rw (e, pad_zero c h.0)
            (number-replicate 2 (w - length tmp) tmp
              ∙ sym (mod-eq_of_lt (small (length tmp) w e (number-lt 2 tmp h))))
      | inr e ↦ rw e (
          number-drop (length tmp - w) w tmp h
            (length-drop (length tmp - w) tmp ∙ above (length tmp) w e))
    ]
  where
    above : (a b : ℕ) → ltb a b ≡ false → a - (a - b) ≡ b
    above a b h = ground arith

    less : (a b : ℕ) → ltb a b ≡ true → a ≤ b
    less a b h = ground arith

    small : (a b : ℕ) {n : ℕ} → ltb a b ≡ true → n < 2 ^ a → n < 2 ^ b
    small a b e h = omega (arith, pow-le-pow_right {n = 2} (omega arith) (less a b e))

-- What is left of the routine once the digits are read.
read_plain :
    {R : Type 0} (m : Result Bytes) (w : ℕ) (sign : Bool) (e : Result (Value R)) {tmp r : Bytes}
    → sign ≡ false
    → m ≡ ok tmp
    → sized_value {R = R} (resize w false tmp) ≡ ok (bitvector_value r)
    → (if sign then e else (do bits ← m; sized_value {R = R} (resize w sign bits)))
      ≡ ok (bitvector_value r)
read_plain m w sign fail plain e h = rw (plain, e) h

-- A sized literal without sign whose digits fit its format, with a size `w` of two bits or more, is
-- a bit vector of `w` bits that spell the number of the digits modulo two to the `w`. (A decimal
-- number has to fit in an `int`.)
pub parse_dec_based_number_lem :
    {R : Type 0} {letter base : ℕ} (f : Format letter base) (dec_number based_number : Number)
    (w : ℕ)
    → atoi dec_number.value ≡ ok (pos w)
    → 1 < w
    → based_number.sign ≡ false
    → based_number.type ≡ letter
    → All (IsDigit base) based_number.value
    → based_number.value ≢ []
    → Readable f based_number.value
    → (r : Bytes) × (parse_dec_based_number {R = R} dec_number based_number
        ≡ ok (bitvector_value r))
      × (length r ≡ w)
      × (number 2 0 r ≡ number base 0 based_number.value % 2 ^ w)
parse_dec_based_number_lem f dec_number based_number w size wide plain letter digits some_digit
      readable =
    let (tmp, e, bits, value, filled) =
      digit_text-Format f based_number w letter (atoi_bounds dec_number.value w size) digits
        some_digit readable (omega arith) in
    let r = resize w false tmp in
    let width = length-resize w false tmp filled in
    (
      r,
      sized dec_number based_number w size
          ∙ read_plain (digit_text based_number w) w based_number.sign _ plain e
              (sized_value_wide r (omega arith)),
      width,
      number-resize w tmp bits filled ∙ value,
    )
