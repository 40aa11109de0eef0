-- ===== src/Verilog/Numbers/Radix.antt =====
-- The number that an unsized based number stands for.
use hif_frontend.Common.{
  ℕ, zero, suc, ◌≤◌, ◌≡◌, ◌≢◌, refl, sym, ap, ◌∙◌, inl, inr, Bool, true, false, ◌||◌, none, some,
  [], ◌∷◌, map, arith, Bytes, ◌==◌, if◌then◌else◌, length, set, All, Option-cases,
}
use hif_frontend.Common.Int.{ℤ, pos}
use hif_frontend.Common.Outcome.{ok, int_max}
use hif_frontend.Common.Text.{find, atoi}
use hif_frontend.Common.Digits.{digit_value, IsDigit, number, number-replicate, atoi-number}
use hif_frontend.Hif.{BitConstant, int_value}
use hif_frontend.Verilog.Numbers.{zero_loop, replace_x_z, parse_based_number}

abbrev pub is_x_z : ℕ → Bool
is_x_z c = c == b'x' || c == b'z'

-- A character with `x` and `z` read as zero.
abbrev pub zeroed : ℕ → ℕ
zeroed c = if is_x_z c then b'0' else c

abbrev bad : Bytes → ℕ
bad [] = 0
bad (c ∷ s) = if is_x_z c then suc (bad s) else bad s

bad-set :
    (x : ℕ) (s : Bytes) (i : ℕ)
    → is_x_z x ≡ true
    → find x s ≡ some i
    → (suc (bad (set s i b'0')) ≡ bad s) × (map zeroed (set s i b'0') ≡ map zeroed s)
unfolding find
bad-set x [] i h e = ground arith
bad-set x (c ∷ s) zero h e = ground arith
bad-set x (c ∷ s) (suc i) h e = ground (arith, bad-set x s i h)

none_bad : (s : Bytes) → find b'x' s ≡ none → find b'z' s ≡ none → map zeroed s ≡ s
unfolding find
none_bad [] h k = refl
none_bad (c ∷ s) h k = ground (arith, none_bad s)

bad-length : (s : Bytes) → bad s ≤ length s
bad-length [] = omega arith
bad-length (c ∷ s) = ground (arith, bad-length s)

zero_bad : (s : Bytes) → bad s ≤ 0 → s ≡ map zeroed s
zero_bad [] h = refl
zero_bad (c ∷ s) h = ground (arith, zero_bad s)

zero_loop-some :
    (fuel x i : ℕ) (s : Bytes)
    → is_x_z x ≡ true
    → find x s ≡ some i
    → bad s ≤ suc fuel
    → ((t : Bytes) → bad t ≤ fuel → zero_loop fuel t ≡ map zeroed t)
    → zero_loop fuel (set s i b'0') ≡ map zeroed s
zero_loop-some fuel x i s h e le ih =
    let (fewer, same) = bad-set x s i h e in ih (set s i b'0') (omega arith) ∙ same

zero_loop_x :
    (fuel i : ℕ) (s : Bytes)
    → find b'x' s ≡ some i
    → zero_loop (suc fuel) s ≡ zero_loop fuel (set s i b'0')
unfolding zero_loop
zero_loop_x fuel i s e = rw (e, zero_loop) refl

zero_loop_z :
    (fuel i : ℕ) (s : Bytes)
    → find b'x' s ≡ none
    → find b'z' s ≡ some i
    → zero_loop (suc fuel) s ≡ zero_loop fuel (set s i b'0')
unfolding zero_loop
zero_loop_z fuel i s e k = rw (e, k, zero_loop) refl

zero_loop_end :
    (fuel : ℕ) (s : Bytes) → find b'x' s ≡ none → find b'z' s ≡ none → zero_loop (suc fuel) s ≡ s
unfolding zero_loop
zero_loop_end fuel s e k = rw (e, k, zero_loop) refl

zero_loop-map : (fuel : ℕ) (s : Bytes) → bad s ≤ fuel → zero_loop fuel s ≡ map zeroed s
unfolding zero_loop
zero_loop-map zero s h = zero_bad s h
zero_loop-map (suc fuel) s h = elim (Option-cases (find b'x' s)) [
  | inr (i, e) ↦
      zero_loop_x fuel i s e ∙ zero_loop-some fuel b'x' i s refl e h (λ t k. zero_loop-map fuel t k)
  | inl e ↦ elim (Option-cases (find b'z' s)) [
    | inr (i, k) ↦
        zero_loop_z fuel i s e k
        ∙ zero_loop-some fuel b'z' i s refl k h (λ t k. zero_loop-map fuel t k)
    | inl k ↦ zero_loop_end fuel s e k ∙ sym (none_bad s e k)
  ]
]

-- The loop ends with every `x` and every `z` replaced by a zero, and the rest as it was.
pub replace_x_z_lem : (str : Bytes) → replace_x_z str ≡ map zeroed str
unfolding replace_x_z
replace_x_z_lem str = zero_loop-map (length str) str (bad-length str)

digit_zeroed : (c : ℕ) → IsDigit 10 c → zeroed c ≡ c
unfolding digit_value
digit_zeroed c h = ground arith

number-zeroed : (s : Bytes) → All (IsDigit 10) s → map zeroed s ≡ s
number-zeroed [] h = refl
number-zeroed (c ∷ s) (h, hs) = rw (digit_zeroed c h, number-zeroed s hs) refl

leading_zero : (c : ℕ) → IsDigit 10 b'0'
unfolding digit_value
leading_zero c = (refl, omega arith)

octal_text :
    (value : Bytes)
    → All (IsDigit 10) value
    → number 10 0 value ≤ int_max
    → atoi (b'0' ∷ replace_x_z value) ≡ ok (pos (number 10 0 value))
octal_text value digits fits =
    let same = number-replicate 10 1 value in
    ap (λ s. atoi (b'0' ∷ s)) (replace_x_z_lem value ∙ number-zeroed value digits)
    ∙ atoi-number (b'0' ∷ value) (cc) (leading_zero 0, digits) (omega (arith, same))
    ∙ ap (λ n. ok (pos n)) same

module _ {R : Type 0} (default_bit : BitConstant) (read_hex : Bytes → ℤ) where
  -- A number without a size and a sign whose digits are decimal ones and fit an `int` has the same
  -- value with the letters `d` and `o`: the octal number, too, is read in base ten.
  pub parse_based_number_octal :
      (value : Bytes)
      → value ≢ []
      → All (IsDigit 10) value
      → number 10 0 value ≤ int_max
      → (parse_based_number {R = R} default_bit read_hex
            (record { value = value; type = b'd'; sign = false })
          ≡ ok (some (int_value (pos (number 10 0 value)))))
        × (parse_based_number {R = R} default_bit read_hex
              (record { value = value; type = b'o'; sign = false })
            ≡ ok (some (int_value (pos (number 10 0 value)))))
  unfolding parse_based_number
  parse_based_number_octal value some_digit digits fits =
      (rw (atoi-number value some_digit digits fits) refl, rw (octal_text value digits fits) refl)
