-- ===== src/Vhdl/Literals/Based.antt =====
-- `parse_BasedLiteral`: the number that a based literal stands for.
use hif_frontend.Common.{
  ℕ, ◌≤◌, ◌≡◌, ◌≢◌, refl, sym, ◌∙◌, ap, Bool, ◌||◌, [], ◌∷◌, ◌++◌, append_assoc, arith, Bytes,
  codes, ◌==◌, All,
}
use hif_frontend.Common.Int.{ℤ, pos}
use hif_frontend.Common.Outcome.{Result, ok, >>=-eq-ok, ◌>>=◌, int_max}
use hif_frontend.Common.Text.{
  find_last, substr_after, before-append, after-append, after_last-append, atoi, Fails,
}
use hif_frontend.Hif.{int_value}
use hif_frontend.Vhdl.Bits.{to_bits, bit2decimal}
use hif_frontend.Common.Digits.{IsDigit, number}
use hif_frontend.Vhdl.Bits.Decode.{BitBase, two, eight, sixteen, bit2decimal-to_bits}
use hif_frontend.Vhdl.Literals.{parse_based_literal, based_value, exponent_of}

abbrev pub base_text : {base : ℕ} → BitBase base → Bytes
base_text two = codes "2"
base_text eight = codes "8"
base_text sixteen = codes "16"

-- The text `base#value#tail`.
abbrev pub based : {base : ℕ} → BitBase base → Bytes → Bytes → Bytes
based b value tail = base_text b ++ b'#' ∷ (value ++ b'#' ∷ tail)

abbrev pub ends_value : ℕ → Bool
ends_value c = c == b'#' || c == b'E'

base_text-Lacks : {base : ℕ} (b : BitBase base) → All (λ a. a ≢ b'#') (base_text b)
base_text-Lacks two = omega arith
base_text-Lacks eight = omega arith
base_text-Lacks sixteen = omega arith

base_text-atoi : {base : ℕ} (b : BitBase base) → atoi (base_text b) ≡ ok (pos base)
unfolding atoi
base_text-atoi two = refl
base_text-atoi eight = refl
base_text-atoi sixteen = refl

digits-Lacks : (base : ℕ) (s : Bytes) → All (IsDigit base) s → All (λ a. a ≢ b'#') s
digits-Lacks base [] h = tt
digits-Lacks base (c ∷ s) (h, hs) = (ground arith, digits-Lacks base s hs)

-- The three parts that are cut out of the literal.
parts :
    {R : Type 0} (int_pow : ℤ → ℤ → Result ℤ) {base : ℕ} (b : BitBase base) (value tail exp : Bytes)
    → All (IsDigit base) value
    → substr_after (find_last ends_value (based b value tail)) (based b value tail) ≡ exp
    → parse_based_literal {R = R} int_pow (based b value tail)
      ≡ based_value int_pow (base_text b) value exp
unfolding parse_based_literal
parts int_pow {base} b value tail exp digits cut =
    let rest = value ++ b'#' ∷ tail in
    let lacks = base_text-Lacks b in
    rw (
      before-append b'#' (base_text b) rest lacks,
      after-append b'#' (base_text b) rest lacks,
      before-append b'#' value tail (digits-Lacks base value digits),
      cut,
    )

value_of_parts :
    {R : Type 0} (int_pow : ℤ → ℤ → Result ℤ) {base : ℕ} (b : BitBase base) (value exp : Bytes)
    → All (IsDigit base) value
    → number base 0 value ≤ int_max
    → based_value {R = R} int_pow (base_text b) value exp
      ≡ (do e ← exponent_of exp; p ← int_pow (pos (number base 0 value)) e; ok (int_value p))
unfolding based_value
value_of_parts int_pow {base} b value exp digits fits =
    let (bits, e, e') =
      >>=-eq-ok (to_bits value (pos base)) bit2decimal (bit2decimal-to_bits b value digits fits) in
    rw (base_text-atoi b, e, e')

cut_plain :
    {base : ℕ} (b : BitBase base) (value : Bytes)
    → substr_after (find_last ends_value (based b value [])) (based b value []) ≡ []
cut_plain b value =
    rw (sym (append_assoc (base_text b) (b'#' ∷ value) (b'#' ∷ [])))
      (after_last-append ends_value (base_text b ++ b'#' ∷ value) [] b'#' refl tt)

cut_exponent :
    {base : ℕ} (b : BitBase base) (value k : Bytes)
    → All (Fails ends_value) k
    → substr_after (find_last ends_value (based b value (b'E' ∷ k))) (based b value (b'E' ∷ k)) ≡ k
cut_exponent b value k h =
    let front = base_text b ++ b'#' ∷ (value ++ b'#' ∷ []) in
    let e : based b value (b'E' ∷ k) ≡ front ++ b'E' ∷ k =
      ap (λ (t : Bytes). base_text b ++ b'#' ∷ t) (sym (append_assoc value (b'#' ∷ []) (b'E' ∷ k)))
      ∙ sym (append_assoc (base_text b) (b'#' ∷ (value ++ b'#' ∷ [])) (b'E' ∷ k)) in
    rw e (after_last-append ends_value front k b'E' refl h)

-- A literal `2#value#`, `8#value#` or `16#value#`, with digits of its base whose number is at most
-- 2147483647, is the `IntValue` of that number. `pow(x, 1)` is taken to be `x`.
pub parse_based_literal_lem :
    {R : Type 0} (int_pow : ℤ → ℤ → Result ℤ)
    → ((x : ℤ) → int_pow x (pos 1) ≡ ok x)
    → {base : ℕ} (b : BitBase base) (value : Bytes) → All (IsDigit base) value
    → number base 0 value ≤ int_max
    → parse_based_literal {R = R} int_pow (based b value [])
      ≡ ok (int_value (pos (number base 0 value)))
parse_based_literal_lem int_pow pow_one {base} b value digits fits =
    parts int_pow b value [] [] digits (cut_plain b value)
    ∙ value_of_parts int_pow b value [] digits fits
    ∙ rw (pow_one (pos (number base 0 value)))

-- With an exponent `E` and digits, the code raises the number itself to the exponent: the result is
-- `pow(number, exponent)`, and no power of the base takes part. (A base of 2, 8 or 16, digits of the
-- base whose number is at most 2147483647, an exponent text that is not empty and has no `#` or `E`.)
pub parse_based_literal_exponent :
    {R : Type 0} (int_pow : ℤ → ℤ → Result ℤ) {base : ℕ} (b : BitBase base) (value k : Bytes)
    → All (IsDigit base) value
    → number base 0 value ≤ int_max
    → k ≢ []
    → All (Fails ends_value) k
    → parse_based_literal {R = R} int_pow (based b value (b'E' ∷ k))
      ≡ (do e ← atoi k; p ← int_pow (pos (number base 0 value)) e; ok (int_value p))
parse_based_literal_exponent int_pow b value [] digits fits h plain = absurd (h refl)
parse_based_literal_exponent int_pow b value (c ∷ k) digits fits h plain =
    parts int_pow b value (b'E' ∷ c ∷ k) (c ∷ k) digits (cut_exponent b value (c ∷ k) plain)
    ∙ value_of_parts int_pow b value (c ∷ k) digits fits
