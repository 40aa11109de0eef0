-- ===== src/Common/Digits.antt =====
-- Texts of digits and the numbers that they spell: the independent description of literals.
use native.Mathlib.Nat.{pow-suc, pow-zero, mod-eq_of_lt, mul-add-mod_self_right}
use hif_frontend.Common.{
  ℕ, zero, suc, ◌+◌, ◌-◌, ◌*◌, ◌%◌, ◌^◌, ◌≤◌, ◌<◌, ◌≡◌, ◌≢◌, refl, ap, ◌∙◌, Bool, true, ◌&&◌, ◌||◌,
  [], ◌∷◌, ◌++◌, arith, Bytes, leb, if◌then◌else◌, length, replicate, All,
}
use hif_frontend.Common.Int.{pos}
use hif_frontend.Common.Outcome.{ok, checked, int_max}
use hif_frontend.Common.Text.{is_digit, atoi, atoi_digit, leading_value}

-- The value of a digit, to base 16.
unfoldable pub digit_value : ℕ → ℕ
digit_value c = if leb c b'9' then c - b'0' else if leb c b'F' then c - b'A' + 10 else c - b'a' + 10

abbrev pub is_hex : ℕ → Bool
is_hex c = is_digit c || leb b'A' c && leb c b'F' || leb b'a' c && leb c b'f'

-- `c` is a digit of the base.
abbrev pub IsDigit : ℕ → ℕ → Type 0
IsDigit base c = (is_hex c ≡ true) × (digit_value c < base)

-- The number that digits spell behind `n`.
abbrev pub number : ℕ → ℕ → Bytes → ℕ
number base n [] = n
number base n (c ∷ s) = number base (n * base + digit_value c) s

pub le-number : (b : ℕ) (s : Bytes) (n : ℕ) → n ≤ number (suc b) n s
le-number b [] n = omega arith
le-number b (c ∷ s) n = grind (arith, le-number b s (n * suc b + digit_value c))

distribute : (n b d p : ℕ) → (n * b + d) * p ≡ n * (p * b) + d * p
distribute n b d p = grind arith

below_next : (d b r p : ℕ) → d < b → r < p → d * p + r < p * b
below_next d b r p h k = grind arith

module _ (base : ℕ) where
  pub number-append :
      (s t : Bytes) (n : ℕ) → number base n (s ++ t) ≡ number base (number base n s) t
  number-append [] t n = refl
  number-append (c ∷ s) t n = number-append s t (n * base + digit_value c)

  -- The number read so far counts for as many places as digits follow.
  pub number_split : (s : Bytes) (n : ℕ) → number base n s ≡ n * base ^ length s + number base 0 s
  number_split [] n = rw (pow-zero base) (omega arith)
  number_split (c ∷ s) n =
      let d = digit_value c in
      let p : ℕ = base ^ length s in
      rw (pow-suc base (length s)) (
        omega (
          arith,
          number_split s (n * base + d),
          number_split s (0 * base + d),
          distribute n base d p,
          distribute 0 base d p,
        ))

  pub number-lt : (s : Bytes) → All (IsDigit base) s → number base 0 s < base ^ length s
  number-lt [] h = rw (pow-zero base) (omega arith)
  number-lt (c ∷ s) ((_, small), hs) =
      let d = digit_value c in
      let p : ℕ = base ^ length s in
      let below : d * p + number base 0 s < p * base =
        below_next d base (number base 0 s) p small (number-lt s hs) in
      rw (pow-suc base (length s))
        (omega (arith, number_split s (0 * base + d), distribute 0 base d p))

leading_zero : (base : ℕ) (s : Bytes) → number base 0 (b'0' ∷ s) ≡ number base 0 s
unfolding digit_value
leading_zero base s = ap (λ (x : ℕ). number base x s) (omega arith)

pub number-replicate :
    (base k : ℕ) (s : Bytes) → number base 0 (replicate k b'0' ++ s) ≡ number base 0 s
number-replicate base zero s = refl
number-replicate base (suc k) s =
    leading_zero base (replicate k b'0' ++ s) ∙ number-replicate base k s

-- A remainder is known by its bound.
pub mod_unique : (q r m : ℕ) → r < m → (q * m + r) % m ≡ r
mod_unique q r m h = mul-add-mod_self_right q m r ∙ mod-eq_of_lt h

-- `atoi` of a text of decimal digits.
leading-number : (s : Bytes) (n : ℕ) → All (IsDigit 10) s → leading_value n s ≡ number 10 n s
leading-number [] n h = unfold leading_value in refl
leading-number (c ∷ s) n (h, hs) = step c s n h ∙ leading-number s (n * 10 + digit_value c) hs
  where
    step :
        (c : ℕ) (s : Bytes) (n : ℕ)
        → IsDigit 10 c
        → leading_value n (c ∷ s) ≡ leading_value (n * 10 + digit_value c) s
    step c s n h = unfold leading_value digit_value in ground arith

decimal_digit : (c : ℕ) → IsDigit 10 c → is_digit c ≡ true
unfolding digit_value
decimal_digit c h = ground arith

pub atoi-number :
    (s : Bytes)
    → s ≢ []
    → All (IsDigit 10) s
    → number 10 0 s ≤ int_max
    → atoi s ≡ ok (pos (number 10 0 s))
atoi-number [] n h le = absurd (n refl)
atoi-number (c ∷ s) n h le =
    atoi_digit c s (decimal_digit c h.0)
    ∙ ap (λ (x : ℕ). checked (pos x)) (leading-number (c ∷ s) 0 h)
    ∙ fits (number 10 0 (c ∷ s)) le
  where
    fits : (n : ℕ) → n ≤ int_max → checked (pos n) ≡ ok (pos n)
    fits n h = unfold checked in ground arith
