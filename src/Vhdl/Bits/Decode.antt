-- ===== src/Vhdl/Bits/Decode.antt =====
-- `toBits` followed by `bit2decimal`.
use hif_frontend.Common.{
  ℕ, zero, suc, ◌+◌, ◌*◌, ◌/◌, ◌%◌, ◌^◌, ◌≤◌, ◌<◌, ◌≡◌, ◌≢◌, inl, inr, refl, [], ◌∷◌, ◌++◌,
  append-nil, append_assoc, arith, Bytes, All, ◌∙◌, ap,
}
use hif_frontend.Common.Int.{ℤ, pos}
use mathlib.Core.List.{reverse, reverse-append}
use native.Mathlib.Nat.{pow-suc}
use hif_frontend.Common.Outcome.{ok, ◌>>=◌, int_max, checked, Result-cases}
use hif_frontend.Common.Text.{atoi, atoi_bounds}
use hif_frontend.Vhdl.Bits.{
  oct2bits, hex2bits, to_bits_loop, to_bits, bit2decimal_loop, bit2decimal, dec2bits_loop, dec2bits,
  shift_in,
}
use hif_frontend.Common.Digits.{digit_value, IsDigit, number, le-number}
use hif_frontend.Vhdl.Bits.Digits.{hex2bits-nibble, oct2bits-triple, loop_bit}

-- The bits of each character, one behind another.
abbrev spread : (ℕ → Bytes) → Bytes → Bytes
spread g [] = []
spread g (c ∷ s) = g c ++ spread g s

-- The loop of `toBits` in a base that has no case of its own for the whole text.
module _ (base : ℕ) (g : ℕ → Bytes)
    (round : (v s r : Bytes) (c : ℕ)
      → to_bits_loop (pos base) v (c ∷ s) r ≡ to_bits_loop (pos base) v s (r ++ g c)) where
  to_bits_loop-spread : (v s r : Bytes) → to_bits_loop (pos base) v s r ≡ ok (r ++ spread g s)
  to_bits_loop-spread v [] r = unfold to_bits_loop in rw append-nil
  to_bits_loop-spread v (c ∷ s) r =
      rw (round v s r c, to_bits_loop-spread v s (r ++ g c)) (rw append_assoc)

round_two :
    (v s r : Bytes) (c : ℕ)
    → to_bits_loop (pos 2) v (c ∷ s) r ≡ to_bits_loop (pos 2) v s (r ++ c ∷ [])
unfolding to_bits_loop
round_two v s r c = refl

round_eight :
    (v s r : Bytes) (c : ℕ)
    → to_bits_loop (pos 8) v (c ∷ s) r ≡ to_bits_loop (pos 8) v s (r ++ oct2bits c)
unfolding to_bits_loop
round_eight v s r c = refl

round_sixteen :
    (v s r : Bytes) (c : ℕ)
    → to_bits_loop (pos 16) v (c ∷ s) r ≡ to_bits_loop (pos 16) v s (r ++ hex2bits c)
unfolding to_bits_loop
round_sixteen v s r c = refl

-- What the bits of one digit do to the value read so far.
abbrev Shifts : ℕ → (ℕ → Bytes) → Type 0
Shifts b g =
    (n c : ℕ) (s : Bytes)
    → IsDigit (suc b) c
    → n * suc b + digit_value c ≤ int_max
    → bit2decimal_loop (pos n) (g c ++ s) ≡ bit2decimal_loop (pos (n * suc b + digit_value c)) s

loop-spread :
    (b : ℕ) (g : ℕ → Bytes)
    → Shifts b g
    → (n : ℕ) (s : Bytes) → All (IsDigit (suc b)) s
    → number (suc b) n s ≤ int_max
    → bit2decimal_loop (pos n) (spread g s) ≡ ok (pos (number (suc b) n s))
loop-spread b g shifts n [] h le = unfold bit2decimal_loop in refl
loop-spread b g shifts n (c ∷ s) (hc, hs) le =
    let m = n * suc b + digit_value c in
    shifts n c (spread g s) hc (omega (arith, le-number b s m)) ∙ loop-spread b g shifts m s hs le

binary_digit : (c : ℕ) → IsDigit 2 c → c ≡ b'0' + digit_value c
unfolding digit_value
binary_digit c h = ground arith

Shifts-two : Shifts 1 (λ c. c ∷ [])
Shifts-two n c s h le =
    let e = binary_digit c h in
    ap (λ (x : ℕ). bit2decimal_loop (pos n) (x ∷ s)) e
    ∙ loop_bit n (digit_value c) s (omega arith)
    ∙ ap (λ (x : ℕ). bit2decimal_loop (pos x) s) (omega arith)

Shifts-eight : Shifts 7 oct2bits
Shifts-eight n c s h le =
    let d = digit_value c in
    let m : ℕ = 2 * n + d / 4 % 2 in
    let k : ℕ = 2 * m + d / 2 % 2 in
    let small : d < 8 = h.1 in
    rw (oct2bits-triple c h) (
      loop_bit n (d / 4 % 2) _ (omega arith)
      ∙ loop_bit m (d / 2 % 2) _ (omega arith)
      ∙ loop_bit k (d % 2) _ (omega arith)
      ∙ ap (λ (x : ℕ). bit2decimal_loop (pos x) s) (omega arith))

Shifts-sixteen : Shifts 15 hex2bits
Shifts-sixteen n c s h le =
    let d = digit_value c in
    let m : ℕ = 2 * n + d / 8 % 2 in
    let k : ℕ = 2 * m + d / 4 % 2 in
    let l : ℕ = 2 * k + d / 2 % 2 in
    let small : d < 16 = h.1 in
    rw (hex2bits-nibble c h.0) (
      loop_bit n (d / 8 % 2) _ (omega arith)
      ∙ loop_bit m (d / 4 % 2) _ (omega arith)
      ∙ loop_bit k (d / 2 % 2) _ (omega arith)
      ∙ loop_bit l (d % 2) _ (omega arith)
      ∙ ap (λ (x : ℕ). bit2decimal_loop (pos x) s) (omega arith))

-- The bases that `toBits` turns digit by digit into bits.
pub data BitBase : ℕ → Type 0 where
  two : BitBase 2
  eight : BitBase 8
  sixteen : BitBase 16

-- In base 2, 8 or 16, for digits of the base whose number is at most 2147483647, the bits that
-- `toBits` returns are read by `bit2decimal` as the number that the digits spell.
pub bit2decimal-to_bits :
    {base : ℕ} (b : BitBase base) (value : Bytes)
    → All (IsDigit base) value
    → number base 0 value ≤ int_max
    → (do bits ← to_bits value (pos base); bit2decimal bits) ≡ ok (pos (number base 0 value))
unfolding to_bits bit2decimal
bit2decimal-to_bits two s h le =
    rw (to_bits_loop-spread 2 _ round_two s s []) (loop-spread 1 (λ c. c ∷ []) Shifts-two 0 s h le)
bit2decimal-to_bits eight s h le =
    rw (to_bits_loop-spread 8 _ round_eight s s []) (loop-spread 7 _ Shifts-eight 0 s h le)
bit2decimal-to_bits sixteen s h le =
    rw (to_bits_loop-spread 16 _ round_sixteen s s []) (loop-spread 15 _ Shifts-sixteen 0 s h le)

loop-append :
    (r : ℤ) (s t : Bytes)
    → bit2decimal_loop r (s ++ t) ≡ (do x ← bit2decimal_loop r s; bit2decimal_loop x t)
unfolding bit2decimal_loop
loop-append r [] t = refl
loop-append r (c ∷ s) t = elim (Result-cases (checked (shift_in r c))) [
  | inl (a, e) ↦ rw e (loop-append a s t)
  | inr (x, e) ↦ rw e refl
]

loop_end : (r : ℤ) → bit2decimal_loop r [] ≡ ok r
unfolding bit2decimal_loop
loop_end r = refl

dec2bits_loop_step :
    (fuel n : ℕ)
    → dec2bits_loop (suc fuel) (suc n) ≡ (b'0' + suc n % 2) ∷ dec2bits_loop fuel (suc n / 2)
unfolding dec2bits_loop
dec2bits_loop_step fuel n = ground arith

-- The loop of `dec2bits` puts the lowest bit first, and its fuel is enough.
loop-reverse :
    (fuel n : ℕ)
    → n < 2 ^ fuel
    → n ≤ int_max
    → bit2decimal_loop (pos 0) (reverse (dec2bits_loop fuel n)) ≡ ok (pos n)
loop-reverse zero n h le =
    unfold bit2decimal_loop dec2bits_loop in ap (λ (x : ℕ). ok (pos x)) (omega arith)
loop-reverse (suc fuel) zero h le = unfold bit2decimal_loop dec2bits_loop in refl
loop-reverse (suc fuel) (suc n) h le =
    let m : ℕ = suc n / 2 in
    let below : m < 2 ^ fuel = omega (arith, pow-suc 2 fuel) in
    rw (dec2bits_loop_step fuel n, reverse-append ((b'0' + suc n % 2) ∷ []) (dec2bits_loop fuel m))
      (rw (loop-append (pos 0) (reverse (dec2bits_loop fuel m)) ((b'0' + suc n % 2) ∷ [])) (
        rw (loop-reverse fuel m below (omega arith)) (
          loop_bit m (suc n % 2) [] (omega arith)
          ∙ loop_end _
          ∙ ap (λ (x : ℕ). ok (pos x)) (omega arith))))

-- In base 10 `toBits` returns the bits of `atoi value` with the lowest bit first: `bit2decimal`
-- reads the value from the reversed bits. (`value` is not empty and `atoi value` is `n`.)
pub bit2decimal-reverse-to_bits :
    (value : Bytes) (n : ℕ)
    → value ≢ []
    → atoi value ≡ ok (pos n)
    → (do bits ← to_bits value (pos 10); bit2decimal (reverse bits)) ≡ ok (pos n)
unfolding to_bits bit2decimal
bit2decimal-reverse-to_bits [] n h e = absurd (h refl)
bit2decimal-reverse-to_bits (c ∷ s) n h e =
    unfold to_bits_loop dec2bits in
    rw e (loop-reverse 32 n (omega (arith, atoi_bounds (c ∷ s) n e)) (atoi_bounds (c ∷ s) n e))
