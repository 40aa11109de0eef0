-- ===== src/Verilog/Binary/Value.antt =====
-- What the bits of `convertToBinary` stand for.
use mathlib.Core.List.{reverse, reverse-append}
use native.Mathlib.Nat.{pow-suc, pow-zero, mod-one, mod-lt, div-add-mod', one-le-pow}
use hif_frontend.Common.{
  ℕ, zero, suc, ◌+◌, ◌*◌, ◌/◌, ◌%◌, ◌^◌, ◌<◌, ◌≡◌, refl, sym, ap, ◌∙◌, [], ◌∷◌, ◌++◌, append-nil,
  append_assoc, arith, Bytes, ◌==◌, if◌then◌else◌, length, length-append, All, All-append,
}
use hif_frontend.Common.Int.{pos}
use hif_frontend.Common.Digits.{digit_value, IsDigit, number, number-append, mod_unique}
use hif_frontend.Verilog.Binary.{binary_loop, convert_to_binary}

-- The bits of a number, the highest first.
bits_of : ℕ → ℕ → Bytes
bits_of zero n = []
bits_of (suc k) n = bits_of k (n / 2) ++ (b'0' + n % 2) ∷ []

bit_char : (n : ℕ) → (if n % 2 == 0 then b'0' ∷ [] else b'1' ∷ []) ≡ (b'0' + n % 2) ∷ []
bit_char n = ground arith

loop-bits_of :
    (k n : ℕ) (acc : Bytes) → reverse (binary_loop k (pos n) acc) ≡ bits_of k n ++ reverse acc
unfolding binary_loop bits_of
loop-bits_of zero n acc = refl
loop-bits_of (suc k) n acc =
    let b = b'0' + n % 2 in
    rw (bit_char n) (
      loop-bits_of k (n / 2) (acc ++ b ∷ [])
      ∙ ap (λ (t : Bytes). bits_of k (n / 2) ++ t) (reverse-append acc (b ∷ []))
      ∙ sym (append_assoc (bits_of k (n / 2)) (b ∷ []) (reverse acc)))

length-bits_of : (k n : ℕ) → length (bits_of k n) ≡ k
unfolding bits_of
length-bits_of zero n = refl
length-bits_of (suc k) n =
    omega (arith, length-bits_of k (n / 2), length-append (bits_of k (n / 2)) ((b'0' + n % 2) ∷ []))

bit_digit : (n : ℕ) → IsDigit 2 (b'0' + n % 2)
unfolding digit_value
bit_digit n = (ground arith, ground arith)

bit_value : (n : ℕ) → digit_value (b'0' + n % 2) ≡ n % 2
unfolding digit_value
bit_value n = ground arith

bits_of-IsDigit : (k n : ℕ) → All (IsDigit 2) (bits_of k n)
unfolding bits_of
bits_of-IsDigit zero n = tt
bits_of-IsDigit (suc k) n =
    All-append (IsDigit 2) (bits_of k (n / 2)) _ (bits_of-IsDigit k (n / 2)) (bit_digit n, tt)

double_out : (q m : ℕ) → q * (m * 2) ≡ q * m * 2
double_out q m = grind arith

-- The last bit of a remainder.
mod_step : (n m : ℕ) → 0 < m → n / 2 % m * 2 + n % 2 ≡ n % (m * 2)
mod_step n m h =
    let q : ℕ = n / 2 / m in
    let r : ℕ = n / 2 % m in
    let below : r < m = mod-lt (n / 2) h in
    let e : q * m + r ≡ n / 2 = div-add-mod' (n / 2) m in
    let whole : q * (m * 2) + (r * 2 + n % 2) ≡ n = omega (arith, e, double_out q m) in
    sym
      (ap (λ (x : ℕ). x % (m * 2)) (sym whole) ∙ mod_unique q (r * 2 + n % 2) (m * 2) (omega arith))

number-bits_of : (k n : ℕ) → number 2 0 (bits_of k n) ≡ n % 2 ^ k
unfolding bits_of
number-bits_of zero n = rw pow-zero (sym (mod-one n))
number-bits_of (suc k) n =
    rw
      (
        number-append 2 (bits_of k (n / 2)) ((b'0' + n % 2) ∷ []) 0,
        number-bits_of k (n / 2),
        bit_value n,
        pow-suc 2 k,
      )
      (mod_step n (2 ^ k) (one-le-pow k 2 (omega arith)))

-- For a number that is not negative `convertToBinary` returns as many bits as asked for, and they
-- spell the number modulo two to that many bits.
pub convert_to_binary_lem :
    (n num_bits : ℕ)
    → let bits = convert_to_binary (pos n) num_bits in
      (length bits ≡ num_bits) × All (IsDigit 2) bits × (number 2 0 bits ≡ n % 2 ^ num_bits)
unfolding convert_to_binary
convert_to_binary_lem n w =
    let e = loop-bits_of w n [] ∙ append-nil (bits_of w n) in
    rw e (length-bits_of w n, bits_of-IsDigit w n, number-bits_of w n)
