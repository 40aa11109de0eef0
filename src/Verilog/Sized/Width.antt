-- ===== src/Verilog/Sized/Width.antt =====
-- A sized number has as many bits as its size says.
use hif_frontend.Common.{
  ℕ, ◌-◌, ◌<◌, ◌≡◌, ◌≢◌, refl, sym, ◌∙◌, inl, inr, Bool, true, false, [], ◌∷◌, arith, Bytes, ltb,
  if◌then◌else◌, length, length-append, length-replicate, length-drop, replicate, Bool-cases,
}
use hif_frontend.Common.Int.{pos}
use hif_frontend.Common.Outcome.{ok, err, fatal, ◌>>=◌, >>=-eq-ok}
use hif_frontend.Common.Text.{atoi}
use hif_frontend.Hif.{Value, bitvector_value}
use hif_frontend.Verilog.Numbers.{Number}
use hif_frontend.Verilog.Sized.{
  resize, pad_char, digit_text, sized_value, single_bit, parse_dec_based_number,
}

pub length-resize : (w : ℕ) (sign : Bool) (s : Bytes) → s ≢ [] → length (resize w sign s) ≡ w
unfolding resize
length-resize w sign [] h = absurd (h refl)
length-resize w sign (c ∷ s) h =
    let tmp = c ∷ s in
    elim (Bool-cases (ltb (length tmp) w)) [
      | inl e ↦ rw e (
          omega (
            arith,
            length-append (replicate (w - length tmp) (pad_char c sign)) tmp,
            length-replicate (w - length tmp) (pad_char c sign),
            below (length tmp) w e,
          ))
      | inr e ↦ rw e (length-drop (length tmp - w) tmp ∙ above (length tmp) w e)
    ]
  where
    below : (a b : ℕ) → ltb a b ≡ true → a < b
    below a b h = ground arith

    above : (a b : ℕ) → ltb a b ≡ false → a - (a - b) ≡ b
    above a b h = ground arith

module _ {R : Type 0} where
  pub sized_value_wide :
      (result : Bytes)
      → 1 < length result
      → sized_value {R = R} result ≡ ok (bitvector_value result)
  unfolding sized_value
  sized_value_wide result h = ground arith

  -- What is left of the routine when the size is known.
  pub sized :
      (dec_number based_number : Number) (w : ℕ)
      → atoi dec_number.value ≡ ok (pos w)
      → parse_dec_based_number {R = R} dec_number based_number ≡ (
          if based_number.sign
          then err (fatal "Signed option is not supported.")
          else (do tmp ← digit_text based_number w; sized_value (resize w based_number.sign tmp)))
  unfolding parse_dec_based_number
  sized dec_number based_number w e = rw e

  wide :
      (w : ℕ) (sign : Bool) (tmp : Bytes) (v : Value R)
      → 1 < w
      → sized_value (resize w sign tmp) ≡ ok v
      → (r : Bytes) × (v ≡ bitvector_value r) × (length r ≡ w)
  wide w sign [] v h e = absurd (no_bit v e)
    where
      no_bit : (v : Value R) → sized_value {R = R} (resize w sign []) ≡ ok v → ⊥
      no_bit v e = unfold sized_value resize single_bit in cc
  wide w sign (c ∷ s) v h e =
      let r = resize w sign (c ∷ s) in
      let size = length-resize w sign (c ∷ s) (cc) in
      (r, cc (sized_value_wide r (omega arith)), size)

  -- A size of two bits or more: whatever the format and the digits (`x` and `z` included), a result
  -- is a bit vector of exactly that many bits.
  pub parse_dec_based_number_width :
      (dec_number based_number : Number) (w : ℕ) (v : Value R)
      → atoi dec_number.value ≡ ok (pos w)
      → 1 < w
      → parse_dec_based_number dec_number based_number ≡ ok v
      → (r : Bytes) × (v ≡ bitvector_value r) × (length r ≡ w)
  parse_dec_based_number_width dec_number based_number w v size h e =
      go based_number.sign (sym (sized dec_number based_number w size) ∙ e)
    where
      go :
          (sign : Bool)
          → (if sign then err (fatal "Signed option is not supported.") else (do
            tmp ← digit_text based_number w
            sized_value (resize w based_number.sign tmp)))
            ≡ ok v
          → (r : Bytes) × (v ≡ bitvector_value r) × (length r ≡ w)
      go true e = absurd (cc)
      go false e =
          let (tmp, _, e') =
            >>=-eq-ok (digit_text based_number w)
              (λ tmp. sized_value (resize w based_number.sign tmp)) e in
          wide w based_number.sign tmp v h e'
