-- ===== src/Verilog/Sized/Bits.antt =====
-- The bits that `parse_DecBasedNumber` makes of the digits, before they are brought to the size.
use native.Mathlib.Nat.{mod-mod}
use hif_frontend.Common.{
  ℕ, suc, ◌+◌, ◌*◌, ◌%◌, ◌^◌, ◌≤◌, ◌<◌, ◌≡◌, ◌≢◌, refl, sym, ap, ◌∙◌, Bool, true, false, ◌||◌, not,
  [], ◌∷◌, ◌++◌, append-nil, append_assoc, arith, Bytes, length, length-append, All, All-append,
  all_below, all_below_sound, text_eq, text_eq-eq,
}
use hif_frontend.Common.Int.{pos}
use hif_frontend.Common.Outcome.{Result, ok, err, int_max}
use hif_frontend.Common.Text.{atoi}
use hif_frontend.Common.Digits.{
  digit_value, is_hex, IsDigit, number, number-append, number_split, atoi-number,
}
use hif_frontend.Verilog.Binary.{convert_to_binary, convert_text_to_binary}
use hif_frontend.Verilog.Binary.Value.{convert_to_binary_lem}
use hif_frontend.Verilog.Numbers.{Number}
use hif_frontend.Verilog.Sized.{octal_bits, hex_bits, octal_loop, hex_loop, digit_text, to_rounds}

abbrev spread : (ℕ → Bytes) → Bytes → Bytes
spread g [] = []
spread g (c ∷ s) = g c ++ spread g s

octal_loop-spread : (s acc : Bytes) → octal_loop s acc ≡ acc ++ spread octal_bits s
unfolding octal_loop
octal_loop-spread [] acc = sym (append-nil acc)
octal_loop-spread (c ∷ s) acc = simp (octal_loop-spread s, append_assoc)

-- A hexadecimal digit as four bits.
abbrev four_bits : ℕ → Bytes
four_bits c = convert_to_binary (pos (digit_value c)) 4

abbrev is_ok : Result Bytes → Bytes → Bool
is_ok (ok s) t = text_eq s t
is_ok (err e) t = false

is_ok_sound : (m : Result Bytes) (t : Bytes) → is_ok m t ≡ true → m ≡ ok t
is_ok_sound (ok s) t h = ap ok (text_eq-eq s t h)
is_ok_sound (err e) t h = cc

hex_table : all_below 128 (λ c. not (is_hex c) || is_ok (hex_bits c) (four_bits c)) ≡ true
unfolding all_below hex_bits digit_value text_eq convert_text_to_binary atoi
hex_table = refl

hex_bits-four_bits : (c : ℕ) → is_hex c ≡ true → hex_bits c ≡ ok (four_bits c)
hex_bits-four_bits c h =
    is_ok_sound (hex_bits c) (four_bits c)
      (ground (arith, all_below_sound 128 _ c hex_table (ground arith)))

hex_loop-spread :
    (s acc : Bytes) → All (IsDigit 16) s → hex_loop s acc ≡ ok (acc ++ spread four_bits s)
hex_loop-spread [] acc h = unfold hex_loop in ap ok (sym (append-nil acc))
hex_loop-spread (c ∷ s) acc (h, hs) =
    step c s acc h.0
    ∙ hex_loop-spread s (acc ++ four_bits c) hs
    ∙ ap ok (append_assoc acc (four_bits c) (spread four_bits s))
  where
    step :
        (c : ℕ) (s acc : Bytes)
        → is_hex c ≡ true
        → hex_loop (c ∷ s) acc ≡ hex_loop s (acc ++ four_bits c)
    step c s acc h = unfold hex_loop in rw (hex_bits-four_bits c h)

-- Each digit as a fixed count of bits that spell its value.
pub record Spells (base bits : ℕ) (g : ℕ → Bytes) : Type 0 where
  pub base_lem : 2 ^ bits ≡ base
  pub size : (c : ℕ) → IsDigit base c → length (g c) ≡ bits
  pub binary : (c : ℕ) → IsDigit base c → All (IsDigit 2) (g c)
  pub value : (c : ℕ) → IsDigit base c → number 2 0 (g c) ≡ digit_value c

module _ {base bits : ℕ} {g : ℕ → Bytes} (spells : Spells base bits g) where
  open spells use {base_lem, size, binary, value}

  spread-IsDigit : (s : Bytes) → All (IsDigit base) s → All (IsDigit 2) (spread g s)
  spread-IsDigit [] h = tt
  spread-IsDigit (c ∷ s) (h, hs) =
      All-append (IsDigit 2) (g c) (spread g s) (binary c h) (spread-IsDigit s hs)

  digit_step : (c n : ℕ) → IsDigit base c → number 2 n (g c) ≡ n * base + digit_value c
  digit_step c n h = number_split 2 (g c) n ∙ rw (size c h, value c h, base_lem)

  number-spread :
      (s : Bytes) (n : ℕ) → All (IsDigit base) s → number 2 n (spread g s) ≡ number base n s
  number-spread [] n h = refl
  number-spread (c ∷ s) n (h, hs) =
      number-append 2 (g c) (spread g s) n
      ∙ ap (λ (x : ℕ). number 2 x (spread g s)) (digit_step c n h)
      ∙ number-spread s (n * base + digit_value c) hs

octal_plain : (c : ℕ) → IsDigit 8 c → octal_bits c ≡ convert_to_binary (pos c) 3
unfolding octal_bits
octal_plain c h = ground arith

octal_value : (c : ℕ) → IsDigit 8 c → c % 2 ^ 3 ≡ digit_value c
unfolding digit_value
octal_value c h = ground arith

octal_Spells : Spells 8 3 octal_bits
octal_Spells = record {
  base_lem = refl;
  size = λ c h. rw (octal_plain c h) (convert_to_binary_lem c 3).0;
  binary = λ c h. rw (octal_plain c h) (convert_to_binary_lem c 3).1;
  value = λ c h. rw (octal_plain c h) ((convert_to_binary_lem c 3).2 ∙ octal_value c h);
}

hex_Spells : Spells 16 4 four_bits
hex_Spells = record {
  base_lem = refl;
  size = λ c h. (convert_to_binary_lem (digit_value c) 4).0;
  binary = λ c h. (convert_to_binary_lem (digit_value c) 4).1;
  value = λ c h.
      let small : digit_value c < 16 = h.1 in
      (convert_to_binary_lem (digit_value c) 4).2 ∙ omega arith;
}

-- A format, by its letter, and its base.
pub data Format : ℕ → ℕ → Type 0 where
  decimal : Format b'd' 10
  binary : Format b'b' 2
  octal : Format b'o' 8
  hexadecimal : Format b'h' 16

-- A decimal number goes through an `int`.
abbrev pub Readable : {letter base : ℕ} → Format letter base → Bytes → Type 0
Readable decimal value = number 10 0 value ≤ int_max
Readable binary value = Unit
Readable octal value = Unit
Readable hexadecimal value = Unit

module _ {base bits : ℕ} {g : ℕ → Bytes} (spells : Spells base (suc bits) g) where
  spread-ne-nil : (s : Bytes) → All (IsDigit base) s → s ≢ [] → spread g s ≢ []
  spread-ne-nil [] h n = absurd (n refl)
  spread-ne-nil (c ∷ s) (h, hs) n = λ e.
      let none_left : length (g c ++ spread g s) ≡ 0 = ap (λ (t : Bytes). length t) e in
      omega (arith, length-append (g c) (spread g s), spells.size c h)

-- What `digit_text` returns for digits of the format.
abbrev pub Digits : ℕ → Number → ℕ → Type 0
Digits base number' w =
    (tmp : Bytes) × (digit_text number' w ≡ ok tmp)
    × All (IsDigit 2) tmp
    × (number 2 0 tmp % 2 ^ w ≡ number base 0 number'.value % 2 ^ w)
    × (tmp ≢ [])

length-ne-nil : (s : Bytes) → 0 < length s → s ≢ []
length-ne-nil s h e = let none_left : length s ≡ 0 = ap (λ (t : Bytes). length t) e in omega arith

module _ (b : Number) (w : ℕ) where
  decimal_text : b.type ≡ b'd' → digit_text b w ≡ convert_text_to_binary b.value (to_rounds w)
  unfolding digit_text
  decimal_text h = rw h

  binary_text : b.type ≡ b'b' → digit_text b w ≡ ok b.value
  unfolding digit_text
  binary_text h = rw h

  octal_text : b.type ≡ b'o' → digit_text b w ≡ ok (octal_loop b.value [])
  unfolding digit_text
  octal_text h = rw h

  hex_text : b.type ≡ b'h' → digit_text b w ≡ hex_loop b.value []
  unfolding digit_text
  hex_text h = rw h

convert_text :
    (s : Bytes) (w n : ℕ)
    → w ≤ int_max
    → atoi s ≡ ok (pos n)
    → convert_text_to_binary s (to_rounds w) ≡ ok (convert_to_binary (pos n) w)
unfolding convert_text_to_binary
convert_text s w n le e = rw e (ground arith)

pub digit_text-Format :
    {letter base : ℕ} (f : Format letter base) (b : Number) (w : ℕ)
    → b.type ≡ letter
    → w ≤ int_max
    → All (IsDigit base) b.value
    → b.value ≢ []
    → Readable f b.value
    → 0 < w
    → Digits base b w
digit_text-Format decimal b w letter le digits n readable wide =
    let value = number 10 0 b.value in
    let (size, bits, e) = convert_to_binary_lem value w in
    (
      convert_to_binary (pos value) w,
      decimal_text b w letter
          ∙ convert_text b.value w value le (atoi-number b.value n digits readable),
      bits,
      ap (λ (x : ℕ). x % 2 ^ w) e ∙ mod-mod value (2 ^ w),
      length-ne-nil (convert_to_binary (pos value) w) (omega arith),
    )
digit_text-Format binary b w letter le digits n readable wide =
    (b.value, binary_text b w letter, digits, refl, n)
digit_text-Format octal b w letter le digits n readable wide = (
  spread octal_bits b.value,
  octal_text b w letter ∙ ap ok (octal_loop-spread b.value []),
  spread-IsDigit octal_Spells b.value digits,
  ap (λ (x : ℕ). x % 2 ^ w) (number-spread octal_Spells b.value 0 digits),
  spread-ne-nil octal_Spells b.value digits n,
)
digit_text-Format hexadecimal b w letter le digits n readable wide = (
  spread four_bits b.value,
  hex_text b w letter ∙ hex_loop-spread b.value [] digits,
  spread-IsDigit hex_Spells b.value digits,
  ap (λ (x : ℕ). x % 2 ^ w) (number-spread hex_Spells b.value 0 digits),
  spread-ne-nil hex_Spells b.value digits n,
)
