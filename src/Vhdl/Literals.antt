-- ===== src/Vhdl/Literals.antt =====
-- src/vhdl2hif/VhdlParser.cpp: the literals of VHDL. `R` is `double`; `atof`, the conversion of an
-- `int` to `double` and `static_cast<int>(pow(x, y))` are those of the C library.
pub mod Based
pub mod Strings
use hif_frontend.Common.{
  ℕ, Bool, true, false, ◌||◌, Option, none, some, List, [], ◌∷◌, arith, Bytes, codes, text_eq, ◌==◌,
  if◌then◌else◌,
}
use hif_frontend.Common.Int.{ℤ, pos}
use hif_frontend.Common.Outcome.{Result, ok, err, fatal, undefined, ◌>>=◌, ◌>>◌, message_assert}
use hif_frontend.Common.Text.{find, find_last, substr_before, substr_after, atoi}
use hif_frontend.Hif.{
  Value, bit_value, bitvector_value, int_value, real_value, char_value, string_value, time_value,
  identifier, BitConstant, bit_zero, bit_one, bit_x, bit_z, bit_u, bit_l, bit_w, bit_h,
  bit_dontcare, TimeUnit, time_fs, time_ps, time_ns, time_us, time_ms, time_sec, time_min, time_hr,
}
use hif_frontend.Vhdl.Bits.{to_bits, bit2decimal}
use hif_frontend.Vhdl.Text.{erase_all}

-- `(exp.empty()) ? 1 : atoi(exp.c_str())`.
abbrev pub exponent_of : Bytes → Result ℤ
exponent_of [] = ok (pos 1)
exponent_of (c ∷ s) = atoi (c ∷ s)

module _ {R : Type 0} (int_pow : ℤ → ℤ → Result ℤ) where
  -- `parse_BasedLiteral` once the three parts of the literal are cut out.
  based_value : (base value exp : Bytes) → Result (Value R)
  based_value base value exp = do
    b ← atoi base
    exponent ← exponent_of exp
    result ← to_bits value b
    int_v ← bit2decimal result
    power ← int_pow int_v exponent
    ok (int_value power)

  pub parse_based_literal : Bytes → Result (Value R)
  unfolding based_value
  parse_based_literal base_lit =
      let base = substr_before (find b'#' base_lit) base_lit in
      let tail = substr_after (find b'#' base_lit) base_lit in
      let value = substr_before (find b'#' tail) tail in
      let exp = substr_after (find_last (λ c. c == b'#' || c == b'E') base_lit) base_lit in
      based_value base value exp

-- `c[1]` of a C string: the byte behind the first one, which may be the terminator.
abbrev second_char : Bytes → Result ℕ
second_char [] = err undefined
second_char (a ∷ []) = ok 0
second_char (a ∷ b ∷ s) = ok b

pub time_unit : Bytes → Result TimeUnit
unfolding text_eq
time_unit str =
    if text_eq str (codes "fs")
    then ok time_fs
    else if text_eq str (codes "ps")
    then ok time_ps
    else if text_eq str (codes "ns")
    then ok time_ns
    else if text_eq str (codes "us")
    then ok time_us
    else if text_eq str (codes "ms")
    then ok time_ms
    else if text_eq str (codes "sec")
    then ok time_sec
    else if text_eq str (codes "min")
    then ok time_min
    else if text_eq str (codes "hr")
    then ok time_hr
    else err (fatal "Not supported unit ")

module _ {R : Type 0} where
  pub parse_bit_string_literal : Bytes → Value R
  unfolding erase_all
  parse_bit_string_literal name =
      bitvector_value (erase_all b'_' (erase_all b'b' (erase_all b'B' (erase_all b'"' name))))

  pub parse_character_literal : Bytes → Result (Value R)
  unfolding text_eq
  parse_character_literal c =
      if text_eq c (codes "'1'")
      then ok (bit_value bit_one)
      else if text_eq c (codes "'0'")
      then ok (bit_value bit_zero)
      else if text_eq c (codes "'-'")
      then ok (bit_value bit_dontcare)
      else if text_eq c (codes "'X'") || text_eq c (codes "'x'")
      then ok (bit_value bit_x)
      else if text_eq c (codes "'Z'") || text_eq c (codes "'z'")
      then ok (bit_value bit_z)
      else if text_eq c (codes "'L'") || text_eq c (codes "'l'")
      then ok (bit_value bit_l)
      else if text_eq c (codes "'H'") || text_eq c (codes "'h'")
      then ok (bit_value bit_h)
      else if text_eq c (codes "'W'") || text_eq c (codes "'w'")
      then ok (bit_value bit_w)
      else if text_eq c (codes "'U'") || text_eq c (codes "'u'")
      then ok (bit_value bit_u)
      else (do ch ← second_char c; ok (char_value ch))

  pub parser_decimal_literal : (Bytes → R) → Bytes → Result (Value R)
  parser_decimal_literal atof abstract_lit = elim (find b'.' abstract_lit) [
    | some _ ↦ ok (real_value (atof abstract_lit))
    | none ↦ (do n ← atoi abstract_lit; ok (int_value n))
  ]

  -- `dynamic_cast<Identifier *>(unit)`.
  abbrev unit_name : Value R → Result Bytes
  unit_name (identifier name) = ok name
  unit_name _ = err (fatal "Unexpected physical unit")

  abbrev physical_value : (ℤ → R) → Value R → Result R
  physical_value to_double (real_value x) = ok x
  physical_value to_double (int_value n) = ok (to_double n)
  physical_value to_double _ = err (fatal "Unexpected physical value")

  pub parse_numeric_literal : (ℤ → R) → Value R → Value R → Result (Value R)
  parse_numeric_literal to_double num unit = do
    str ← unit_name unit
    x ← physical_value to_double num
    tu ← time_unit str
    ok (time_value x tu)

-- The cases of the `switch` in `parse_StringLiteral`.
abbrev pub is_bit_char : ℕ → Bool
is_bit_char c =
    c == b'0'
    || c == b'1'
    || c == b'u'
    || c == b'U'
    || c == b'x'
    || c == b'X'
    || c == b'z'
    || c == b'Z'
    || c == b'w'
    || c == b'W'
    || c == b'l'
    || c == b'L'
    || c == b'h'
    || c == b'H'
    || c == b'-'

-- The loop of `parse_StringLiteral`: it sets `is_bv` in each round, and stops when that is false.
pub bit_string_loop : Bool → Bytes → Bool
bit_string_loop is_bv [] = is_bv
bit_string_loop is_bv (c ∷ s) = if is_bit_char c then bit_string_loop true s else false

module _ {R : Type 0} where
  pub parse_string_literal : Bytes → Value R
  unfolding bit_string_loop erase_all
  parse_string_literal string_lit =
      let name = erase_all b'"' string_lit in
      if bit_string_loop false name then bitvector_value name else string_value name
