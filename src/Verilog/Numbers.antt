-- ===== src/Verilog/Numbers.antt =====
-- `parse_UnsignedNumber` to `parse_DecBasedNumber` of src/verilog2hif/verilog_parser.cpp.
pub mod Radix
use mathlib.Core.Option
use hif_frontend.Common.{
  ℕ, zero, suc, ◌+◌, ◌-◌, ◌^◌, Bool, true, false, ◌||◌, Option, none, some, [], ◌∷◌, ◌++◌, Bytes,
  codes, ltb, leb, ◌==◌, if◌then◌else◌, length, drop, replicate, set,
}
use hif_frontend.Common.Int.{ℤ, pos, negsuc}
use hif_frontend.Common.Outcome.{
  Result, ok, err, fatal, undefined, out_of_range, ◌>>=◌, ◌>>◌, int_max,
}
use hif_frontend.Common.Text.{find, toupper, atoi}
use hif_frontend.Hif.{
  Value, bit_value, bitvector_value, int_value, real_value, BitConstant, bit_zero, bit_one, bit_x,
  bit_z,
}
use hif_frontend.Verilog.Binary.{convert_to_binary, convert_text_to_binary}

-- `number_t`: the text, the letter of the format, and whether the token was signed.
pub record Number : Type 0 where
  pub value : Bytes
  pub type : ℕ
  pub sign : Bool

abbrev signed_error : {A : Type 0} → Result A
signed_error = err (fatal "Signed option is not supported.")

-- The `switch` on one digit of a binary number.
unfoldable pub bit_of_char : ℕ → Option BitConstant
unfolding toupper
bit_of_char c =
    let u = toupper c in
    if u == b'1'
    then some bit_one
    else if u == b'0'
    then some bit_zero
    else if u == b'X'
    then some bit_x
    else if u == b'Z'
    then some bit_z
    else none

-- The value of a `BitValue` after that `switch` on the first character, the terminator included.
pub first_bit : BitConstant → Bytes → BitConstant
unfolding bit_of_char
first_bit default_bit [] = default_bit
first_bit default_bit (c ∷ s) = elim (bit_of_char c) [ some b ↦ b | none ↦ default_bit ]

-- `while ((pos = str.find('x')) != npos || (pos = str.find('z')) != npos) str[pos] = '0';`, with
-- fuel. Each round takes away one `x` or `z`, so the length of the text is enough.
pub zero_loop : ℕ → Bytes → Bytes
unfolding find
zero_loop zero str = str
zero_loop (suc fuel) str = elim (find b'x' str) [
  | some i ↦ zero_loop fuel (set str i b'0')
  | none ↦ elim (find b'z' str) [ some i ↦ zero_loop fuel (set str i b'0') | none ↦ str ]
]

pub replace_x_z : Bytes → Bytes
unfolding zero_loop
replace_x_z str = zero_loop (length str) str

module _ {R : Type 0} where
  pub parse_unsigned_number : Number → Result (Value R)
  parse_unsigned_number dec_number =
      if dec_number.sign then signed_error else (do ris ← atoi dec_number.value; ok (int_value ris))

  pub parse_dec_number : Number → Result (Value R)
  parse_dec_number based_number =
      if based_number.sign
      then signed_error
      else (do ris ← atoi based_number.value; ok (int_value ris))

  -- `parse_RealTime`: `atof` and `num * pow(10, exp)` are the C library's and the machine's.
  pub parse_real_time : (atof : Bytes → R) (scale : R → R → R) → Bytes → Option Bytes → Value R
  parse_real_time atof scale value none = real_value (atof value)
  parse_real_time atof scale value (some exp) = real_value (scale (atof value) (atof exp))

  -- `default_bit` is the value of a `new BitValue()`, and `read_hex` is `ss << std::hex << str; ss >> i`
  -- from an `i` of 0. `none` is `nullptr`.
  pub parse_based_number :
      (default_bit : BitConstant) (read_hex : Bytes → ℤ) → Number → Result (Option (Value R))
  unfolding bit_of_char replace_x_z
  parse_based_number default_bit read_hex number =
      if number.sign
      then signed_error
      else if number.type == b'd'
      then (do ris ← atoi number.value; ok (some (int_value ris)))
      else if number.type == b'b'
      then (if ltb 1 (length number.value)
          then ok (some (bitvector_value number.value))
          else ok (some (bit_value (first_bit default_bit number.value))))
      else if number.type == b'o'
      then (do ris ← atoi (b'0' ∷ replace_x_z number.value); ok (some (int_value ris)))
      else if number.type == b'h'
      then ok (some (int_value (read_hex (replace_x_z number.value))))
      else ok none
