-- ===== src/Verilog/Sized.antt =====
-- `parse_DecBasedNumber` of src/verilog2hif/verilog_parser.cpp: a number with a size, `8'hff`.
pub mod Bits
pub mod Width
pub mod Meaning
use hif_frontend.Common.{
  ℕ, suc, ◌-◌, ◌+◌, ◌^◌, Bool, true, false, ◌||◌, Option, none, some, [], ◌∷◌, ◌++◌, Bytes, codes,
  ltb, leb, ◌==◌, if◌then◌else◌, length, drop, replicate,
}
use hif_frontend.Common.Int.{ℤ, pos, negsuc}
use hif_frontend.Common.Outcome.{Result, ok, err, fatal, out_of_range, ◌>>=◌, int_max}
use hif_frontend.Common.Text.{toupper, atoi}
use hif_frontend.Hif.{Value, bit_value, bitvector_value}
use hif_frontend.Verilog.Binary.{convert_to_binary, convert_text_to_binary}
use hif_frontend.Verilog.Numbers.{Number, bit_of_char}

-- `unsigned int numberOfBits = atoi(…)`.
abbrev pub to_unsigned : ℤ → ℕ
to_unsigned (pos n) = n
to_unsigned (negsuc n) = 2 ^ 32 - suc n

-- `int numBits = numberOfBits`: what is too large is negative, and gives no round.
abbrev pub to_rounds : ℕ → ℕ
to_rounds n = if leb n int_max then n else 0

-- What one octal digit appends. A `char` is converted as its code.
pub octal_bits : ℕ → Bytes
octal_bits s =
    if s == b'x' || s == b'X'
    then codes "xxx"
    else if s == b'z' || s == b'Z'
    then codes "zzz"
    else convert_to_binary (pos s) 3

pub hex_bits : ℕ → Result Bytes
unfolding toupper
hex_bits s =
    let u = toupper s in
    if u == b'A'
    then convert_text_to_binary (codes "10") 4
    else if u == b'B'
    then convert_text_to_binary (codes "11") 4
    else if u == b'C'
    then convert_text_to_binary (codes "12") 4
    else if u == b'D'
    then convert_text_to_binary (codes "13") 4
    else if u == b'E'
    then convert_text_to_binary (codes "14") 4
    else if u == b'F'
    then convert_text_to_binary (codes "15") 4
    else if u == b'Z'
    then ok (codes "zzzz")
    else if u == b'X'
    then ok (codes "xxxx")
    else ok (convert_to_binary (pos s) 4)

pub octal_loop : Bytes → Bytes → Bytes
unfolding octal_bits
octal_loop [] result = result
octal_loop (s ∷ number) result = octal_loop number (result ++ octal_bits s)

pub hex_loop : Bytes → Bytes → Result Bytes
unfolding hex_bits
hex_loop [] result = ok result
hex_loop (s ∷ number) result = do tmp ← hex_bits s; hex_loop number (result ++ tmp)

-- The bits of the digits, before they are brought to the size.
pub digit_text : Number → ℕ → Result Bytes
unfolding octal_loop hex_loop convert_text_to_binary
digit_text based_number number_of_bits =
    if based_number.type == b'd'
    then convert_text_to_binary based_number.value (to_rounds number_of_bits)
    else if based_number.type == b'b'
    then ok based_number.value
    else if based_number.type == b'o'
    then ok (octal_loop based_number.value [])
    else if based_number.type == b'h'
    then hex_loop based_number.value []
    else err (fatal "Unexpected based decimal number")

-- The character that a short text is extended with.
pub pad_char : ℕ → Bool → ℕ
pad_char front sign =
    if front == b'x' || front == b'X'
    then b'x'
    else if front == b'z' || front == b'Z'
    then b'z'
    else if sign
    then front
    else b'0'

-- Extension, or cutting off the high bits.
pub resize : ℕ → Bool → Bytes → Bytes
unfolding pad_char
resize number_of_bits sign [] = []
resize number_of_bits sign (front ∷ rest) =
    let tmp = front ∷ rest in
    if ltb (length tmp) number_of_bits
    then replicate (number_of_bits - length tmp) (pad_char front sign) ++ tmp
    else drop (length tmp - number_of_bits) tmp

module _ {R : Type 0} where
  -- `result.at(0)` throws on an empty text.
  pub single_bit : Bytes → Result (Value R)
  unfolding bit_of_char
  single_bit [] = err out_of_range
  single_bit (c ∷ s) = elim (bit_of_char c) [
    | some b ↦ ok (bit_value b)
    | none ↦ err (fatal "Unexpected bit value")
  ]

  -- The end of the routine: a bit vector, or one bit.
  pub sized_value : Bytes → Result (Value R)
  unfolding single_bit
  sized_value result =
      if ltb 1 (length result) then ok (bitvector_value result) else single_bit result

  unfoldable pub parse_dec_based_number : Number → Number → Result (Value R)
  unfolding digit_text resize sized_value
  parse_dec_based_number dec_number based_number = do
    size ← atoi dec_number.value
    let number_of_bits = to_unsigned size
    if based_number.sign then err (fatal "Signed option is not supported.") else (do
      tmp_result ← digit_text based_number number_of_bits
      sized_value (resize number_of_bits based_number.sign tmp_result))
