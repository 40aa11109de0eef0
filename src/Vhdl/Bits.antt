-- ===== src/Vhdl/Bits.antt =====
-- src/vhdl2hif/vhdl_support.cpp: the digits of a based literal as bits, and bits as an `int`.
pub mod Digits
pub mod Decode
use hif_frontend.Common.{
  ℕ, zero, suc, ◌+◌, ◌*◌, ◌/◌, ◌%◌, List, [], ◌∷◌, ◌++◌, Bytes, codes, ◌==◌, ◌||◌, if◌then◌else◌,
}
use hif_frontend.Common.Int.{ℤ, pos, negsuc, int_is, ◌+ℤ◌, ◌-ℤ◌, ◌*ℤ◌}
use hif_frontend.Common.Outcome.{Result, ok, err, fatal, checked, ◌>>=◌, ◌>>◌}
use hif_frontend.Common.Text.{atoi}

pub oct2bits : ℕ → Bytes
oct2bits oct =
    if oct == b'0'
    then codes "000"
    else if oct == b'1'
    then codes "001"
    else if oct == b'2'
    then codes "010"
    else if oct == b'3'
    then codes "011"
    else if oct == b'4'
    then codes "100"
    else if oct == b'5'
    then codes "101"
    else if oct == b'6'
    then codes "110"
    else if oct == b'7'
    then codes "111"
    else []

pub hex2bits : ℕ → Bytes
hex2bits hex =
    if hex == b'0'
    then codes "0000"
    else if hex == b'1'
    then codes "0001"
    else if hex == b'2'
    then codes "0010"
    else if hex == b'3'
    then codes "0011"
    else if hex == b'4'
    then codes "0100"
    else if hex == b'5'
    then codes "0101"
    else if hex == b'6'
    then codes "0110"
    else if hex == b'7'
    then codes "0111"
    else if hex == b'8'
    then codes "1000"
    else if hex == b'9'
    then codes "1001"
    else if hex == b'a' || hex == b'A'
    then codes "1010"
    else if hex == b'b' || hex == b'B'
    then codes "1011"
    else if hex == b'c' || hex == b'C'
    then codes "1100"
    else if hex == b'd' || hex == b'D'
    then codes "1101"
    else if hex == b'e' || hex == b'E'
    then codes "1110"
    else if hex == b'f' || hex == b'F'
    then codes "1111"
    else []

-- `while (orig > 0) { result += orig % 2 + '0'; orig /= 2; }`, with fuel.
pub dec2bits_loop : ℕ → ℕ → Bytes
dec2bits_loop zero orig = []
dec2bits_loop (suc fuel) orig =
    let rest = (b'0' + orig % 2) ∷ dec2bits_loop fuel (orig / 2) in if orig == 0 then [] else rest

-- A negative number does not enter the loop. An `int` is below 2 ^ 31, so 32 rounds are enough.
pub dec2bits : Bytes → Result Bytes
unfolding dec2bits_loop
dec2bits dec = do orig ← atoi dec; elim orig [ pos n ↦ ok (dec2bits_loop 32 n) | negsuc _ ↦ ok [] ]

-- What one round of `toBits` appends, in a base other than 10.
abbrev pub digit_bits : ℤ → ℕ → Result Bytes
digit_bits base c =
    if int_is base 2
    then ok (c ∷ [])
    else if int_is base 8
    then ok (oct2bits c)
    else if int_is base 16
    then ok (hex2bits c)
    else err (fatal "Base format not supported.")

-- The loop of `toBits` over what is left of `value`. In base 10 its first round returns.
pub to_bits_loop : ℤ → Bytes → Bytes → Bytes → Result Bytes
unfolding oct2bits hex2bits dec2bits
to_bits_loop base value [] result = ok result
to_bits_loop base value (c ∷ s) result =
    if int_is base 10
    then dec2bits value
    else (do bits ← digit_bits base c; to_bits_loop base value s (result ++ bits))

pub to_bits : Bytes → ℤ → Result Bytes
unfolding to_bits_loop
to_bits value base = to_bits_loop base value value []

-- `2 * result + (c - '0')`.
pub shift_in : ℤ → ℕ → ℤ
unfolding ◌+ℤ◌ ◌-ℤ◌ ◌*ℤ◌
shift_in result c = pos 2 *ℤ result +ℤ (pos c -ℤ pos b'0')

pub bit2decimal_loop : ℤ → Bytes → Result ℤ
unfolding shift_in checked
bit2decimal_loop result [] = ok result
bit2decimal_loop result (c ∷ s) = do next ← checked (shift_in result c); bit2decimal_loop next s

pub bit2decimal : Bytes → Result ℤ
unfolding bit2decimal_loop
bit2decimal = bit2decimal_loop (pos 0)
