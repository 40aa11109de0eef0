-- ===== src/Vhdl/Literals/Strings.antt =====
-- String, bit string and character literals, and physical literals.
use hif_frontend.Common.{
  ℕ, ◌≡◌, refl, Bool, true, false, not, ◌&&◌, [], ◌∷◌, arith, Bytes, codes, ◌==◌, if◌then◌else◌,
  keep, all, text_eq-eq, ap, ◌↔◌,
}
use hif_frontend.Common.Outcome.{ok, >>=-eq-ok}
use hif_frontend.Common.Int.{ℤ}
use hif_frontend.Common.Text.{other, toupper}
use hif_frontend.Hif.{
  Value, BitConstant, bit_one, bit_zero, bit_x, bit_z, bit_l, bit_h, bit_w, bit_u, bit_dontcare,
  bitvector_value, string_value, char_value, bit_value, identifier, int_value, real_value,
  time_value, TimeUnit, time_fs, time_ps, time_ns, time_us, time_ms, time_sec, time_min, time_hr,
}
use hif_frontend.Vhdl.Text.Laws.{erase_all-keep}
use hif_frontend.Vhdl.Literals.{
  parse_bit_string_literal, parse_string_literal, bit_string_loop, is_bit_char,
  parse_character_literal, time_unit, parse_numeric_literal,
}

-- The characters that are no part of the value of a binary bit string.
abbrev pub is_bit_string_digit : ℕ → Bool
is_bit_string_digit c = not (c == b'"') && not (c == b'B') && not (c == b'b') && not (c == b'_')

keep_four :
    (s : Bytes)
    → keep (other b'_') (keep (other b'b') (keep (other b'B') (keep (other b'"') s)))
      ≡ keep is_bit_string_digit s
keep_four [] = refl
keep_four (c ∷ s) = ground (arith, keep_four s)

-- A bit string literal keeps, in their order, the characters other than the quote, the two letters
-- of the base and the underline; the four loops end.
pub parse_bit_string_literal_lem :
    {R : Type 0} (name : Bytes)
    → parse_bit_string_literal {R = R} name ≡ bitvector_value (keep is_bit_string_digit name)
unfolding parse_bit_string_literal
parse_bit_string_literal_lem name = simp erase_all-keep (ap bitvector_value (keep_four name))

loop-all : (s : Bytes) → bit_string_loop true s ≡ all is_bit_char s
unfolding bit_string_loop
loop-all [] = refl
loop-all (c ∷ s) = rw (loop-all s)

abbrev pub is_empty : Bytes → Bool
is_empty [] = true
is_empty (c ∷ s) = false

loop_lem : (s : Bytes) → bit_string_loop false s ≡ not (is_empty s) && all is_bit_char s
loop_lem [] = unfold bit_string_loop in refl
loop_lem (c ∷ s) = rw (start c s, loop-all s)
  where
    start :
        (c : ℕ) (s : Bytes)
        → bit_string_loop false (c ∷ s) ≡ (if is_bit_char c then bit_string_loop true s else false)
    start c s = unfold bit_string_loop in refl

-- The text of a string literal is what is left when the quotes are taken out. It becomes a
-- bit vector exactly when it is not empty and each of its characters is one of the fifteen that
-- stand for a logic value, and is kept as a string otherwise.
pub parse_string_literal_lem :
    {R : Type 0} (string_lit : Bytes)
    → let name = keep (other b'"') string_lit in
      parse_string_literal {R = R} string_lit ≡ (
        if not (is_empty name) && all is_bit_char name
        then bitvector_value name
        else string_value name)
unfolding parse_string_literal
parse_string_literal_lem string_lit = rw (erase_all-keep, loop_lem)

-- The name that the units of a physical literal are written with.
abbrev pub unit_text : TimeUnit → Bytes
unit_text time_fs = codes "fs"
unit_text time_ps = codes "ps"
unit_text time_ns = codes "ns"
unit_text time_us = codes "us"
unit_text time_ms = codes "ms"
unit_text time_sec = codes "sec"
unit_text time_min = codes "min"
unit_text time_hr = codes "hr"

time_unit-unit_text : (u : TimeUnit) → time_unit (unit_text u) ≡ ok u
unfolding time_unit
time_unit-unit_text time_fs = refl
time_unit-unit_text time_ps = refl
time_unit-unit_text time_ns = refl
time_unit-unit_text time_us = refl
time_unit-unit_text time_ms = refl
time_unit-unit_text time_sec = refl
time_unit-unit_text time_min = refl
time_unit-unit_text time_hr = refl

-- The text names one of the eight units.
time_unit_sound : (s : Bytes) (u : TimeUnit) → time_unit s ≡ ok u → s ≡ unit_text u
unfolding time_unit
time_unit_sound s u h = ground (
  arith,
  text_eq-eq s (codes "fs"),
  text_eq-eq s (codes "ps"),
  text_eq-eq s (codes "ns"),
  text_eq-eq s (codes "us"),
  text_eq-eq s (codes "ms"),
  text_eq-eq s (codes "sec"),
  text_eq-eq s (codes "min"),
  text_eq-eq s (codes "hr"),
)

-- The number in a physical literal: a real number, or an integer as a `double`.
pub data Amount {R : Type 0} (to_double : ℤ → R) : Value R → R → Type 0 where
  real : (x : R) → Amount to_double (real_value x) x
  integer : (n : ℤ) → Amount to_double (int_value n) (to_double n)

-- A number and one of the eight unit names give the time value of that amount and unit.
pub parse_numeric_literal-unit_text :
    {R : Type 0} (to_double : ℤ → R) {num : Value R} {x : R}
    → Amount to_double num x
    → (u : TimeUnit)
    → parse_numeric_literal to_double num (identifier (unit_text u)) ≡ ok (time_value x u)
unfolding parse_numeric_literal
parse_numeric_literal-unit_text to_double (real x) u = rw (time_unit-unit_text u)
parse_numeric_literal-unit_text to_double (integer n) u = rw (time_unit-unit_text u)

-- The amount that a number stands for, a unit that the identifier spells, and the value of both.
abbrev pub PhysicalLiteral : {R : Type 0} → (ℤ → R) → (num unit v : Value R) → Type 0
PhysicalLiteral {R} to_double num unit v =
    (u : TimeUnit) × (x : R) × Amount to_double num x
    × (unit ≡ identifier (unit_text u))
    × (v ≡ time_value x u)

parse_numeric_literal_sound :
    {R : Type 0} (to_double : ℤ → R) (num unit v : Value R)
    → parse_numeric_literal to_double num unit ≡ ok v
    → PhysicalLiteral to_double num unit v
unfolding parse_numeric_literal
parse_numeric_literal_sound to_double (real_value x) (identifier name) v h =
    let (u, e, e') = >>=-eq-ok (time_unit name) (λ u. ok (time_value x u)) h in
    (u, x, Amount.real x, ap identifier (time_unit_sound name u e), cc)
parse_numeric_literal_sound to_double (int_value n) (identifier name) v h =
    let (u, e, e') = >>=-eq-ok (time_unit name) (λ u. ok (time_value (to_double n) u)) h in
    (u, to_double n, Amount.integer n, ap identifier (time_unit_sound name u e), cc)
parse_numeric_literal_sound to_double num unit v h = ground arith

-- A physical literal has a value exactly if the number is an integer or a real and the unit is an
-- identifier that is the text of one of the eight units, and the value is then the time
-- of that amount in that unit.
pub parse_numeric_literal_lem :
    {R : Type 0} (to_double : ℤ → R) (num unit v : Value R)
    → (parse_numeric_literal to_double num unit ≡ ok v) ↔ PhysicalLiteral to_double num unit v
parse_numeric_literal_lem to_double num unit v = (
  parse_numeric_literal_sound to_double num unit v,
  λ (u, x, amount, e, e'). rw (e, e') (parse_numeric_literal-unit_text to_double amount u),
)

-- The literal of a single character.
abbrev pub quoted : ℕ → Bytes
quoted c = b'\'' ∷ c ∷ b'\'' ∷ []

-- The value that an upper case letter, a digit or the dash stands for.
abbrev pub logic_value : ℕ → BitConstant
logic_value c =
    if c == b'1'
    then bit_one
    else if c == b'0'
    then bit_zero
    else if c == b'X'
    then bit_x
    else if c == b'Z'
    then bit_z
    else if c == b'L'
    then bit_l
    else if c == b'H'
    then bit_h
    else if c == b'W'
    then bit_w
    else if c == b'U'
    then bit_u
    else bit_dontcare

-- A character literal is a bit exactly for the characters that make a string literal a bit vector,
-- the same bit for both cases of a letter, and the character itself otherwise.
pub parse_character_literal_lem :
    {R : Type 0} (c : ℕ)
    → parse_character_literal {R = R} (quoted c)
      ≡ ok (if is_bit_char c then bit_value (logic_value (toupper c)) else char_value c)
unfolding parse_character_literal toupper
parse_character_literal_lem c = ground arith
