-- ===== src/Vhdl/Expressions/Replaced.antt =====
-- What the visit of an expression makes of its operator.
use hif_frontend.Common.{◌≡◌, Bool, true, false, not, Option, none, some, if◌then◌else◌}
use hif_frontend.Vhdl.Expressions.{
  Operator, op_xor, op_and, op_or, op_not, op_bxor, op_band, op_bor, op_bnot, op_eq, op_neq,
  op_case_eq, op_case_neq, SemanticType, bool_type, bit_type, bitvector_type, signed_type,
  unsigned_type, Expression,
}

-- The logical operators.
abbrev pub is_logical : Operator → Bool
is_logical op_xor = true
is_logical op_and = true
is_logical op_or = true
is_logical op_not = true
is_logical _ = false

-- The operand types that a logical operator is for: `true` where the first operand is a Boolean, or
-- is a plain bit and the second one is a plain bit as well, a Boolean or not there. A plain bit has
-- no logical `not`, and two of them no logical `xor`.
abbrev pub fits : Operator → SemanticType → Option SemanticType → Bool
fits op bool_type second = true
fits op_not first second = false
fits op (bit_type false) none = true
fits op (bit_type false) (some bool_type) = true
fits op_xor (bit_type false) (some (bit_type false)) = false
fits op (bit_type false) (some (bit_type false)) = true
fits op first second = false

-- The operand types whose equality is that of all values, and whether a library of Synopsys counts.
abbrev pub compares_all : (base1 base2 : SemanticType) → (is_in_logic_lib : Bool) → Bool
compares_all signed_type base2 lib = not lib
compares_all unsigned_type base2 lib = not lib
compares_all base1 signed_type lib = not lib
compares_all base1 unsigned_type lib = not lib
compares_all bitvector_type bitvector_type lib = true
compares_all (bit_type true) (bit_type b) lib = true
compares_all (bit_type false) (bit_type b) lib = b
compares_all base1 base2 lib = false

-- A logical operator, or the bitwise one in its place.
abbrev pub logical_or_bitwise : (op bitwise : Operator) → Expression → Option Operator
logical_or_bitwise op bitwise o = elim o.value1 [
  | none ↦ none
  | some first ↦ some (if fits op first o.value2 then op else bitwise)
]

-- The operator that an expression ends with, by the one that it has; `none` for a missing operand.
abbrev pub replaced : Operator → Expression → Option Operator
replaced op_xor o = logical_or_bitwise op_xor op_bxor o
replaced op_and o = logical_or_bitwise op_and op_band o
replaced op_or o = logical_or_bitwise op_or op_bor o
replaced op_not o = logical_or_bitwise op_not op_bnot o
replaced op_eq o =
    some (if compares_all o.base1 o.base2 o.is_in_logic_lib then op_case_eq else op_eq)
replaced op_neq o =
    some (if compares_all o.base1 o.base2 o.is_in_logic_lib then op_case_neq else op_neq)
replaced op o = some op

abbrev pub with_operator : Expression → Option Operator → Option Expression
with_operator o none = none
with_operator o (some op) = some (record o { operator = op })

module _ (logical relational : Operator → Bool) where
  -- `operatorIsLogical` holds of the four logical operators alone, and `operatorIsRelational` of the
  -- two equalities.
  abbrev pub OperatorLaws : Type 0
  OperatorLaws =
      ((op : Operator) → logical op ≡ is_logical op)
      × (relational op_eq ≡ true)
      × (relational op_neq ≡ true)
