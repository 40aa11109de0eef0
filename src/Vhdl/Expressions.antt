-- ===== src/Vhdl/Expressions.antt =====
-- The operators of expressions, src/vhdl2hif/PostParsingVisitor_step1.cpp: logical operators on
-- vectors become bitwise ones, and equality of logic values becomes the one with all values.
pub mod Replaced
mod Tests
use hif_frontend.Common.{ℕ, Bool, true, false, not, ◌&&◌, ◌||◌, Option, none, some, if◌then◌else◌}

pub data Operator : Type 0 where
  op_xor op_and op_or op_not op_bxor op_band op_bor op_bnot op_eq op_neq op_case_eq op_case_neq :
      Operator
  other : ℕ → Operator

-- A semantic type, as far as the code asks for it.
pub data SemanticType : Type 0 where
  bool_type : SemanticType
  bit_type : (is_logic : Bool) → SemanticType
  bitvector_type signed_type unsigned_type other_type : SemanticType

-- An expression with the semantic types of its operands, if it has them, and the base types of these,
-- and whether a library of Synopsys stands in the list of its scope.
pub record Expression : Type 0 where
  pub operator : Operator
  pub value1 : Option SemanticType
  pub value2 : Option SemanticType
  pub base1 : SemanticType
  pub base2 : SemanticType
  pub is_in_logic_lib : Bool

-- `_getBwise`
abbrev pub get_bwise : Operator → Operator
get_bwise op_xor = op_bxor
get_bwise op_and = op_band
get_bwise op_or = op_bor
get_bwise op_not = op_bnot
get_bwise op = op

abbrev pub is_op : (code : Operator) → Operator → Bool
is_op op_not op_not = true
is_op op_xor op_xor = true
is_op op_eq op_eq = true
is_op op_neq op_neq = true
is_op code op = false

-- A bit that is not of the logic type.
abbrev pub is_plain_bit : SemanticType → Bool
is_plain_bit (bit_type is_logic) = not is_logic
is_plain_bit t = false

abbrev pub is_bool : SemanticType → Bool
is_bool bool_type = true
is_bool t = false

abbrev pub is_bit : SemanticType → Bool
is_bit (bit_type is_logic) = true
is_bit t = false

abbrev pub is_logic_bit : SemanticType → Bool
is_logic_bit (bit_type is_logic) = is_logic
is_logic_bit t = false

abbrev pub is_bitvector : SemanticType → Bool
is_bitvector bitvector_type = true
is_bitvector t = false

abbrev pub is_number : SemanticType → Bool
is_number signed_type = true
is_number unsigned_type = true
is_number t = false

-- The second operand of an operator on a plain bit lets it be.
abbrev pub keeps_logical : Operator → Option SemanticType → Bool
keeps_logical op none = true
keeps_logical op (some op2_type) =
    if is_bool op2_type then true else is_plain_bit op2_type && not (is_op op_xor op)

-- `operatorIsLogical` and `operatorIsRelational` of the HIF library.
module _ (operator_is_logical operator_is_relational : Operator → Bool) where
  -- `_replaceLogicalOperators`: the expression, and whether it has changed; `none` if the first
  -- operand is missing.
  abbrev pub replace_logical_operators : Expression → Option (Expression × Bool)
  replace_logical_operators o =
      if not (operator_is_logical (o.operator)) then some (o, false) else elim (o.value1) [
        | none ↦ none
        | some op1_type ↦
            if is_bool op1_type
            then some (o, false)
            else if is_plain_bit op1_type
                && not (is_op op_not (o.operator))
                && keeps_logical (o.operator) (o.value2)
            then some (o, false)
            else some (record o { operator = get_bwise (o.operator) }, true)
      ]

  -- The types of the operands let an equality be.
  abbrev pub keeps_equality : Expression → Bool
  keeps_equality o =
      if is_number (o.base1) || is_number (o.base2)
      then o.is_in_logic_lib
      else if not (is_bitvector (o.base1)) && not (is_bitvector (o.base2))
      then not (is_bit (o.base1))
        || not (is_bit (o.base2))
        || (not (is_logic_bit (o.base1)) && not (is_logic_bit (o.base2)))
      else not (is_bitvector (o.base1)) || not (is_bitvector (o.base2))

  -- `_replaceRelationalOperators`
  abbrev pub replace_relational_operators : Expression → Expression × Bool
  replace_relational_operators o =
      if not (operator_is_relational (o.operator))
      then (o, false)
      else if not (is_op op_eq (o.operator)) && not (is_op op_neq (o.operator))
      then (o, false)
      else if keeps_equality o
      then (o, false)
      else (
        record o { operator = if is_op op_eq (o.operator) then op_case_eq else op_case_neq },
        true,
      )

  -- `visitExpression`, past the visit of the operands.
  unfoldable pub visit_expression : Expression → Option Expression
  visit_expression o = elim (replace_logical_operators o) [
    | none ↦ none
    | some (o', changed) ↦ if changed then some o' else some ((replace_relational_operators o').0)
  ]
