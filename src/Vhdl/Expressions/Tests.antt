-- ===== src/Vhdl/Expressions/Tests.antt =====
-- Visits of expressions, and the instance of the theorem at one.
use hif_frontend.Common.{◌≡◌, refl, Bool, true, false, some}
use hif_frontend.Vhdl.Expressions.{
  Operator, op_xor, op_and, op_eq, op_neq, op_bxor, SemanticType, bit_type, Expression,
  visit_expression,
}
use hif_frontend.Vhdl.Expressions.Replaced.{is_logical}

abbrev is_relational : Operator → Bool
is_relational op_eq = true
is_relational op_neq = true
is_relational op = false

abbrev on : Operator → SemanticType → Expression
on op t = record {
  operator = op;
  value1 = some t;
  value2 = some t;
  base1 = t;
  base2 = t;
  is_in_logic_lib = false;
}

-- `xor` of two plain bits becomes bitwise, and `and` of them stays.
plain_xor :
    visit_expression is_logical is_relational (on op_xor (bit_type false))
    ≡ some (on op_bxor (bit_type false))
unfolding visit_expression
plain_xor = refl

plain_and :
    visit_expression is_logical is_relational (on op_and (bit_type false))
    ≡ some (on op_and (bit_type false))
unfolding visit_expression
plain_and = refl
