-- ===== src/Vhdl/Operators/Tables/StdLogicArith.antt =====
-- The overloads that `_addStandardOperatorOverloads` of src/vhdl2hif/PostParsingVisitor_step2.cpp
-- lists for `ieee_std_logic_arith`.
use hif_frontend.Common.{List, [], ◌∷◌}
use hif_frontend.Vhdl.Operators.{Row, unary, binary}

abbrev pub std_logic_arith : List Row
std_logic_arith =
    binary "+" "unsigned" "unsigned" "unsigned"
    ∷ binary "+" "signed" "signed" "signed"
    ∷ binary "+" "unsigned" "signed" "signed"
    ∷ binary "+" "signed" "unsigned" "signed"
    ∷ binary "+" "unsigned" "integer" "unsigned"
    ∷ binary "+" "integer" "unsigned" "unsigned"
    ∷ binary "+" "signed" "integer" "signed"
    ∷ binary "+" "integer" "signed" "signed"
    ∷ binary "+" "unsigned" "std_ulogic" "unsigned"
    ∷ binary "+" "std_ulogic" "unsigned" "unsigned"
    ∷ binary "+" "signed" "std_ulogic" "signed"
    ∷ binary "+" "std_ulogic" "signed" "signed"
    ∷ binary "-" "unsigned" "unsigned" "unsigned"
    ∷ binary "-" "signed" "signed" "signed"
    ∷ binary "-" "unsigned" "signed" "signed"
    ∷ binary "-" "signed" "unsigned" "signed"
    ∷ binary "-" "unsigned" "integer" "unsigned"
    ∷ binary "-" "integer" "unsigned" "unsigned"
    ∷ binary "-" "signed" "integer" "signed"
    ∷ binary "-" "integer" "signed" "signed"
    ∷ binary "-" "unsigned" "std_ulogic" "unsigned"
    ∷ binary "-" "std_ulogic" "unsigned" "unsigned"
    ∷ binary "-" "signed" "std_ulogic" "signed"
    ∷ binary "-" "std_ulogic" "signed" "signed"
    ∷ unary "+" "unsigned" "unsigned"
    ∷ unary "+" "signed" "signed"
    ∷ unary "-" "signed" "signed"
    ∷ binary "*" "unsigned" "unsigned" "unsigned"
    ∷ binary "*" "signed" "signed" "signed"
    ∷ binary "*" "signed" "unsigned" "signed"
    ∷ binary "*" "unsigned" "signed" "signed"
    ∷ binary "<" "unsigned" "unsigned" "boolean"
    ∷ binary "<" "signed" "signed" "boolean"
    ∷ binary "<" "unsigned" "signed" "boolean"
    ∷ binary "<" "signed" "unsigned" "boolean"
    ∷ binary "<" "unsigned" "integer" "boolean"
    ∷ binary "<" "integer" "unsigned" "boolean"
    ∷ binary "<" "signed" "integer" "boolean"
    ∷ binary "<" "integer" "signed" "boolean"
    ∷ binary "<=" "unsigned" "unsigned" "boolean"
    ∷ binary "<=" "signed" "signed" "boolean"
    ∷ binary "<=" "unsigned" "signed" "boolean"
    ∷ binary "<=" "signed" "unsigned" "boolean"
    ∷ binary "<=" "unsigned" "integer" "boolean"
    ∷ binary "<=" "integer" "unsigned" "boolean"
    ∷ binary "<=" "signed" "integer" "boolean"
    ∷ binary "<=" "integer" "signed" "boolean"
    ∷ binary ">" "unsigned" "unsigned" "boolean"
    ∷ binary ">" "signed" "signed" "boolean"
    ∷ binary ">" "unsigned" "signed" "boolean"
    ∷ binary ">" "signed" "unsigned" "boolean"
    ∷ binary ">" "unsigned" "integer" "boolean"
    ∷ binary ">" "integer" "unsigned" "boolean"
    ∷ binary ">" "signed" "integer" "boolean"
    ∷ binary ">" "integer" "signed" "boolean"
    ∷ binary ">=" "unsigned" "unsigned" "boolean"
    ∷ binary ">=" "signed" "signed" "boolean"
    ∷ binary ">=" "unsigned" "signed" "boolean"
    ∷ binary ">=" "signed" "unsigned" "boolean"
    ∷ binary ">=" "unsigned" "integer" "boolean"
    ∷ binary ">=" "integer" "unsigned" "boolean"
    ∷ binary ">=" "signed" "integer" "boolean"
    ∷ binary ">=" "integer" "signed" "boolean"
    ∷ binary "=" "unsigned" "unsigned" "boolean"
    ∷ binary "=" "signed" "signed" "boolean"
    ∷ binary "=" "unsigned" "signed" "boolean"
    ∷ binary "=" "signed" "unsigned" "boolean"
    ∷ binary "=" "unsigned" "integer" "boolean"
    ∷ binary "=" "integer" "unsigned" "boolean"
    ∷ binary "=" "signed" "integer" "boolean"
    ∷ binary "=" "integer" "signed" "boolean"
    ∷ binary "/=" "unsigned" "unsigned" "boolean"
    ∷ binary "/=" "signed" "signed" "boolean"
    ∷ binary "/=" "unsigned" "signed" "boolean"
    ∷ binary "/=" "signed" "unsigned" "boolean"
    ∷ binary "/=" "unsigned" "integer" "boolean"
    ∷ binary "/=" "integer" "unsigned" "boolean"
    ∷ binary "/=" "signed" "integer" "boolean"
    ∷ binary "/=" "integer" "signed" "boolean"
    ∷ []
