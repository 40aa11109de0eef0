-- ===== src/Vhdl/Operators/Tables/NumericStd.antt =====
-- The overloads that `_addStandardOperatorOverloads` of src/vhdl2hif/PostParsingVisitor_step2.cpp
-- lists for `ieee_numeric_std`.
use hif_frontend.Common.{List, [], ◌∷◌}
use hif_frontend.Vhdl.Operators.{Row, unary, binary}

abbrev pub numeric_std : List Row
numeric_std =
    unary "-" "signed" "signed"
    ∷ binary "+" "unsigned" "unsigned" "unsigned"
    ∷ binary "+" "signed" "signed" "signed"
    ∷ binary "+" "unsigned" "natural" "unsigned"
    ∷ binary "+" "natural" "unsigned" "unsigned"
    ∷ binary "+" "integer" "signed" "signed"
    ∷ binary "+" "signed" "integer" "signed"
    ∷ binary "-" "unsigned" "unsigned" "unsigned"
    ∷ binary "-" "signed" "signed" "signed"
    ∷ binary "-" "unsigned" "natural" "unsigned"
    ∷ binary "-" "natural" "unsigned" "unsigned"
    ∷ binary "-" "signed" "integer" "signed"
    ∷ binary "-" "integer" "signed" "signed"
    ∷ binary "*" "unsigned" "unsigned" "unsigned"
    ∷ binary "*" "signed" "signed" "signed"
    ∷ binary "*" "unsigned" "natural" "unsigned"
    ∷ binary "*" "natural" "unsigned" "unsigned"
    ∷ binary "*" "signed" "integer" "signed"
    ∷ binary "*" "integer" "signed" "signed"
    ∷ binary "/" "unsigned" "unsigned" "unsigned"
    ∷ binary "/" "signed" "signed" "signed"
    ∷ binary "/" "unsigned" "natural" "unsigned"
    ∷ binary "/" "natural" "unsigned" "unsigned"
    ∷ binary "/" "signed" "integer" "signed"
    ∷ binary "/" "integer" "signed" "signed"
    ∷ binary "rem" "unsigned" "unsigned" "unsigned"
    ∷ binary "rem" "signed" "signed" "signed"
    ∷ binary "rem" "unsigned" "natural" "unsigned"
    ∷ binary "rem" "natural" "unsigned" "unsigned"
    ∷ binary "rem" "signed" "integer" "signed"
    ∷ binary "rem" "integer" "signed" "signed"
    ∷ binary "mod" "unsigned" "unsigned" "unsigned"
    ∷ binary "mod" "signed" "signed" "signed"
    ∷ binary "mod" "unsigned" "natural" "unsigned"
    ∷ binary "mod" "natural" "unsigned" "unsigned"
    ∷ binary "mod" "signed" "integer" "signed"
    ∷ binary "mod" "integer" "signed" "signed"
    ∷ binary ">" "unsigned" "unsigned" "boolean"
    ∷ binary ">" "signed" "signed" "boolean"
    ∷ binary ">" "natural" "unsigned" "boolean"
    ∷ binary ">" "integer" "signed" "boolean"
    ∷ binary ">" "unsigned" "natural" "boolean"
    ∷ binary ">" "signed" "integer" "boolean"
    ∷ binary "<" "unsigned" "unsigned" "boolean"
    ∷ binary "<" "signed" "signed" "boolean"
    ∷ binary "<" "natural" "unsigned" "boolean"
    ∷ binary "<" "integer" "signed" "boolean"
    ∷ binary "<" "unsigned" "natural" "boolean"
    ∷ binary "<" "signed" "integer" "boolean"
    ∷ binary "<=" "unsigned" "unsigned" "boolean"
    ∷ binary "<=" "signed" "signed" "boolean"
    ∷ binary "<=" "natural" "unsigned" "boolean"
    ∷ binary "<=" "integer" "signed" "boolean"
    ∷ binary "<=" "unsigned" "natural" "boolean"
    ∷ binary "<=" "signed" "integer" "boolean"
    ∷ binary ">=" "unsigned" "unsigned" "boolean"
    ∷ binary ">=" "signed" "signed" "boolean"
    ∷ binary ">=" "natural" "unsigned" "boolean"
    ∷ binary ">=" "integer" "signed" "boolean"
    ∷ binary ">=" "unsigned" "natural" "boolean"
    ∷ binary ">=" "signed" "integer" "boolean"
    ∷ binary "=" "unsigned" "unsigned" "boolean"
    ∷ binary "=" "signed" "signed" "boolean"
    ∷ binary "=" "natural" "unsigned" "boolean"
    ∷ binary "=" "integer" "signed" "boolean"
    ∷ binary "=" "unsigned" "natural" "boolean"
    ∷ binary "=" "signed" "integer" "boolean"
    ∷ binary "/=" "unsigned" "unsigned" "boolean"
    ∷ binary "/=" "signed" "signed" "boolean"
    ∷ binary "/=" "natural" "unsigned" "boolean"
    ∷ binary "/=" "integer" "signed" "boolean"
    ∷ binary "/=" "unsigned" "natural" "boolean"
    ∷ binary "/=" "signed" "integer" "boolean"
    ∷ unary "not" "unsigned" "unsigned"
    ∷ binary "and" "unsigned" "unsigned" "unsigned"
    ∷ binary "or" "unsigned" "unsigned" "unsigned"
    ∷ binary "nand" "unsigned" "unsigned" "unsigned"
    ∷ binary "nor" "unsigned" "unsigned" "unsigned"
    ∷ binary "xor" "unsigned" "unsigned" "unsigned"
    ∷ unary "not" "signed" "signed"
    ∷ binary "and" "signed" "signed" "signed"
    ∷ binary "or" "signed" "signed" "signed"
    ∷ binary "nand" "signed" "signed" "signed"
    ∷ binary "nor" "signed" "signed" "signed"
    ∷ binary "xor" "signed" "signed" "signed"
    ∷ []
