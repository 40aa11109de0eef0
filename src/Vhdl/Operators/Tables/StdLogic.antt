-- ===== src/Vhdl/Operators/Tables/StdLogic.antt =====
-- The overloads that `_addStandardOperatorOverloads` of src/vhdl2hif/PostParsingVisitor_step2.cpp
-- lists for `ieee_std_logic_1164` and `ieee_std_logic_arith_ex`.
use hif_frontend.Common.{List, [], ◌∷◌}
use hif_frontend.Vhdl.Operators.{Row, unary, binary}

abbrev pub std_logic_1164 : List Row
std_logic_1164 =
    binary "and" "std_ulogic" "std_ulogic" "ux01"
    ∷ binary "nand" "std_ulogic" "std_ulogic" "ux01"
    ∷ binary "or" "std_ulogic" "std_ulogic" "ux01"
    ∷ binary "nor" "std_ulogic" "std_ulogic" "ux01"
    ∷ binary "xor" "std_ulogic" "std_ulogic" "ux01"
    ∷ binary "xnor" "std_ulogic" "std_ulogic" "ux01"
    ∷ unary "not" "std_ulogic" "ux01"
    ∷ binary "and" "std_logic_vector" "std_logic_vector" "std_logic_vector"
    ∷ binary "and" "std_ulogic_vector" "std_ulogic_vector" "std_ulogic_vector"
    ∷ binary "nand" "std_logic_vector" "std_logic_vector" "std_logic_vector"
    ∷ binary "nand" "std_ulogic_vector" "std_ulogic_vector" "std_ulogic_vector"
    ∷ binary "or" "std_logic_vector" "std_logic_vector" "std_logic_vector"
    ∷ binary "or" "std_ulogic_vector" "std_ulogic_vector" "std_ulogic_vector"
    ∷ binary "nor" "std_logic_vector" "std_logic_vector" "std_logic_vector"
    ∷ binary "nor" "std_ulogic_vector" "std_ulogic_vector" "std_ulogic_vector"
    ∷ binary "xor" "std_logic_vector" "std_logic_vector" "std_logic_vector"
    ∷ binary "xor" "std_ulogic_vector" "std_ulogic_vector" "std_ulogic_vector"
    ∷ binary "xnor" "std_logic_vector" "std_logic_vector" "std_logic_vector"
    ∷ binary "xnor" "std_ulogic_vector" "std_ulogic_vector" "std_ulogic_vector"
    ∷ unary "not" "std_logic_vector" "std_logic_vector"
    ∷ unary "not" "std_ulogic_vector" "std_ulogic_vector"
    ∷ []

abbrev pub std_logic_arith_ex : List Row
std_logic_arith_ex =
    binary "+" "std_logic_vector" "std_logic_vector" "std_logic_vector"
    ∷ binary "+" "std_logic_vector" "std_ulogic" "std_logic_vector"
    ∷ binary "+" "std_ulogic" "std_logic_vector" "std_logic_vector"
    ∷ binary "+" "integer" "std_logic_vector" "std_logic_vector"
    ∷ binary "+" "std_logic_vector" "integer" "std_logic_vector"
    ∷ binary "+" "std_ulogic_vector" "std_ulogic_vector" "std_ulogic_vector"
    ∷ binary "+" "std_ulogic_vector" "std_ulogic" "std_ulogic_vector"
    ∷ binary "+" "std_ulogic" "std_ulogic_vector" "std_ulogic_vector"
    ∷ binary "+" "integer" "std_ulogic_vector" "std_ulogic_vector"
    ∷ binary "+" "std_ulogic_vector" "integer" "std_ulogic_vector"
    ∷ binary "+" "std_ulogic" "std_ulogic" "std_ulogic"
    ∷ binary "-" "std_logic_vector" "std_logic_vector" "std_logic_vector"
    ∷ binary "-" "std_logic_vector" "std_ulogic" "std_logic_vector"
    ∷ binary "-" "std_ulogic" "std_logic_vector" "std_logic_vector"
    ∷ binary "-" "integer" "std_logic_vector" "std_logic_vector"
    ∷ binary "-" "std_logic_vector" "integer" "std_logic_vector"
    ∷ binary "-" "std_ulogic_vector" "std_ulogic_vector" "std_ulogic_vector"
    ∷ binary "-" "std_ulogic_vector" "std_ulogic" "std_ulogic_vector"
    ∷ binary "-" "std_ulogic" "std_ulogic_vector" "std_ulogic_vector"
    ∷ binary "-" "integer" "std_ulogic_vector" "std_ulogic_vector"
    ∷ binary "-" "std_ulogic_vector" "integer" "std_ulogic_vector"
    ∷ binary "-" "std_ulogic" "std_ulogic" "std_ulogic"
    ∷ unary "+" "std_logic_vector" "std_logic_vector"
    ∷ unary "+" "std_ulogic_vector" "std_ulogic_vector"
    ∷ binary "*" "std_logic_vector" "std_logic_vector" "std_logic_vector"
    ∷ binary "*" "std_ulogic" "std_logic_vector" "std_logic_vector"
    ∷ binary "*" "std_logic_vector" "std_ulogic" "std_logic_vector"
    ∷ binary "*" "std_ulogic" "std_ulogic" "std_ulogic"
    ∷ binary "*" "std_ulogic_vector" "std_ulogic_vector" "std_ulogic_vector"
    ∷ binary "*" "std_ulogic" "std_ulogic_vector" "std_ulogic_vector"
    ∷ binary "*" "std_ulogic_vector" "std_ulogic" "std_ulogic_vector"
    ∷ binary "/" "std_logic_vector" "std_logic_vector" "std_logic_vector"
    ∷ binary "/" "std_logic_vector" "std_ulogic" "std_logic_vector"
    ∷ binary "/" "std_ulogic" "std_logic_vector" "std_ulogic"
    ∷ binary "/" "std_ulogic" "std_ulogic" "std_ulogic"
    ∷ binary "<" "integer" "std_logic_vector" "boolean"
    ∷ binary "<" "std_logic_vector" "integer" "boolean"
    ∷ binary "<=" "integer" "std_logic_vector" "boolean"
    ∷ binary "<=" "std_logic_vector" "integer" "boolean"
    ∷ binary ">" "integer" "std_logic_vector" "boolean"
    ∷ binary ">" "std_logic_vector" "integer" "boolean"
    ∷ binary ">=" "integer" "std_logic_vector" "boolean"
    ∷ binary ">=" "std_logic_vector" "integer" "boolean"
    ∷ binary "=" "integer" "std_logic_vector" "boolean"
    ∷ binary "=" "std_logic_vector" "integer" "boolean"
    ∷ binary "/=" "integer" "std_logic_vector" "boolean"
    ∷ binary "/=" "std_logic_vector" "integer" "boolean"
    ∷ binary "<" "integer" "std_ulogic_vector" "boolean"
    ∷ binary "<" "std_ulogic_vector" "integer" "boolean"
    ∷ binary "<=" "integer" "std_ulogic_vector" "boolean"
    ∷ binary "<=" "std_ulogic_vector" "integer" "boolean"
    ∷ binary ">" "integer" "std_ulogic_vector" "boolean"
    ∷ binary ">" "std_ulogic_vector" "integer" "boolean"
    ∷ binary ">=" "integer" "std_ulogic_vector" "boolean"
    ∷ binary ">=" "std_ulogic_vector" "integer" "boolean"
    ∷ binary "=" "integer" "std_ulogic_vector" "boolean"
    ∷ binary "=" "std_ulogic_vector" "integer" "boolean"
    ∷ binary "/=" "integer" "std_ulogic_vector" "boolean"
    ∷ binary "/=" "std_ulogic_vector" "integer" "boolean"
    ∷ []
