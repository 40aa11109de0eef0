-- ===== src/Vhdl/Operators/Tables/StdLogicSigned.antt =====
-- The overloads that `_addStandardOperatorOverloads` of src/vhdl2hif/PostParsingVisitor_step2.cpp
-- lists for `ieee_std_logic_signed` and `ieee_std_logic_unsigned`.
use hif_frontend.Common.{List, [], ◌∷◌}
use hif_frontend.Vhdl.Operators.{Row, unary, binary}

abbrev pub std_logic_signed : List Row
std_logic_signed =
    binary "+" "std_logic_vector" "integer" "std_logic_vector"
    ∷ binary "+" "integer" "std_logic_vector" "std_logic_vector"
    ∷ binary "+" "std_logic_vector" "std_logic" "std_logic_vector"
    ∷ binary "+" "std_logic" "std_logic_vector" "std_logic_vector"
    ∷ binary "-" "std_logic_vector" "integer" "std_logic_vector"
    ∷ binary "-" "integer" "std_logic_vector" "std_logic_vector"
    ∷ binary "-" "std_logic_vector" "std_logic" "std_logic_vector"
    ∷ binary "-" "std_logic" "std_logic_vector" "std_logic_vector"
    ∷ unary "+" "std_logic_vector" "std_logic_vector"
    ∷ unary "-" "std_logic_vector" "std_logic_vector"
    ∷ binary "<" "std_logic_vector" "std_logic_vector" "boolean"
    ∷ binary "<" "std_logic_vector" "integer" "boolean"
    ∷ binary "<" "integer" "std_logic_vector" "boolean"
    ∷ binary "<=" "std_logic_vector" "std_logic_vector" "boolean"
    ∷ binary "<=" "std_logic_vector" "integer" "boolean"
    ∷ binary "<=" "integer" "std_logic_vector" "boolean"
    ∷ binary ">" "std_logic_vector" "std_logic_vector" "boolean"
    ∷ binary ">" "std_logic_vector" "integer" "boolean"
    ∷ binary ">" "integer" "std_logic_vector" "boolean"
    ∷ binary ">=" "std_logic_vector" "std_logic_vector" "boolean"
    ∷ binary ">=" "std_logic_vector" "integer" "boolean"
    ∷ binary ">=" "integer" "std_logic_vector" "boolean"
    ∷ binary "=" "std_logic_vector" "std_logic_vector" "boolean"
    ∷ binary "=" "std_logic_vector" "integer" "boolean"
    ∷ binary "=" "integer" "std_logic_vector" "boolean"
    ∷ binary "/=" "std_logic_vector" "std_logic_vector" "boolean"
    ∷ binary "/=" "std_logic_vector" "integer" "boolean"
    ∷ binary "/=" "integer" "std_logic_vector" "boolean"
    ∷ []

abbrev pub std_logic_unsigned : List Row
std_logic_unsigned =
    binary "+" "std_logic_vector" "integer" "std_logic_vector"
    ∷ binary "+" "integer" "std_logic_vector" "std_logic_vector"
    ∷ binary "+" "std_logic_vector" "std_logic" "std_logic_vector"
    ∷ binary "+" "std_logic" "std_logic_vector" "std_logic_vector"
    ∷ binary "-" "std_logic_vector" "integer" "std_logic_vector"
    ∷ binary "-" "integer" "std_logic_vector" "std_logic_vector"
    ∷ binary "-" "std_logic_vector" "std_logic" "std_logic_vector"
    ∷ binary "-" "std_logic" "std_logic_vector" "std_logic_vector"
    ∷ unary "+" "std_logic_vector" "std_logic_vector"
    ∷ binary "<" "std_logic_vector" "std_logic_vector" "boolean"
    ∷ binary "<" "std_logic_vector" "integer" "boolean"
    ∷ binary "<" "integer" "std_logic_vector" "boolean"
    ∷ binary "<=" "std_logic_vector" "std_logic_vector" "boolean"
    ∷ binary "<=" "std_logic_vector" "integer" "boolean"
    ∷ binary "<=" "integer" "std_logic_vector" "boolean"
    ∷ binary ">" "std_logic_vector" "std_logic_vector" "boolean"
    ∷ binary ">" "std_logic_vector" "integer" "boolean"
    ∷ binary ">" "integer" "std_logic_vector" "boolean"
    ∷ binary ">=" "std_logic_vector" "std_logic_vector" "boolean"
    ∷ binary ">=" "std_logic_vector" "integer" "boolean"
    ∷ binary ">=" "integer" "std_logic_vector" "boolean"
    ∷ binary "=" "std_logic_vector" "std_logic_vector" "boolean"
    ∷ binary "=" "std_logic_vector" "integer" "boolean"
    ∷ binary "=" "integer" "std_logic_vector" "boolean"
    ∷ binary "/=" "std_logic_vector" "std_logic_vector" "boolean"
    ∷ binary "/=" "std_logic_vector" "integer" "boolean"
    ∷ binary "/=" "integer" "std_logic_vector" "boolean"
    ∷ []
