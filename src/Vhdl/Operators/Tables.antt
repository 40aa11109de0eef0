-- ===== src/Vhdl/Operators/Tables.antt =====
-- The overloads that each standard library gets.
pub mod NumericStd
pub mod StdLogicArith
pub mod StdLogic
pub mod NumericBit
pub mod StdLogicSigned
use hif_frontend.Common.{Bool, true, false, List, [], Bytes, codes, text_eq, if◌then◌else◌}
use hif_frontend.Vhdl.Operators.{Row}
use NumericStd.{numeric_std}
use StdLogicArith.{std_logic_arith}
use StdLogic.{std_logic_1164, std_logic_arith_ex}
use NumericBit.{numeric_bit}
use StdLogicSigned.{std_logic_signed, std_logic_unsigned}

-- The ladder on the name of the library.
unfoldable pub rows_of : Bytes → List Row
unfolding text_eq
rows_of name =
    if text_eq name (codes "ieee_numeric_std")
    then numeric_std
    else if text_eq name (codes "ieee_std_logic_arith")
    then std_logic_arith
    else if text_eq name (codes "ieee_std_logic_1164")
    then std_logic_1164
    else if text_eq name (codes "ieee_std_logic_arith_ex")
    then std_logic_arith_ex
    else if text_eq name (codes "ieee_numeric_bit")
    then numeric_bit
    else if text_eq name (codes "ieee_std_logic_signed")
    then std_logic_signed
    else if text_eq name (codes "ieee_std_logic_unsigned")
    then std_logic_unsigned
    else []

if_holds {ℓ κ} :
    {A : Type ℓ} (P : A → Type κ) (b : Bool) {x y : A} → P x → P y → P (if b then x else y)
if_holds P true h k = h
if_holds P false h k = k

-- What each of the seven tables and the empty one have, the table of any library has.
pub rows_of_all {κ} :
    (P : List Row → Type κ)
    → P numeric_std
    → P std_logic_arith
    → P std_logic_1164
    → P std_logic_arith_ex
    → P numeric_bit
    → P std_logic_signed
    → P std_logic_unsigned
    → P []
    → (name : Bytes) → P (rows_of name)
unfolding rows_of
rows_of_all P a b c d e f g h name = if_holds P (text_eq name (codes "ieee_numeric_std")) a (
    if_holds P (text_eq name (codes "ieee_std_logic_arith")) b (
      if_holds P (text_eq name (codes "ieee_std_logic_1164")) c (
        if_holds P (text_eq name (codes "ieee_std_logic_arith_ex")) d (
          if_holds P (text_eq name (codes "ieee_numeric_bit")) e (
            if_holds P (text_eq name (codes "ieee_std_logic_signed")) f
              (if_holds P (text_eq name (codes "ieee_std_logic_unsigned")) g h))))))
