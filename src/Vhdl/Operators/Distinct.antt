-- ===== src/Vhdl/Operators/Distinct.antt =====
-- The overloads of one library against each other.
use hif_frontend.Common.{
  ◌≡◌, refl, Bool, true, false, not, ◌&&◌, List, [], ◌∷◌, Bytes, codes, text_eq, if◌then◌else◌, all,
  All,
}
use hif_frontend.Vhdl.Operators.{Row}
use hif_frontend.Vhdl.Operators.Tables.{rows_of, rows_of_all}
use hif_frontend.Vhdl.Operators.Tables.NumericStd.{numeric_std}
use hif_frontend.Vhdl.Operators.Tables.StdLogicArith.{std_logic_arith}
use hif_frontend.Vhdl.Operators.Tables.StdLogic.{std_logic_1164, std_logic_arith_ex}
use hif_frontend.Vhdl.Operators.Tables.NumericBit.{numeric_bit}
use hif_frontend.Vhdl.Operators.Tables.StdLogicSigned.{std_logic_signed, std_logic_unsigned}

-- The type of a parameter, as far as a call can tell: `natural` is the integer type.
abbrev pub same_type : Bytes → Bytes → Bool
same_type s t =
    let as_integer : Bytes → Bytes =
      λ u. if text_eq u (codes "natural") then codes "integer" else u in
    text_eq (as_integer s) (as_integer t)

abbrev is_unary : Row → Bool
is_unary row = text_eq row.param3 []

-- The same operator on the same types of operands.
abbrev pub same_operands : Row → Row → Bool
same_operands r s =
    text_eq r.op s.op
    && same_type r.param1 s.param1
    && (if is_unary r then is_unary s else not (is_unary s) && same_type r.param2 s.param2)

-- No two rows agree in the operator and the types of the operands.
abbrev pub DistinctRows : List Row → Type 0
DistinctRows [] = Unit
DistinctRows (r ∷ rs) = All (λ s. same_operands r s ≡ false) rs × DistinctRows rs

abbrev distinct : List Row → Bool
distinct [] = true
distinct (r ∷ rs) = if all (λ s. not (same_operands r s)) rs then distinct rs else false

all_sound :
    (r : Row) (rs : List Row)
    → all (λ s. not (same_operands r s)) rs ≡ true
    → All (λ s. same_operands r s ≡ false) rs
all_sound r [] h = tt
all_sound r (s ∷ rs) h = go (same_operands r s) refl h (λ k. all_sound r rs k)
  where
    go :
        (b : Bool)
        → same_operands r s ≡ b
        → (if not b then all (λ s. not (same_operands r s)) rs else false) ≡ true
        → (all (λ s. not (same_operands r s)) rs ≡ true → All (λ s. same_operands r s ≡ false) rs)
        → All (λ s. same_operands r s ≡ false) (s ∷ rs)
    go true e h rest = cc
    go false e h rest = (e, rest h)

distinct_sound : (rs : List Row) → distinct rs ≡ true → DistinctRows rs
distinct_sound [] h = tt
distinct_sound (r ∷ rs) h =
    go (all (λ s. not (same_operands r s)) rs) refl h (λ k. distinct_sound rs k)
  where
    go :
        (b : Bool)
        → all (λ s. not (same_operands r s)) rs ≡ b
        → (if b then distinct rs else false) ≡ true
        → (distinct rs ≡ true → DistinctRows rs)
        → DistinctRows (r ∷ rs)
    go true e h rest = (all_sound r rs e, rest h)
    go false e h rest = cc

-- The table of a library never has two overloads of one operator for operands of the same types,
-- where `natural` and `integer` are one type.
pub rows_of-DistinctRows : (name : Bytes) → DistinctRows (rows_of name)
unfolding text_eq
rows_of-DistinctRows =
    rows_of_all DistinctRows (distinct_sound numeric_std refl) (distinct_sound std_logic_arith refl)
      (distinct_sound std_logic_1164 refl) (distinct_sound std_logic_arith_ex refl)
      (distinct_sound numeric_bit refl) (distinct_sound std_logic_signed refl)
      (distinct_sound std_logic_unsigned refl) tt
