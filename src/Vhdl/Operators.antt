-- ===== src/Vhdl/Operators.antt =====
-- `_parseOperator`, `_makeParam`, `_makeReturnType` and `_makeType` of
-- src/vhdl2hif/PostParsingVisitor_step2.cpp: the declaration of one overload of an operator.
pub mod Tables
pub mod Standard
pub mod Overloaded
pub mod Names
pub mod Types
pub mod Distinct
mod Tests
use Prim.Native.String.{String}
use hif_frontend.Common.{
  true, false, Option, none, some, List, [], ◌∷◌, ◌++◌, Bytes, codes, text_eq, if◌then◌else◌,
}
use hif_frontend.Common.Int.{pos}
use hif_frontend.Common.Outcome.{Result, ok, err, fatal, ◌>>=◌}
use hif_frontend.Hif.{
  identifier, Range, int_range, bounds, dir_downto, HifType, bit, boolean, bitvector, unsigned,
  signed, type_reference,
}

-- The arguments of one call of `_parseOperator`; `param3` is empty unless it is given.
pub record Row : Type 0 where
  pub op : Bytes
  pub param1 : Bytes
  pub param2 : Bytes
  pub param3 : Bytes

abbrev pub unary : String → String → String → Row
unary op param1 param2 = record {
  op = codes op;
  param1 = codes param1;
  param2 = codes param2;
  param3 = [];
}

abbrev pub binary : String → String → String → String → Row
binary op param1 param2 param3 = record {
  op = codes op;
  param1 = codes param1;
  param2 = codes param2;
  param3 = codes param3;
}

pub record Parameter (R : Type 0) : Type 0 where
  pub name : Bytes
  pub type : HifType R

-- A `Function`; its template parameters are all integers, so their names are enough.
pub record Function (R : Type 0) : Type 0 where
  pub name : Bytes
  pub template_parameters : List Bytes
  pub parameters : List (Parameter R)
  pub type : Option (HifType R)

-- The ladder that names the function.
pub operator_name : Bytes → Result Bytes
unfolding text_eq
operator_name op =
    if text_eq op (codes "abs")
    then ok (codes "__vhdl_abs")
    else if text_eq op (codes "+")
    then ok (codes "__vhdl_op_plus")
    else if text_eq op (codes "*")
    then ok (codes "__vhdl_op_mult")
    else if text_eq op (codes "-")
    then ok (codes "__vhdl_op_minus")
    else if text_eq op (codes "/")
    then ok (codes "__vhdl_op_div")
    else if text_eq op (codes "**")
    then ok (codes "__vhdl_op_pow")
    else if text_eq op (codes "=")
    then ok (codes "__vhdl_op_eq")
    else if text_eq op (codes "/=")
    then ok (codes "__vhdl_op_neq")
    else if text_eq op (codes ">")
    then ok (codes "__vhdl_op_gt")
    else if text_eq op (codes "<")
    then ok (codes "__vhdl_op_lt")
    else if text_eq op (codes ">=")
    then ok (codes "__vhdl_op_ge")
    else if text_eq op (codes "<=")
    then ok (codes "__vhdl_op_le")
    else if text_eq op (codes "mod")
    then ok (codes "__vhdl_op_mod")
    else if text_eq op (codes "rem")
    then ok (codes "__vhdl_op_rem")
    else if text_eq op (codes "sll")
    then ok (codes "__vhdl_op_sll")
    else if text_eq op (codes "srl")
    then ok (codes "__vhdl_op_srl")
    else if text_eq op (codes "sla")
    then ok (codes "__vhdl_op_sla")
    else if text_eq op (codes "sra")
    then ok (codes "__vhdl_op_sra")
    else if text_eq op (codes "rol")
    then ok (codes "__vhdl_op_rol")
    else if text_eq op (codes "ror")
    then ok (codes "__vhdl_op_ror")
    else if text_eq op (codes "not")
    then ok (codes "__vhdl_op_bnot")
    else if text_eq op (codes "and")
    then ok (codes "__vhdl_op_band")
    else if text_eq op (codes "or")
    then ok (codes "__vhdl_op_bor")
    else if text_eq op (codes "xor")
    then ok (codes "__vhdl_op_bxor")
    else if text_eq op (codes "&")
    then ok (codes "__vhdl_op_concat")
    else if text_eq op (codes "nor")
    then ok (codes "__vhdl_op_nor")
    else if text_eq op (codes "nand")
    then ok (codes "__vhdl_op_nand")
    else if text_eq op (codes "xnor")
    then ok (codes "__vhdl_op_xnor")
    else err (fatal "Unexpected operator")

-- `integer` is what the library's `_factory.integer()` returns.
module _ {R : Type 0} (integer : HifType R) where
  -- The range of a vector, at position 0 a fixed one and else between two template parameters.
  abbrev pub span_at : Bytes → Range R
  unfolding text_eq
  span_at place =
      if text_eq place (codes "0")
      then int_range (pos 31) (pos 0)
      else bounds (identifier (codes "left" ++ place)) dir_downto
          (identifier (codes "right" ++ place))

  -- `if (addTemplate)`, for a vector.
  abbrev pub add_template : Bytes → Function R → Function R
  unfolding text_eq
  add_template place sub = if text_eq place (codes "0") then sub else record sub {
    template_parameters =
        sub.template_parameters ++ (codes "left" ++ place) ∷ (codes "right" ++ place) ∷ [];
  }

  pub make_type : Function R → Bytes → Bytes → Result (Function R × HifType R)
  unfolding text_eq
  make_type sub type place =
      if text_eq type (codes "signed")
      then ok (add_template place sub, signed (some (span_at place)))
      else if text_eq type (codes "unsigned")
      then ok (add_template place sub, unsigned (some (span_at place)))
      else if text_eq type (codes "integer")
      then ok (sub, integer)
      else if text_eq type (codes "natural")
      then ok (sub, integer)
      else if text_eq type (codes "std_logic_vector")
      then ok (add_template place sub, bitvector true true (span_at place))
      else if text_eq type (codes "std_ulogic_vector")
      then ok (add_template place sub, bitvector true false (span_at place))
      else if text_eq type (codes "std_logic")
      then ok (sub, bit true true)
      else if text_eq type (codes "std_ulogic")
      then ok (sub, bit true false)
      else if text_eq type (codes "boolean")
      then ok (sub, boolean)
      else if text_eq type (codes "ux01")
      then ok (sub, type_reference (codes "ux01") [])
      else err (fatal "Unexpected type")

  pub make_param : Function R → Bytes → Bytes → Result (Function R)
  unfolding make_type
  make_param sub place type = do
    (sub, t) ← make_type sub type place
    ok (record sub {
      parameters = sub.parameters ++ record { name = codes "param" ++ place; type = t } ∷ [];
    })

  pub make_return_type : Function R → Bytes → Result (Function R)
  unfolding make_type
  make_return_type sub type = do
    (sub, t) ← make_type sub type (codes "0")
    ok (record sub { type = some t })

  -- `_parseOperator` up to the two insertions: the new function.
  pub parse_operator : Row → Result (Function R)
  unfolding operator_name make_param make_return_type
  parse_operator row = do
    name ← operator_name row.op
    let sub : Function R = record {
      name = name;
      template_parameters = [];
      parameters = [];
      type = none;
    }
    sub ← make_param sub (codes "1") row.param1
    elim row.param3 [
      | [] ↦ make_return_type sub row.param2
      | _ ↦ (do sub ← make_param sub (codes "2") row.param2; make_return_type sub row.param3)
    ]
