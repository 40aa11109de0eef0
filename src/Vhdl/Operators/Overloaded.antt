-- ===== src/Vhdl/Operators/Overloaded.antt =====
-- `_getOverloadedFunctionName` of src/vhdl2hif/PostParsingVisitor_step2.cpp: the function that an
-- expression with an operator is looked up as.
use hif_frontend.Common.{Option, none, some, [], ◌++◌, Bytes, codes}

-- `hif::Operator`, as the switch lists it.
pub data Operator : Type 0 where
  op_bor op_band op_bxor op_bnot op_eq op_neq op_le op_ge op_lt op_gt : Operator
  op_sll op_srl op_sla op_sra op_rol op_ror : Operator
  op_plus op_minus op_mult op_div op_mod op_rem op_pow op_abs op_concat : Operator
  op_case_eq op_case_neq op_xor op_not op_and op_or op_none op_ref op_deref : Operator
  op_andrd op_orrd op_xorrd op_assign op_conv op_bind op_log op_reverse op_size : Operator

-- What a case of the switch adds to the prefix; `none` for the cases that break.
unfoldable pub name_suffix : Operator → Option Bytes
name_suffix op_bor = some (codes "bor")
name_suffix op_band = some (codes "band")
name_suffix op_bxor = some (codes "bxor")
name_suffix op_bnot = some (codes "bnot")
name_suffix op_eq = some (codes "eq")
name_suffix op_neq = some (codes "neq")
name_suffix op_le = some (codes "le")
name_suffix op_ge = some (codes "ge")
name_suffix op_lt = some (codes "lt")
name_suffix op_gt = some (codes "gt")
name_suffix op_sll = some (codes "sll")
name_suffix op_srl = some (codes "srl")
name_suffix op_sla = some (codes "sla")
name_suffix op_sra = some (codes "sra")
name_suffix op_rol = some (codes "rol")
name_suffix op_ror = some (codes "ror")
name_suffix op_plus = some (codes "plus")
name_suffix op_minus = some (codes "minus")
name_suffix op_mult = some (codes "mult")
name_suffix op_div = some (codes "div")
name_suffix op_mod = some (codes "mod")
name_suffix op_rem = some (codes "rem")
name_suffix op_pow = some (codes "pow")
name_suffix op_abs = some (codes "abs")
name_suffix op_concat = some (codes "concat")
name_suffix _ = none

unfoldable pub get_overloaded_function_name : Operator → Bytes
unfolding name_suffix
get_overloaded_function_name oper = elim (name_suffix oper) [
  | some suffix ↦ codes "__vhdl_op_" ++ suffix
  | none ↦ []
]
