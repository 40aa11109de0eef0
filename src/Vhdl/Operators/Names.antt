-- ===== src/Vhdl/Operators/Names.antt =====
-- The names of the overloads against the names that expressions are looked up as.
use hif_frontend.Common.{
  ◌≡◌, ◌≢◌, refl, ap, sym, ◌∙◌, ◌⊎◌, inl, inr, Bool, true, false, ◌||◌, Bytes, codes, text_eq,
  text_eq-eq, if◌then◌else◌, Bool-cases,
}
use hif_frontend.Common.Outcome.{Result, ok}
use hif_frontend.Vhdl.Operators.{operator_name}
use hif_frontend.Vhdl.Operators.Overloaded.{
  Operator, op_bor, op_band, op_bxor, op_bnot, op_eq, op_neq, op_le, op_ge, op_lt, op_gt, op_sll,
  op_srl, op_sla, op_sra, op_rol, op_ror, op_plus, op_minus, op_mult, op_div, op_mod, op_rem,
  op_pow, op_abs, op_concat, op_case_eq, op_case_neq, op_xor, op_not, op_and, op_or, op_none,
  op_ref, op_deref, op_andrd, op_orrd, op_xorrd, op_assign, op_conv, op_bind, op_log, op_reverse,
  op_size, name_suffix, get_overloaded_function_name,
}

-- The operator of VHDL that an operator of HIF stands for.
pub data Denotes : Bytes → Operator → Type 0 where
  for_plus : Denotes (codes "+") op_plus
  for_mult : Denotes (codes "*") op_mult
  for_minus : Denotes (codes "-") op_minus
  for_div : Denotes (codes "/") op_div
  for_pow : Denotes (codes "**") op_pow
  for_eq : Denotes (codes "=") op_eq
  for_neq : Denotes (codes "/=") op_neq
  for_gt : Denotes (codes ">") op_gt
  for_lt : Denotes (codes "<") op_lt
  for_ge : Denotes (codes ">=") op_ge
  for_le : Denotes (codes "<=") op_le
  for_mod : Denotes (codes "mod") op_mod
  for_rem : Denotes (codes "rem") op_rem
  for_sll : Denotes (codes "sll") op_sll
  for_srl : Denotes (codes "srl") op_srl
  for_sla : Denotes (codes "sla") op_sla
  for_sra : Denotes (codes "sra") op_sra
  for_rol : Denotes (codes "rol") op_rol
  for_ror : Denotes (codes "ror") op_ror
  for_bnot : Denotes (codes "not") op_bnot
  for_band : Denotes (codes "and") op_band
  for_bor : Denotes (codes "or") op_bor
  for_bxor : Denotes (codes "xor") op_bxor
  for_concat : Denotes (codes "&") op_concat

-- Operators without one.
pub data IsUnreachable : Bytes → Type 0 where
  abs : IsUnreachable (codes "abs")
  nor : IsUnreachable (codes "nor")
  nand : IsUnreachable (codes "nand")
  xnor : IsUnreachable (codes "xnor")

abbrev pub NeverLookedUp : Bytes → Type 0
NeverLookedUp name = (oper : Operator) → get_overloaded_function_name oper ≢ name

abbrev pub LookedUp : (op name : Bytes) → Type 0
LookedUp op name =
    (oper : Operator) × (Denotes op oper) × (get_overloaded_function_name oper ≡ name)

abbrev Named : Bytes → Result Bytes → Type 0
Named op m =
    (name : Bytes) → m ≡ ok name → LookedUp op name ⊎ ((IsUnreachable op) × (NeverLookedUp name))

-- The operators with a name of their own for `abs`, `nor`, `nand` and `xnor`: there are none.
unused_name : Bytes → Bool
unfolding text_eq
unused_name name =
    text_eq name (codes "__vhdl_abs")
    || (text_eq name (codes "__vhdl_op_nor")
        || (text_eq name (codes "__vhdl_op_nand") || text_eq name (codes "__vhdl_op_xnor")))

used_name : (oper : Operator) → unused_name (get_overloaded_function_name oper) ≡ false
unfolding unused_name get_overloaded_function_name name_suffix
used_name op_bor = refl
used_name op_band = refl
used_name op_bxor = refl
used_name op_bnot = refl
used_name op_eq = refl
used_name op_neq = refl
used_name op_le = refl
used_name op_ge = refl
used_name op_lt = refl
used_name op_gt = refl
used_name op_sll = refl
used_name op_srl = refl
used_name op_sla = refl
used_name op_sra = refl
used_name op_rol = refl
used_name op_ror = refl
used_name op_plus = refl
used_name op_minus = refl
used_name op_mult = refl
used_name op_div = refl
used_name op_mod = refl
used_name op_rem = refl
used_name op_pow = refl
used_name op_abs = refl
used_name op_concat = refl
used_name op_case_eq = refl
used_name op_case_neq = refl
used_name op_xor = refl
used_name op_not = refl
used_name op_and = refl
used_name op_or = refl
used_name op_none = refl
used_name op_ref = refl
used_name op_deref = refl
used_name op_andrd = refl
used_name op_orrd = refl
used_name op_xorrd = refl
used_name op_assign = refl
used_name op_conv = refl
used_name op_bind = refl
used_name op_log = refl
used_name op_reverse = refl
used_name op_size = refl

never_looked_up : (name : Bytes) → unused_name name ≡ true → NeverLookedUp name
never_looked_up name h oper e = go (unused_name name) h (ap unused_name (sym e) ∙ used_name oper)
  where
    go : (b : Bool) → b ≡ true → b ≡ false → ⊥
    go b h k = cc

named :
    (op word : Bytes) (oper : Operator)
    → Denotes word oper
    → op ≡ word
    → Named op (ok (get_overloaded_function_name oper))
named op word oper d e name h = inl (oper, rw e d, cc)

unreachable :
    (op word name : Bytes)
    → IsUnreachable word
    → unused_name name ≡ true
    → op ≡ word
    → Named op (ok name)
unreachable op word name u h e name' k =
    inr (rw e u, (let same : name ≡ name' = cc in rw (← same) (never_looked_up name h)))

-- One rung of the ladder.
rung :
    (op word : Bytes) {x y : Result Bytes}
    → (op ≡ word → Named op x)
    → Named op y
    → Named op (if text_eq op word then x else y)
rung op word {x} {y} h k = elim (Bool-cases (text_eq op word)) [
  | inl e ↦ rw e (h (text_eq-eq op word e))
  | inr e ↦ rw e k
]

-- An overload that gets a name is that of an operator that an operator of HIF stands for, and the
-- name is the one that expressions of that operator of HIF are looked up as; or the overload is that
-- of `abs`, `nor`, `nand` or `xnor`, and no expression is looked up under the name.
pub operator_name-get_overloaded_function_name :
    (op name : Bytes)
    → operator_name op ≡ ok name
    → LookedUp op name ⊎ ((IsUnreachable op) × (NeverLookedUp name))
unfolding operator_name get_overloaded_function_name name_suffix unused_name text_eq
operator_name-get_overloaded_function_name op =
    rung op (codes "abs") (unreachable op (codes "abs") (codes "__vhdl_abs") abs refl) (
      rung op (codes "+") (named op (codes "+") op_plus for_plus) (
        rung op (codes "*") (named op (codes "*") op_mult for_mult) (
          rung op (codes "-") (named op (codes "-") op_minus for_minus) (
            rung op (codes "/") (named op (codes "/") op_div for_div) (
              rung op (codes "**") (named op (codes "**") op_pow for_pow) (
                rung op (codes "=") (named op (codes "=") op_eq for_eq) (
                  rung op (codes "/=") (named op (codes "/=") op_neq for_neq) (
                    rung op (codes ">") (named op (codes ">") op_gt for_gt) (
                      rung op (codes "<") (named op (codes "<") op_lt for_lt) (
                        rung op (codes ">=") (named op (codes ">=") op_ge for_ge) (
                          rung op (codes "<=") (named op (codes "<=") op_le for_le) (
                            rung op (codes "mod") (named op (codes "mod") op_mod for_mod) (
                              rung op (codes "rem") (named op (codes "rem") op_rem for_rem) (
                                rung op (codes "sll") (named op (codes "sll") op_sll for_sll) (
                                  rung op (codes "srl") (named op (codes "srl") op_srl for_srl) (
                                    rung op (codes "sla") (named op (codes "sla") op_sla for_sla) (
                                      rung op (codes "sra") (named op (codes "sra") op_sra for_sra)
                                        (rung op (codes "rol")
                                          (named op (codes "rol") op_rol for_rol)
                                          (rung op (codes "ror")
                                            (named op (codes "ror") op_ror for_ror)
                                            (rung op (codes "not")
                                              (named op (codes "not") op_bnot for_bnot)
                                              (rung op (codes "and")
                                                (named op (codes "and") op_band for_band)
                                                (rung op (codes "or")
                                                  (named op (codes "or") op_bor for_bor)
                                                  (rung op (codes "xor")
                                                    (named op (codes "xor") op_bxor for_bxor)
                                                    (rung op (codes "&")
                                                      (named op (codes "&") op_concat for_concat)
                                                      (rung op (codes "nor")
                                                        (unreachable op (codes "nor")
                                                          (codes "__vhdl_op_nor") nor refl)
                                                        (rung op (codes "nand")
                                                          (unreachable op (codes "nand")
                                                            (codes "__vhdl_op_nand") nand refl)
                                                          (rung op (codes "xnor")
                                                            (unreachable op (codes "xnor")
                                                            (codes "__vhdl_op_xnor") xnor refl)
                                                            (λ name h.
                                                            absurd (cc)))))))))))))))))))))))))))))
