-- ===== src/Verilog/Concat/Texts.antt =====
-- The texts of concatenations.
use hif_frontend.Common.{
  ℕ, zero, suc, ◌≤◌, ◌≡◌, refl, sym, ap, ◌∙◌, Bool, true, Option, none, some, List, [], ◌∷◌, ◌++◌,
  append-nil, append_assoc, arith, Bytes, codes, text_eq, leb, replicate,
}
use hif_frontend.Common.Int.{ℤ, pos}
use hif_frontend.Common.Outcome.{ok, int_max}
use hif_frontend.Verilog.Constants.Copies.{
  copies, IsRepeated, copies-IsRepeated, operand_text, fix_iterated_concat-copies,
}
use hif_frontend.Hif.{BitConstant}
use hif_frontend.Verilog.Constants.{Symbol}
use hif_frontend.Verilog.Constants.Replication.{Operand, Call, is_constant, fix_iterated_concat}
use hif_frontend.Verilog.Concat.{
  Value, operand, concat_of, iterated_concat, concat_loop, concat, parse_concatenation, int_count,
  parse_multiple_concatenation,
}

module _ {V : Type 0} (text_of : V → Bytes) where
  -- The text of a value, if it is made of operands by concatenation.
  abbrev join : Option Bytes → Option Bytes → Option Bytes
  join (some s) (some t) = some (s ++ t)
  join _ _ = none

  abbrev pub text : Value V → Option Bytes
  text (operand v) = some (text_of v)
  text (concat_of first second) = join (text first) (text second)
  text (iterated_concat times repeated) = none

  abbrev pub texts : List (Value V) → Option Bytes
  texts [] = some []
  texts (v ∷ vs) = join (text v) (texts vs)

  join_assoc : (a b c : Option Bytes) → join (join a b) c ≡ join a (join b c)
  join_assoc none b c = refl
  join_assoc (some a) none c = refl
  join_assoc (some a) (some b) none = refl
  join_assoc (some a) (some b) (some c) = ap some (append_assoc a b c)

  join_nil : (a : Option Bytes) → join a (some []) ≡ a
  join_nil none = refl
  join_nil (some a) = ap some (append-nil a)

  text-concat_loop :
      (v : Value V) (vs : List (Value V)) → text (concat_loop v vs) ≡ join (text v) (texts vs)
  text-concat_loop v [] = sym (join_nil (text v))
  text-concat_loop v (w ∷ vs) =
      text-concat_loop (concat_of v w) vs ∙ join_assoc (text v) (text w) (texts vs)

  texts-replicate :
      (n : ℕ) (v : Value V) (s : Bytes)
      → text v ≡ some s
      → texts (replicate n v) ≡ some (copies n s)
  texts-replicate zero v s h = refl
  texts-replicate (suc n) v s h = rw (h, texts-replicate n v s h) refl

  -- A concatenation of at least one value is made, and its text is that of the values in order.
  pub parse_concatenation_lem :
      (v : Value V) (vs : List (Value V))
      → (made : Value V) × (parse_concatenation (v ∷ vs) ≡ ok made) × (text made ≡ texts (v ∷ vs))
  unfolding parse_concatenation
  parse_concatenation_lem v vs = (concat_loop v vs, refl, text-concat_loop v vs)

module _ {V C S : Type 0} (text_of : V → Bytes) (collect_symbols : S → List Symbol)
    (transform_constant : Operand C S → Option ℤ) (bit_text : BitConstant → Bytes)
    (simplify : Bool → Call C S → Call C S) where
  -- A replication by a constant from 1 to the largest `int`, of an operand with a text, is made at
  -- once, and its text is that of the operand as often as the count says. The later pass gives the
  -- same text to a call of `iterated_concat` that simplification leaves with a constant count of this
  -- value and a bit or a bit vector of the same text as operand.
  pub parse_multiple_concatenation_lem :
      (n : ℕ) (v : Value V) (s : Bytes) (aggressive : Bool) (call : Call C S) (count : Operand C S)
      → suc n ≤ int_max
      → text text_of v ≡ some s
      → text_eq call.name (codes "iterated_concat") ≡ true
      → (simplify aggressive call).times ≡ some (some count)
      → is_constant count ≡ true
      → transform_constant count ≡ some (pos (suc n))
      → operand_text bit_text (simplify aggressive call).repeated ≡ some s
      → (made : Value V) × (r : Bytes) × (parse_multiple_concatenation (int_count (pos (suc n))) v
          ≡ ok made)
        × (text text_of made ≡ some r)
        × IsRepeated (suc n) s r
        × (fix_iterated_concat collect_symbols transform_constant bit_text simplify aggressive call
            ≡ ok (some r))
  unfolding parse_multiple_concatenation concat
  parse_multiple_concatenation_lem n v s aggressive call count within h named times c t same = (
    concat_loop v (replicate n v),
    copies (suc n) s,
    rw (in_range (suc n) within) refl,
    text-concat_loop text_of v (replicate n v) ∙ texts-replicate text_of (suc n) v s h,
    copies-IsRepeated (suc n) s,
    fix_iterated_concat-copies collect_symbols transform_constant bit_text simplify aggressive call
        count n s named times c t same,
  )
    where
      in_range : (m : ℕ) → m ≤ int_max → leb m int_max ≡ true
      in_range m h = ground arith
