-- ===== src/Verilog/Constants/Copies.antt =====
-- What a replication of constants becomes.
use hif_frontend.Common.{
  ℕ, zero, suc, ◌+◌, ◌*◌, ◌<◌, ◌≡◌, refl, ap, sym, ◌∙◌, Bool, true, false, Option, none, some, List,
  [], ◌∷◌, ◌++◌, append-nil, append_assoc, arith, Bytes, codes, length, length-append, take, drop,
  text_eq,
}
use hif_frontend.Common.Int.{ℤ, pos}
use hif_frontend.Common.Text.{take-append}
use hif_frontend.Common.Outcome.{ok}
use hif_frontend.Hif.{BitConstant}
use hif_frontend.Verilog.Constants.{Symbol}
use hif_frontend.Verilog.Constants.Replication.{
  repeat_loop, Operand, bit_operand, bitvector_operand, constant_operand, symbolic_operand,
  is_constant, check_times, Call, check_replication_count, repeated_text, fix_operands,
  fix_simplified, fix_iterated_concat,
}

abbrev pub copies : ℕ → Bytes → Bytes
copies zero s = []
copies (suc n) s = s ++ copies n s

repeat_loop-copies : (n : ℕ) (val res : Bytes) → repeat_loop n val res ≡ res ++ copies n val
unfolding repeat_loop
repeat_loop-copies zero val res = sym (append-nil res)
repeat_loop-copies (suc n) val res =
    repeat_loop-copies n val (res ++ val) ∙ append_assoc res val (copies n val)

length-copies : (n : ℕ) (s : Bytes) → length (copies n s) ≡ n * length s
length-copies zero s = omega arith
length-copies (suc n) s = length-append s (copies n s) ∙ rw (length-copies n s) (go n (length s))
  where
    go : (n l : ℕ) → l + n * l ≡ suc n * l
    go n l = grind arith

drop-append_sum : (k : ℕ) (s t : Bytes) → drop (length s + k) (s ++ t) ≡ drop k t
drop-append_sum k [] t = ap (λ m. drop m t) (go k)
  where
    go : (k : ℕ) → 0 + k ≡ k
    go k = omega arith
drop-append_sum k (c ∷ s) t =
    ap (λ m. drop m (c ∷ (s ++ t))) (go (length s) k) ∙ drop-append_sum k s t
  where
    go : (l k : ℕ) → suc l + k ≡ suc (l + k)
    go l k = omega arith

suc_rounds : (j l : ℕ) → suc j * l ≡ l + j * l
suc_rounds j l = grind arith

no_rounds : (l : ℕ) → 0 * l ≡ 0
no_rounds l = omega arith

copies-at : (n j : ℕ) (s : Bytes) → j < n → take (length s) (drop (j * length s) (copies n s)) ≡ s
copies-at zero j s h = absurd (omega arith)
copies-at (suc n) zero s h =
    ap (λ m. take (length s) (drop m (s ++ copies n s))) (no_rounds (length s))
    ∙ take-append s (copies n s)
copies-at (suc n) (suc j) s h =
    ap (λ m. take (length s) (drop m (s ++ copies n s))) (suc_rounds j (length s))
    ∙ ap (take (length s)) (drop-append_sum (j * length s) s (copies n s))
    ∙ copies-at n j s (omega arith)

-- The text of a bit or of a bit vector.
abbrev pub operand_text : {C V : Type 0} → (BitConstant → Bytes) → Operand C V → Option Bytes
operand_text bit_text (bit_operand b) = some (bit_text b)
operand_text bit_text (bitvector_operand s) = some s
operand_text bit_text _ = none

ap_text :
    (a b : Bytes) (n : ℕ)
    → some a ≡ some b
    → ok (some (repeat_loop (suc n) a [])) ≡ ok (some (repeat_loop (suc n) b []))
ap_text a b n h = let e : a ≡ b = cc in ap (λ x. ok (some (repeat_loop (suc n) x []))) e

-- `r` is `n` times the text of the operand.
abbrev pub IsRepeated : ℕ → Bytes → Bytes → Type 0
IsRepeated n s r =
    (length r ≡ n * length s) × ((j : ℕ) → j < n → take (length s) (drop (j * length s) r) ≡ s)

pub copies-IsRepeated : (n : ℕ) (s : Bytes) → IsRepeated n s (copies n s)
copies-IsRepeated n s = (length-copies n s, λ j h. copies-at n j s h)

module _ {C V : Type 0} (collect_symbols : V → List Symbol)
    (transform_constant : Operand C V → Option ℤ) (bit_text : BitConstant → Bytes) where
  operands_lem :
      (aggressive : Bool) (count repeated : Operand C V) (n : ℕ) (s : Bytes)
      → is_constant count ≡ true
      → transform_constant count ≡ some (pos (suc n))
      → operand_text bit_text repeated ≡ some s
      → fix_operands collect_symbols transform_constant bit_text aggressive count repeated
        ≡ ok (some (repeat_loop (suc n) s []))
  unfolding fix_operands repeated_text
  operands_lem true count (bit_operand b) n s c t r = rw (c, t) (ap_text (bit_text b) s n r)
  operands_lem false count (bit_operand b) n s c t r = rw (c, t) (ap_text (bit_text b) s n r)
  operands_lem true count (bitvector_operand b) n s c t r = rw (c, t) (ap_text b s n r)
  operands_lem false count (bitvector_operand b) n s c t r = rw (c, t) (ap_text b s n r)
  operands_lem aggressive count (constant_operand b) n s c t r = cc
  operands_lem aggressive count (symbolic_operand b) n s c t r = cc

  times_lem :
      (count : Operand C V)
      → is_constant count ≡ true
      → check_times collect_symbols (some (some count)) ≡ ok tt
  times_lem (bit_operand b) h = refl
  times_lem (bitvector_operand b) h = refl
  times_lem (constant_operand b) h = refl
  times_lem (symbolic_operand b) h = cc

  pub fix_iterated_concat-copies :
      (simplify : Bool → Call C V → Call C V) (aggressive : Bool) (call : Call C V)
      (count : Operand C V) (n : ℕ) (s : Bytes)
      → text_eq call.name (codes "iterated_concat") ≡ true
      → (simplify aggressive call).times ≡ some (some count)
      → is_constant count ≡ true
      → transform_constant count ≡ some (pos (suc n))
      → operand_text bit_text (simplify aggressive call).repeated ≡ some s
      → fix_iterated_concat collect_symbols transform_constant bit_text simplify aggressive call
        ≡ ok (some (copies (suc n) s))
  unfolding fix_iterated_concat fix_simplified check_replication_count
  fix_iterated_concat-copies simplify aggressive call count n s h e c t r =
      rw
        (
          h,
          e,
          times_lem count c,
          operands_lem aggressive count (simplify aggressive call).repeated n s c t r,
          repeat_loop-copies (suc n) s [],
        )
        refl

  -- After simplification, if the count is a constant that stands for a positive number of 64 bits and
  -- the operand is a bit or a bit vector, the routine replaces the call by the text of the operand as
  -- often as the count says: its length is the product, and each of its parts is the text.
  pub fix_iterated_concat_lem :
      (simplify : Bool → Call C V → Call C V) (aggressive : Bool) (call : Call C V)
      (count : Operand C V) (n : ℕ) (s : Bytes)
      → text_eq call.name (codes "iterated_concat") ≡ true
      → (simplify aggressive call).times ≡ some (some count)
      → is_constant count ≡ true
      → transform_constant count ≡ some (pos (suc n))
      → operand_text bit_text (simplify aggressive call).repeated ≡ some s
      → (r : Bytes) × (fix_iterated_concat collect_symbols transform_constant bit_text simplify
            aggressive call
          ≡ ok (some r))
        × IsRepeated (suc n) s r
  fix_iterated_concat_lem simplify aggressive call count n s h e c t r = (
    copies (suc n) s,
    fix_iterated_concat-copies simplify aggressive call count n s h e c t r,
    copies-IsRepeated (suc n) s,
  )
