-- ===== src/Verilog/Constants/Replication.antt =====
-- `_fixSystemTaskCalls`, `_checkReplicationCount` and `_fixiteratedConcat` of
-- src/verilog2hif/FixDescription_1.cpp: the names of system functions, and `{n{v}}`.
use hif_frontend.Common.{
  ℕ, zero, suc, Bool, true, false, not, ◌&&◌, ◌||◌, Option, none, some, List, [], ◌∷◌, ◌++◌, map,
  Bytes, codes, ◌==◌, if◌then◌else◌, text_eq,
}
use hif_frontend.Common.Int.{ℤ, pos, negsuc}
use hif_frontend.Common.Outcome.{Result, ok, err, fatal, undefined, ◌>>◌, message_assert}
use hif_frontend.Common.Search.{starts_with}
use hif_frontend.Hif.{BitConstant}
use hif_frontend.Verilog.Constants.{Declaration, Symbol, is_data}

-- `std::replace(…, '$', '_')`.
abbrev pub dollars_replaced : Bytes → Bytes
dollars_replaced s = map (λ c. if c == b'$' then b'_' else c) s

-- The name that `_fixSystemTaskCalls` gives a call; that of no character stays.
unfoldable pub fix_system_name : Bytes → Bytes
fix_system_name [] = []
fix_system_name (c ∷ s) = if c == b'$' then codes "_system" ++ dollars_replaced (c ∷ s) else c ∷ s

-- The calls that are not supported, by their new names.
abbrev monitor_names : List Bytes
monitor_names =
    codes "_system_monitor"
    ∷ codes "_system_monitorb"
    ∷ codes "_system_monitoro"
    ∷ codes "_system_monitorh"
    ∷ codes "_system_fmonitor"
    ∷ codes "_system_fmonitorb"
    ∷ codes "_system_fmonitoro"
    ∷ codes "_system_fmonitorh"
    ∷ codes "_system_monitoron"
    ∷ codes "_system_monitoroff"
    ∷ []

abbrev is_listed : Bytes → List Bytes → Bool
is_listed name [] = false
is_listed name (other ∷ others) = text_eq name other || is_listed name others

-- The name after the call, and whether the call goes to the trash.
unfoldable pub fix_system_task_call : Bytes → Bytes × Bool
unfolding fix_system_name
fix_system_task_call [] = ([], false)
fix_system_task_call (c ∷ s) =
    let name = fix_system_name (c ∷ s) in
    (name, if c == b'$' then is_listed name monitor_names else false)

-- The test of `_checkReplicationCount` on a name: a system function other than `$clog2`.
unfoldable pub is_run_time_name : Bytes → Bool
is_run_time_name name =
    starts_with (codes "_system_") name && not (text_eq name (codes "_system_clog2"))

abbrev pub is_run_time_call : Option Bytes → Bool
is_run_time_call none = false
is_run_time_call (some name) = is_run_time_name name

-- What a symbol of a count reads; of a message, the part that is fixed.
abbrev pub check_declaration : Option Declaration → Result (Unit {0})
check_declaration none = ok tt
check_declaration (some decl) =
    if decl.is_genvar
    then ok tt
    else if is_data decl.class
    then err (fatal "Replication count is not a constant expression: it reads")
    else ok tt

-- The loop over the symbols of a count.
unfoldable pub count_loop : List Symbol → Result (Unit {0})
unfolding is_run_time_name
count_loop [] = ok tt
count_loop (symbol ∷ symbols) =
    let rest = count_loop symbols in
    if is_run_time_call symbol.call_name
    then err (fatal "Replication count is not a constant expression: it calls the system function")
    else if symbol.is_library_instance
    then rest
    else check_declaration symbol.declaration >> rest

-- A value, as the two routines tell them apart: `C` are the constants that are neither a bit nor a
-- bit vector, and `V` the values that are no constants.
pub data Operand (C V : Type 0) : Type 0 where
  bit_operand : BitConstant → Operand C V
  bitvector_operand : Bytes → Operand C V
  constant_operand : C → Operand C V
  symbolic_operand : V → Operand C V

-- A call: its name, the value of its first template argument if that is a value, and the value of its
-- first argument.
pub record Call (C V : Type 0) : Type 0 where
  pub name : Bytes
  pub times : Option (Option (Operand C V))
  pub repeated : Operand C V

-- `res += val`, as often as the count says.
unfoldable pub repeat_loop : ℕ → Bytes → Bytes → Bytes
repeat_loop zero val res = res
repeat_loop (suc n) val res = repeat_loop n val (res ++ val)

abbrev pub is_constant : {C V : Type 0} → Operand C V → Bool
is_constant (symbolic_operand v) = false
is_constant _ = true

module _ {C V : Type 0} (collect_symbols : V → List Symbol) where
  abbrev pub check_times : Option (Option (Operand C V)) → Result (Unit {0})
  check_times (some (some (symbolic_operand v))) = count_loop (collect_symbols v)
  check_times _ = ok tt

  unfoldable pub check_replication_count : Call C V → Result (Unit {0})
  check_replication_count call = check_times call.times

  -- The two operands with `aggressive`: the new text, or `none` when the call stays. Of the library,
  -- `transform_constant` returns the 64 bits of a constant if it is an integer, and `bit_text` is
  -- `BitValue::toString`.
  module _ (transform_constant : Operand C V → Option ℤ) (bit_text : BitConstant → Bytes) where
    unfoldable pub repeated_text : ℤ → Operand C V → Result (Option Bytes)
    unfolding repeat_loop
    repeated_text (negsuc n) repeated = err (fatal "Cannot transform const value to int value")
    repeated_text (pos zero) repeated = err (fatal "Cannot transform const value to int value")
    repeated_text (pos (suc n)) (bit_operand b) = ok (some (repeat_loop (suc n) (bit_text b) []))
    repeated_text (pos (suc n)) (bitvector_operand s) = ok (some (repeat_loop (suc n) s []))
    repeated_text (pos (suc n)) _ = err (fatal "Unexpected second parameter type")

    abbrev pub repeated_value : Option ℤ → Operand C V → Result (Option Bytes)
    repeated_value none repeated = err (fatal "Cannot transform const value to int value")
    repeated_value (some n) repeated = repeated_text n repeated

    unfoldable pub fix_operands : Bool → Operand C V → Operand C V → Result (Option Bytes)
    fix_operands aggressive count repeated = do
      message_assert (not aggressive || is_constant count)
          "Unexpected non-const value first parameter assign"
      message_assert (not aggressive || is_constant repeated)
          "Unexpected non-const value second parameter assign"
      if is_constant count && is_constant repeated
          then repeated_value (transform_constant count) repeated
          else ok none

    -- For a first template argument that is no value the source follows a null pointer.
    abbrev pub fix_times :
        Bool → Option (Option (Operand C V)) → Operand C V → Result (Option Bytes)
    fix_times aggressive none repeated = err undefined
    fix_times true (some none) repeated =
        err (fatal "Unexpected non-const value first parameter assign")
    fix_times false (some none) repeated = ok none
    fix_times aggressive (some (some count)) repeated = fix_operands aggressive count repeated

    -- After `simplify`.
    unfoldable pub fix_simplified : Bool → Call C V → Result (Option Bytes)
    fix_simplified aggressive call = do
      check_replication_count call
      fix_times aggressive call.times call.repeated

    -- `simplify` is the library's, with the options that `aggressive` sets.
    unfoldable pub fix_iterated_concat :
        (simplify : Bool → Call C V → Call C V) → Bool → Call C V → Result (Option Bytes)
    fix_iterated_concat simplify aggressive call =
        if text_eq call.name (codes "iterated_concat")
        then fix_simplified aggressive (simplify aggressive call)
        else ok none
