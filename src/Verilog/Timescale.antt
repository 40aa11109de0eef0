-- ===== src/Verilog/Timescale.antt =====
-- `getTimeValue`, `parse_timescale` and `SetTimescale` of
-- src/verilog2hif/verilog_parser_extension.cpp: the directive "`timescale 1ns / 10ps".
pub mod Laws
use hif_frontend.Common.{
  ℕ, zero, suc, ◌+◌, ◌-◌, ◌||◌, not, Option, none, some, [], ◌∷◌, ◌++◌, Bytes, codes, ltb, ◌==◌,
  text_eq, if◌then◌else◌, length, take, drop, keep,
}
use hif_frontend.Common.Outcome.{Result, ok, err, fatal, out_of_range, ◌>>=◌}
use hif_frontend.Common.Text.{find, other, substr_before, substr_after}
use hif_frontend.Hif.{
  Value, time_value, TimeUnit, time_fs, time_ps, time_ns, time_us, time_ms, time_sec,
}

-- The loop over the digits: how many characters stand before the first that is neither `0` nor `1`.
unfoldable pub number_end : Bytes → ℕ
number_end [] = 0
number_end (c ∷ s) =
    if not (c == b'0')
    then (if not (c == b'1') then 0 else suc (number_end s))
    else suc (number_end s)

pub time_unit : Bytes → Result TimeUnit
unfolding text_eq
time_unit unit =
    if text_eq unit (codes "s")
    then ok time_sec
    else if text_eq unit (codes "ms")
    then ok time_ms
    else if text_eq unit (codes "us")
    then ok time_us
    else if text_eq unit (codes "ns")
    then ok time_ns
    else if text_eq unit (codes "ps")
    then ok time_ps
    else if text_eq unit (codes "fs")
    then ok time_fs
    else err (fatal "Unexpected unit for timescale")

-- The calls of `erase` and `remove`: blank, tab, backspace, form feed, return.
pub remove_spaces : Bytes → Bytes
remove_spaces ts =
    keep (other 13) (keep (other 12) (keep (other 8) (keep (other 9) (keep (other b' ') ts))))

-- The parser's `_unit` and `_precision`, `none` for `nullptr`.
pub record Timescale (R : Type 0) : Type 0 where
  pub unit : Option (Value R)
  pub precision : Option (Value R)

-- `read_double` is what `ss >> dval` leaves in a `dval` that is not a number.
module _ {R : Type 0} (read_double : Bytes → R) where
  pub get_time_value : Bytes → Result (Value R)
  unfolding number_end time_unit
  get_time_value s = do
    let i = number_end s
    unit ← time_unit (drop i s)
    ok (time_value (read_double (take i s)) unit)

  pub set_timescale : Value R → Value R → Timescale R → Timescale R
  set_timescale unit precision parser = record { unit = some unit; precision = some precision }

  pub parse_timescale : Bytes → Timescale R → Result (Timescale R)
  unfolding get_time_value set_timescale remove_spaces find
  parse_timescale text parser = if ltb (length text) 10 then err out_of_range else (do
    let ts = remove_spaces (drop 10 text)
    let it = find b'/' ts
    unit ← get_time_value (substr_before it ts)
    precision ← get_time_value (substr_after it ts)
    ok (set_timescale unit precision parser))
