-- ===== src/Verilog/Timescale/Laws.antt =====
-- The timescale that a directive sets.
use hif_frontend.Common.{
  ℕ, ◌≡◌, ◌≢◌, refl, ◌∙◌, ◌⊎◌, Bool, false, not, ◌||◌, some, [], ◌∷◌, ◌++◌, arith, Bytes, codes,
  ltb, ◌==◌, length, drop-append, keep, All, All-append,
}
use hif_frontend.Common.Outcome.{ok}
use hif_frontend.Common.Text.{before-append, after-append, take-append}
use hif_frontend.Hif.{time_value, TimeUnit, time_fs, time_ps, time_ns, time_us, time_ms, time_sec}
use hif_frontend.Verilog.Timescale.{
  number_end, time_unit, remove_spaces, Timescale, get_time_value, set_timescale, parse_timescale,
}

-- The units of time, and how they are written.
pub data UnitText : Bytes → TimeUnit → Type 0 where
  sec : UnitText (codes "s") time_sec
  ms : UnitText (codes "ms") time_ms
  us : UnitText (codes "us") time_us
  ns : UnitText (codes "ns") time_ns
  ps : UnitText (codes "ps") time_ps
  fs : UnitText (codes "fs") time_fs

-- The characters of the numbers 1, 10 and 100.
abbrev pub IsOneOrZero : ℕ → Type 0
IsOneOrZero c = (c ≡ b'0') ⊎ (c ≡ b'1')

abbrev pub is_space : ℕ → Bool
is_space c = c == b' ' || c == 9 || c == 8 || c == 12 || c == 13

remove_spaces-keep : (s : Bytes) → remove_spaces s ≡ keep (λ c. not (is_space c)) s
unfolding remove_spaces
remove_spaces-keep [] = refl
remove_spaces-keep (c ∷ s) = ground (arith, remove_spaces-keep s)

UnitText-number_end : (s : Bytes) (u : TimeUnit) → UnitText s u → number_end s ≡ 0
unfolding number_end
UnitText-number_end s u sec = refl
UnitText-number_end s u ms = refl
UnitText-number_end s u us = refl
UnitText-number_end s u ns = refl
UnitText-number_end s u ps = refl
UnitText-number_end s u fs = refl

number_end-append :
    (n s : Bytes) → All IsOneOrZero n → number_end s ≡ 0 → number_end (n ++ s) ≡ length n
unfolding number_end
number_end-append [] s h e = e
number_end-append (c ∷ n) s (h, hs) e = ground (arith, number_end-append n s hs e)

UnitText-time_unit : (s : Bytes) (u : TimeUnit) → UnitText s u → time_unit s ≡ ok u
unfolding time_unit
UnitText-time_unit s u sec = refl
UnitText-time_unit s u ms = refl
UnitText-time_unit s u us = refl
UnitText-time_unit s u ns = refl
UnitText-time_unit s u ps = refl
UnitText-time_unit s u fs = refl

abbrev NotSlash : ℕ → Type 0
NotSlash c = c ≢ b'/'

UnitText-NotSlash : (s : Bytes) (u : TimeUnit) → UnitText s u → All NotSlash s
UnitText-NotSlash s u sec = (omega arith, tt)
UnitText-NotSlash s u ms = (omega arith, (omega arith, tt))
UnitText-NotSlash s u us = (omega arith, (omega arith, tt))
UnitText-NotSlash s u ns = (omega arith, (omega arith, tt))
UnitText-NotSlash s u ps = (omega arith, (omega arith, tt))
UnitText-NotSlash s u fs = (omega arith, (omega arith, tt))

number-NotSlash : (n : Bytes) → All IsOneOrZero n → All NotSlash n
number-NotSlash [] h = tt
number-NotSlash (c ∷ n) (h, hs) = (ground arith, number-NotSlash n hs)

module _ {R : Type 0} (read_double : Bytes → R) where
  get_time_value_lem :
      (n s : Bytes) (u : TimeUnit)
      → All IsOneOrZero n
      → UnitText s u
      → get_time_value read_double (n ++ s) ≡ ok (time_value (read_double n) u)
  unfolding get_time_value
  get_time_value_lem n s u h k =
      rw
        (
          number_end-append n s h (UnitText-number_end s u k),
          drop-append n s,
          take-append n s,
          UnitText-time_unit s u k,
        )
        refl

  -- A directive that is, but for blanks, a number of ones and zeros with a unit, a slash and another
  -- such number sets both: whatever blanks stand between, inside or behind them.
  pub parse_timescale_lem :
      (text n1 s1 n2 s2 : Bytes) (u1 u2 : TimeUnit) (parser : Timescale R)
      → keep (λ c. not (is_space c)) text ≡ (n1 ++ s1) ++ b'/' ∷ (n2 ++ s2)
      → All IsOneOrZero n1
      → All IsOneOrZero n2
      → UnitText s1 u1
      → UnitText s2 u2
      → parse_timescale read_double (codes "`timescale" ++ text) parser
        ≡ ok (record {
          unit = some (time_value (read_double n1) u1);
          precision = some (time_value (read_double n2) u2);
        })
  unfolding parse_timescale set_timescale
  parse_timescale_lem text n1 s1 n2 s2 u1 u2 parser e h1 h2 k1 k2 =
      let slash = All-append NotSlash n1 s1 (number-NotSlash n1 h1) (UnitText-NotSlash s1 u1 k1) in
      let spaces = remove_spaces-keep text ∙ e in
      let first = before-append b'/' (n1 ++ s1) (n2 ++ s2) slash in
      let second = after-append b'/' (n1 ++ s1) (n2 ++ s2) slash in
      rw (short text) (
        rw
          (
            spaces,
            first,
            second,
            get_time_value_lem n1 s1 u1 h1 k1,
            get_time_value_lem n2 s2 u2 h2 k2,
          )
          refl)
    where
      short : (text : Bytes) → ltb (length (codes "`timescale" ++ text)) 10 ≡ false
      short text = ground arith
