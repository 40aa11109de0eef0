-- ===== src/Verilog/Defaults.antt =====
-- `_checkViewTimeScale` of src/verilog2hif/FixDescription_2.cpp, which the visitor calls wherever a
-- view uses a time: the default timescale among the declarations of the system.
pub mod Once
use hif_frontend.Common.{
  Bool, true, false, Option, none, some, List, [], ◌∷◌, ◌++◌, Bytes, codes, ◌==◌, if◌then◌else◌,
  length,
}
use hif_frontend.Common.Outcome.{Result, ok, ◌>>◌, message_assert}
use hif_frontend.Hif.{Value, time_value, time_ns, time_ps}

-- A declaration that was there, or a constant of type time.
pub data SystemDeclaration (D R : Type 0) : Type 0 where
  own : D → SystemDeclaration D R
  time_constant : (name : Bytes) → Value R → SystemDeclaration D R

-- The declarations of `_currentSystem`, and `_addedDefaultTimeScale`.
pub record Fixer (D R : Type 0) : Type 0 where
  pub declarations : List (SystemDeclaration D R)
  pub added_default_time_scale : Bool

-- `one` and `ten` are the doubles 1.0 and 10.0, and `E` a declaration of a view.
module _ {D R : Type 0} (one ten : R) where
  abbrev pub default_timescale : List (SystemDeclaration D R)
  default_timescale =
      time_constant (codes "hif_verilog_timescale_unit") (time_value one time_ns)
      ∷ time_constant (codes "hif_verilog_timescale_precision") (time_value ten time_ps)
      ∷ []

module _ {D E R : Type 0} (one ten : R) where
  -- The check, with the declarations of `_currentView`; `none` for `nullptr`.
  pub check_view_time_scale : Option (List E) → Fixer D R → Result (Fixer D R)
  check_view_time_scale none fixer = ok fixer
  check_view_time_scale (some (d ∷ ds)) fixer = do
    message_assert (length (d ∷ ds) == 2) "Unexpected view declarations"
    ok fixer
  check_view_time_scale (some []) fixer =
      if fixer.added_default_time_scale
      then ok fixer
      else ok (record {
        declarations = fixer.declarations ++ default_timescale one ten;
        added_default_time_scale = true;
      })
