-- ===== src/Verilog/Defaults/Once.antt =====
-- How often the default timescale is added.
use hif_frontend.Common.{
  ◌≡◌, refl, ap, ◌∙◌, Bool, true, false, not, ◌&&◌, ◌||◌, Option, none, some, List, [], ◌∷◌, ◌++◌,
  length, All,
}
use hif_frontend.Common.Outcome.{Result, ok, ◌>>=◌}
use hif_frontend.Verilog.Defaults.{Fixer, default_timescale, check_view_time_scale}

module _ {E : Type 0} where
  -- A view has no declarations, or the two of a timescale.
  abbrev pub HasTimescale : Option (List E) → Type 0
  HasTimescale none = Unit
  HasTimescale (some []) = Unit
  HasTimescale (some (d ∷ ds)) = length (d ∷ ds) ≡ 2

  abbrev is_bare : Option (List E) → Bool
  is_bare (some []) = true
  is_bare _ = false

  -- Some view of these has no declarations.
  abbrev pub needs_default : List (Option (List E)) → Bool
  needs_default [] = false
  needs_default (view ∷ views) = is_bare view || needs_default views

module _ {D R : Type 0} (one ten : R) where
  abbrev pub with_default : Bool → Fixer D R → Fixer D R
  with_default true fixer = record {
    declarations = fixer.declarations ++ default_timescale one ten;
    added_default_time_scale = true;
  }
  with_default false fixer = fixer

  twice :
      (a b : Bool) (fixer : Fixer D R)
      → let first = with_default (a && not fixer.added_default_time_scale) fixer in
        with_default (b && not first.added_default_time_scale) first
        ≡ with_default ((a || b) && not fixer.added_default_time_scale) fixer
  twice a b fixer = go a b fixer.declarations fixer.added_default_time_scale
    where
      go :
          (a b : Bool) (ds : List _) (c : Bool)
          → let fixer : Fixer D R = record { declarations = ds; added_default_time_scale = c } in
            let first = with_default (a && not c) fixer in
            with_default (b && not first.added_default_time_scale) first
            ≡ with_default ((a || b) && not c) fixer
      go true true ds true = refl
      go true false ds true = refl
      go false b ds true = refl
      go true true ds false = refl
      go true false ds false = refl
      go false b ds false = refl

module _ {D E R : Type 0} (one ten : R) where
  check_view :
      (view : Option (List E)) (fixer : Fixer D R)
      → HasTimescale view
      → check_view_time_scale one ten view fixer
        ≡ ok (with_default one ten (is_bare view && not fixer.added_default_time_scale) fixer)
  unfolding check_view_time_scale
  check_view none fixer h = refl
  check_view (some []) fixer h = go fixer.declarations fixer.added_default_time_scale
    where
      go :
          (ds : List _) (b : Bool)
          → let fixer : Fixer D R = record { declarations = ds; added_default_time_scale = b } in
            check_view_time_scale {E = E} one ten (some []) fixer
            ≡ ok (with_default one ten (not b) fixer)
      go ds true = refl
      go ds false = refl
  check_view (some (d ∷ ds)) fixer h = rw h refl

  -- Calls in a row, each with the view that the visitor is in when it finds a use of a time.
  pub check_calls : List (Option (List E)) → Fixer D R → Result (Fixer D R)
  check_calls [] fixer = ok fixer
  check_calls (view ∷ views) fixer = do
    fixer ← check_view_time_scale one ten view fixer
    check_calls views fixer

  -- A sequence of calls, each in a view that has no declarations or the two of a timescale, succeeds
  -- and adds the default timescale behind the declarations of the system once, exactly when one of the
  -- calls is made in a view without declarations and the timescale was not added before.
  pub check_view_time_scale_once :
      (views : List (Option (List E))) (fixer : Fixer D R)
      → All HasTimescale views
      → check_calls views fixer
        ≡ ok
            (with_default one ten (needs_default views && not fixer.added_default_time_scale) fixer)
  unfolding check_calls
  check_view_time_scale_once [] fixer h = refl
  check_view_time_scale_once (view ∷ views) fixer (h, hs) =
      ap (λ m. m >>= check_calls views) (check_view view fixer h)
      ∙ check_view_time_scale_once views _ hs
      ∙ ap ok (twice one ten (is_bare view) (needs_default views) fixer)
