-- ===== src/Verilog/Ams/Tests.antt =====
-- Runs of the marker of AMS, on a visit where the hypotheses of the theorem hold.
use hif_frontend.Common.{ℕ, ◌≡◌, refl, ◌↔◌, inl, Bool, true, false, none, some}
use hif_frontend.Common.Outcome.{ok}
use hif_frontend.Verilog.Ams.{
  Place, Marker, Visits, symbol, state_table, view, system, no_visits, next_visit,
  mark_ams_language,
}
use hif_frontend.Verilog.Ams.Events.{Declared, events, events_all}
use hif_frontend.Verilog.Ams.Closure.{IsAms, Marks}
use hif_frontend.Verilog.Ams.System.{mark_ams_language_lem}

abbrev in_view : ℕ → Place
in_view v = record { view = some v; library_def = none }

-- View 1 has an analog process, and view 2 an instance of view 1.
abbrev two_views : Visits ℕ
two_views =
    next_visit (view (next_visit (state_table no_visits true (in_view 1)) no_visits) false) (
      next_visit (view (next_visit (symbol no_visits (some 1) (in_view 2)) no_visits) false)
        no_visits)

-- A declaration is its scope here.
abbrev language_at : (ℕ → Bool) → ℕ → Bool
language_at languages s = languages s

mark_ams_language_example :
    (marker : Marker) × (mark_ams_language language_at (system two_views) (λ s. false) false
      ≡ ok marker)
    × ((s : ℕ) → (marker.languages s ≡ true) ↔ IsAms (λ s. false) (λ s. s) (events_all two_views) s)
    × ((marker.system_ams ≡ true) ↔ Marks (λ s. false) (λ s. s) (events_all two_views))
unfolding events Declared
mark_ams_language_example =
    mark_ams_language_lem language_at (λ s. s) (λ _ _. refl) two_views (λ s. false)
      ((tt, tt), ((tt, tt), tt)) (inl tt, tt)
