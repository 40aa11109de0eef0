-- ===== src/Verilog/Ams/Events.antt =====
-- A visit as the sequence of what it does.
use hif_frontend.Common.{
  ℕ, ◌≡◌, refl, sym, ap, ◌∙◌, Bool, true, false, none, some, List, [], ◌∷◌, ◌++◌,
}
use hif_frontend.Common.Outcome.{Result, ok, ◌>>=◌}
use hif_frontend.Verilog.Ams.{
  Place, Marker, Visit, Visits, symbol, state_table, library_def, view, system, inherited,
  no_visits, next_visit, mark_scope, mark_symbol, close_system, visit, visit_all,
}

-- A symbol with its declaration, an analog process, or the end of a system.
pub data Event (D : Type 0) : Type 0 where
  use_of : D → Place → Event D
  analog_process : Place → Event D
  end_of_system : Event D

module _ {D : Type 0} where
  unfoldable mutual
    pub events : Visit D → List (Event D)
    events (symbol below none place) = events_all below
    events (symbol below (some decl) place) = events_all below ++ (use_of decl place ∷ [])
    events (state_table below true place) = events_all below ++ (analog_process place ∷ [])
    events (state_table below false place) = events_all below
    events (library_def below true) = []
    events (library_def below false) = events_all below
    events (view below true) = []
    events (view below false) = events_all below
    events (system below) = events_all below ++ (end_of_system ∷ [])
    events (inherited below) = events_all below

    pub events_all : Visits D → List (Event D)
    events_all no_visits = []
    events_all (next_visit one rest) = events one ++ events_all rest

  -- Each symbol that is visited has a declaration.
  unfoldable mutual
    pub Declared : Visit D → Type 0
    Declared (symbol below none place) = DeclaredAll below × (true ≡ false)
    Declared (symbol below (some decl) place) = DeclaredAll below
    Declared (state_table below analog place) = DeclaredAll below
    Declared (library_def below true) = Unit
    Declared (library_def below false) = DeclaredAll below
    Declared (view below true) = Unit
    Declared (view below false) = DeclaredAll below
    Declared (system below) = DeclaredAll below
    Declared (inherited below) = DeclaredAll below

    pub DeclaredAll : Visits D → Type 0
    DeclaredAll no_visits = Unit
    DeclaredAll (next_visit one rest) = Declared one × DeclaredAll rest

  module _ (object_get_language : (ℕ → Bool) → D → Bool) where
    abbrev pub run_event : Event D → Marker → Marker
    run_event (use_of decl place) marker = mark_symbol object_get_language decl place marker
    run_event (analog_process place) marker = mark_scope place marker
    run_event end_of_system marker = close_system marker

    abbrev pub run_events : List (Event D) → Marker → Marker
    run_events [] marker = marker
    run_events (e ∷ es) marker = run_events es (run_event e marker)

    run_events-append :
        (es fs : List (Event D)) (marker : Marker)
        → run_events (es ++ fs) marker ≡ run_events fs (run_events es marker)
    run_events-append [] fs marker = refl
    run_events-append (e ∷ es) fs marker = run_events-append es fs (run_event e marker)

    followed :
        (es : List (Event D)) (e : Event D) (marker : Marker) (r : Result Marker)
        → r ≡ ok (run_events es marker)
        → (r >>= λ marker. ok (run_event e marker)) ≡ ok (run_events (es ++ (e ∷ [])) marker)
    followed es e marker r h = rw h (ap ok (sym (run_events-append es (e ∷ []) marker)))

    mutual
      unfolding visit visit_all events events_all Declared DeclaredAll

      pub visit-events :
          (one : Visit D) (marker : Marker)
          → Declared one
          → visit object_get_language one marker ≡ ok (run_events (events one) marker)
      visit-events (symbol below none place) marker h = cc
      visit-events (symbol below (some decl) place) marker h =
          followed (events_all below) (use_of decl place) marker _ (visit_all-events below marker h)
      visit-events (state_table below true place) marker h =
          followed (events_all below) (analog_process place) marker _
            (visit_all-events below marker h)
      visit-events (state_table below false place) marker h = visit_all-events below marker h
      visit-events (library_def below true) marker h = refl
      visit-events (library_def below false) marker h = visit_all-events below marker h
      visit-events (view below true) marker h = refl
      visit-events (view below false) marker h = visit_all-events below marker h
      visit-events (system below) marker h =
          followed (events_all below) end_of_system marker _ (visit_all-events below marker h)
      visit-events (inherited below) marker h = visit_all-events below marker h

      pub visit_all-events :
          (visits : Visits D) (marker : Marker)
          → DeclaredAll visits
          → visit_all object_get_language visits marker ≡ ok (run_events (events_all visits) marker)
      visit_all-events no_visits marker h = refl
      visit_all-events (next_visit one rest) marker (h, hs) = rw (visit-events one marker h) (
          visit_all-events rest (run_events (events one) marker) hs
          ∙ ap ok (sym (run_events-append (events one) (events_all rest) marker)))
