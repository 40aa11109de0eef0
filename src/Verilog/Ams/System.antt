-- ===== src/Verilog/Ams/System.antt =====
-- When the system is AMS, and the marks of a whole visit.
use hif_frontend.Common.{
  ℕ, ◌≡◌, refl, ◌↔◌, ◌⊎◌, inl, inr, Bool, true, false, ◌||◌, List, [], ◌∷◌, Bool-cases,
}
use mathlib.Core.Path.{subst}
use hif_frontend.Common.Outcome.{ok}
use hif_frontend.Verilog.Ams.{
  Place, Marker, Visits, system, mark_scope, mark_symbol, close_system, visit, mark_ams_language,
}
use hif_frontend.Verilog.Ams.Events.{
  Event, use_of, analog_process, end_of_system, events_all, DeclaredAll, run_event, run_events,
  visit_all-events,
}
use hif_frontend.Verilog.Ams.Closure.{Occurs, IsAms, given_ams, Marks, Ordered, event_sound, sound}
use hif_frontend.Verilog.Ams.Complete.{complete}

module _ {D : Type 0} (object_get_language : (ℕ → Bool) → D → Bool) where
  event_marks :
      (e : Event D) (marker : Marker)
      → marker.is_ams ≡ true
      → (run_event object_get_language e marker).is_ams ≡ true
  unfolding mark_scope
  event_marks (use_of decl place) marker h =
      elim (Bool-cases (object_get_language marker.languages decl)) [
        | inl e ↦ rw e refl
        | inr e ↦ rw e h
      ]
  event_marks (analog_process place) marker h = refl
  event_marks end_of_system marker h = h

  -- `_isAms` stays set.
  stays_marked :
      (es : List (Event D)) (marker : Marker)
      → marker.is_ams ≡ true
      → (run_events object_get_language es marker).is_ams ≡ true
  stays_marked [] marker h = h
  stays_marked (e ∷ es) marker h =
      stays_marked es (run_event object_get_language e marker) (event_marks e marker h)

  analog_marks :
      (es : List (Event D)) (marker : Marker) (place : Place)
      → Occurs (analog_process place) es
      → (run_events object_get_language es marker).is_ams ≡ true
  unfolding mark_scope
  analog_marks [] marker place o = absurd o
  analog_marks (e ∷ es) marker place (inr o) =
      analog_marks es (run_event object_get_language e marker) place o
  analog_marks (e ∷ es) marker place (inl o) =
      subst (λ e. (run_events object_get_language (e ∷ es) marker).is_ams ≡ true) o
        (stays_marked es (mark_scope place marker) refl)

  -- The system is AMS only if `_isAms` is set.
  event_system :
      (e : Event D) (marker : Marker)
      → (marker.system_ams ≡ true → marker.is_ams ≡ true)
      → (run_event object_get_language e marker).system_ams ≡ true
      → (run_event object_get_language e marker).is_ams ≡ true
  unfolding mark_scope
  event_system (use_of decl place) marker h =
      elim (Bool-cases (object_get_language marker.languages decl)) [
        | inl e ↦ rw e (λ _. refl)
        | inr e ↦ rw e h
      ]
  event_system (analog_process place) marker h = λ _. refl
  event_system end_of_system marker h = go marker.is_ams marker.system_ams h
    where
      go : (a b : Bool) → (b ≡ true → a ≡ true) → (a || b) ≡ true → a ≡ true
      go true b h k = refl
      go false b h k = h k

  system_only :
      (es : List (Event D)) (marker : Marker)
      → (marker.system_ams ≡ true → marker.is_ams ≡ true)
      → (run_events object_get_language es marker).system_ams ≡ true
      → (run_events object_get_language es marker).is_ams ≡ true
  system_only [] marker h = h
  system_only (e ∷ es) marker h =
      system_only es (run_event object_get_language e marker) (event_system e marker h)

module _ {D : Type 0} (object_get_language : (ℕ → Bool) → D → Bool) (scope_of : D → ℕ)
    (language_of_scope : (languages : ℕ → Bool) (decl : D)
      → object_get_language languages decl ≡ languages (scope_of decl)) where
  -- A scope that becomes AMS sets `_isAms`.
  event_new :
      (e : Event D) (marker : Marker) (s : ℕ)
      → (run_event object_get_language e marker).languages s ≡ true
      → (marker.languages s ≡ true) ⊎ ((run_event object_get_language e marker).is_ams ≡ true)
  unfolding mark_scope
  event_new (use_of decl place) marker s h =
      elim (Bool-cases (object_get_language marker.languages decl)) [
        | inl e ↦ inr (rw e refl)
        | inr e ↦ inl (rw e at h)
      ]
  event_new (analog_process place) marker s h = inr refl
  event_new end_of_system marker s h = inl h

  new :
      (es : List (Event D)) (marker : Marker) (s : ℕ)
      → (run_events object_get_language es marker).languages s ≡ true
      → (marker.languages s ≡ true) ⊎ ((run_events object_get_language es marker).is_ams ≡ true)
  new [] marker s h = inl h
  new (e ∷ es) marker s h = elim (new es (run_event object_get_language e marker) s h) [
    | inr k ↦ inr k
    | inl k ↦ elim (event_new e marker s k) [
      | inl k' ↦ inl k'
      | inr k' ↦
          inr (stays_marked object_get_language es (run_event object_get_language e marker) k')
    ]
  ]

  use_here :
      (es : List (Event D)) (marker : Marker) (decl : D) (place : Place)
      → (run_events object_get_language (use_of decl place ∷ es) marker).languages (scope_of decl)
        ≡ true
      → (run_events object_get_language (use_of decl place ∷ es) marker).is_ams ≡ true
  unfolding mark_scope
  use_here es marker decl place h = elim (Bool-cases (marker.languages (scope_of decl))) [
    | inl e ↦
        stays_marked object_get_language es (mark_symbol object_get_language decl place marker)
          (rw (language_of_scope marker.languages decl, e) refl)
    | inr e ↦ elim (new es (mark_symbol object_get_language decl place marker) _ h) [
      | inr k ↦ k
      | inl k ↦ cc (rw (language_of_scope marker.languages decl, e) at k)
    ]
  ]

  -- A use of a scope that is AMS at the end sets `_isAms`.
  use_marks :
      (es : List (Event D)) (marker : Marker) (decl : D) (place : Place)
      → Occurs (use_of decl place) es
      → (run_events object_get_language es marker).languages (scope_of decl) ≡ true
      → (run_events object_get_language es marker).is_ams ≡ true
  use_marks [] marker decl place o h = absurd o
  use_marks (e ∷ es) marker decl place (inr o) h =
      use_marks es (run_event object_get_language e marker) decl place o h
  use_marks (e ∷ es) marker decl place (inl o) h =
      subst
        (λ e.
          (run_events object_get_language (e ∷ es) marker).languages (scope_of decl) ≡ true
          → (run_events object_get_language (e ∷ es) marker).is_ams ≡ true)
        o (use_here es marker decl place) h

  -- `_isAms` is set only by something that marks.
  marks :
      (given : ℕ → Bool) (all part : List (Event D)) (marker : Marker)
      → ((e : Event D) → Occurs e part → Occurs e all)
      → ((s : ℕ) → marker.languages s ≡ true → IsAms given scope_of all s)
      → (marker.is_ams ≡ true → Marks given scope_of all)
      → (run_events object_get_language part marker).is_ams ≡ true
      → Marks given scope_of all
  marks given all [] marker within known so_far h = so_far h
  marks given all (e ∷ part) marker within known so_far h =
      marks given all part (run_event object_get_language e marker) (λ x o. within x (inr o))
        (λ t h'.
          event_sound object_get_language scope_of language_of_scope given all e marker
            (within e (inl refl)) known t h')
        (one e (within e (inl refl))) h
    where
      one :
          (e : Event D)
          → Occurs e all
          → (run_event object_get_language e marker).is_ams ≡ true
          → Marks given scope_of all
      one (analog_process place) o k = inl (place, o)
      one end_of_system o k = so_far k
      one (use_of decl place) o k = elim (Bool-cases (marker.languages (scope_of decl))) [
        | inl e ↦ inr (decl, place, o, known (scope_of decl) e)
        | inr e ↦ so_far (rw (language_of_scope marker.languages decl, e) at k)
      ]

  either : (a b : Bool) → (b ≡ true → a ≡ true) → (a || b) ≡ true → a ≡ true
  either true b h k = refl
  either false b h k = h k

  abbrev start : (ℕ → Bool) → Marker
  start languages = record { languages = languages; is_ams = false; system_ams = false }

  abbrev last : (ℕ → Bool) → Visits D → Marker
  last languages below = run_events object_get_language (events_all below) (start languages)

  -- If each symbol that is visited has a declaration, and what a scope holds is visited before another
  -- scope uses it, then after the visit of a system a scope is AMS exactly when it was so before, has
  -- an analog process, or uses a declaration of a scope that is AMS; and the system, which was not AMS,
  -- is so exactly when there is an analog process or a use of a declaration of a scope that is AMS.
  -- The language of a declaration is that of one scope.
  pub mark_ams_language_lem :
      (below : Visits D) (languages : ℕ → Bool)
      → DeclaredAll below
      → Ordered scope_of (events_all below)
      → (marker : Marker) × (mark_ams_language object_get_language (system below) languages false
          ≡ ok marker)
        × ((s : ℕ) → (marker.languages s ≡ true) ↔ IsAms languages scope_of (events_all below) s)
        × ((marker.system_ams ≡ true) ↔ Marks languages scope_of (events_all below))
  unfolding mark_ams_language visit
  mark_ams_language_lem below languages declared ordered = (
    close_system (last languages below),
    rw (visit_all-events object_get_language below (start languages) declared) refl,
    λ s. (each s, λ x. complete_at x),
    (forth, back),
  )
    where
      each :
          (s : ℕ)
          → (last languages below).languages s ≡ true
          → IsAms languages scope_of (events_all below) s
      each s =
          sound object_get_language scope_of language_of_scope languages (events_all below)
            (events_all below) (start languages) (λ e o. o) (λ s h. given_ams s h) s

      complete_at :
          {s : ℕ}
          → IsAms languages scope_of (events_all below) s
          → (last languages below).languages s ≡ true
      complete_at x =
          complete object_get_language scope_of language_of_scope languages (events_all below)
            (start languages) ordered (λ s h. h) x

      forth :
          ((last languages below).is_ams || (last languages below).system_ams) ≡ true
          → Marks languages scope_of (events_all below)
      forth h =
          marks languages (events_all below) (events_all below) (start languages) (λ e o. o)
            (λ s h. given_ams s h) (λ h. cc)
            (either (last languages below).is_ams (last languages below).system_ams
              (system_only object_get_language (events_all below) (start languages) (λ h. h)) h)

      back :
          Marks languages scope_of (events_all below)
          → ((last languages below).is_ams || (last languages below).system_ams) ≡ true
      back (inl (place, o)) =
          rw (analog_marks object_get_language (events_all below) (start languages) place o) refl
      back (inr (decl, place, o, x)) =
          rw (use_marks (events_all below) (start languages) decl place o (complete_at x)) refl
