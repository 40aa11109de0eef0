-- ===== src/Verilog/Ams/Complete.antt =====
-- The marks of a visit are complete, and those of the system follow them.
use hif_frontend.Common.{
  ℕ, ◌≡◌, refl, sym, ◌∙◌, inl, inr, Bool, true, false, List, [], ◌∷◌, Bool-cases,
}
use mathlib.Core.Path.{subst}
use hif_frontend.Verilog.Ams.{Place, Marker, mark_scope, mark_symbol}
use hif_frontend.Verilog.Ams.Events.{
  Event, use_of, analog_process, end_of_system, run_event, run_events,
}
use hif_frontend.Verilog.Ams.Closure.{
  holds, Occurs, marked, IsAms, given_ams, has_analog, uses_ams, Ordered, used, grows, keeps,
}

module _ {D : Type 0} (object_get_language : (ℕ → Bool) → D → Bool) (scope_of : D → ℕ)
    (language_of_scope : (languages : ℕ → Bool) (decl : D)
      → object_get_language languages decl ≡ languages (scope_of decl)) where
  later : (e : Event D) (es : List (Event D)) → Ordered scope_of (e ∷ es) → Ordered scope_of es
  later (use_of decl place) es (h, hs) = hs
  later (analog_process place) es h = h
  later end_of_system es h = h

  -- At the end, what uses a scope that is AMS is AMS.
  abbrev Closed : List (Event D) → Type 0
  Closed es =
      (marker : Marker) (decl : D) (place : Place) (s : ℕ)
      → Ordered scope_of es
      → Occurs (use_of decl place) es
      → holds place s ≡ true
      → (run_events object_get_language es marker).languages (scope_of decl) ≡ true
      → (run_events object_get_language es marker).languages s ≡ true

  unused :
      (decl : D) (place : Place) (marker : Marker)
      → marker.languages (scope_of decl) ≡ false
      → (mark_symbol object_get_language decl place marker).languages (scope_of decl) ≡ false
  unused decl place marker e =
      used object_get_language scope_of language_of_scope decl place marker (scope_of decl)
      ∙ rw e refl

  closed_here :
      (es : List (Event D)) (marker : Marker) (decl : D) (place : Place) (s : ℕ)
      → Ordered scope_of (use_of decl place ∷ es)
      → holds place s ≡ true
      → (run_events object_get_language (use_of decl place ∷ es) marker).languages (scope_of decl)
        ≡ true
      → (run_events object_get_language (use_of decl place ∷ es) marker).languages s ≡ true
  closed_here es marker decl place s (inr self, hs) h k = rw (self s h) k
  closed_here es marker decl place s (inl after, hs) h k =
      elim (Bool-cases (marker.languages (scope_of decl))) [
        | inl e ↦
            grows object_get_language scope_of language_of_scope es
              (mark_symbol object_get_language decl place marker) s
              (used object_get_language scope_of language_of_scope decl place marker s
                ∙ rw (e, h) refl)
        | inr e ↦ cc (
            sym k
            ∙ keeps object_get_language scope_of language_of_scope (scope_of decl) es
                (mark_symbol object_get_language decl place marker) after
            ∙ unused decl place marker e)
      ]

  closed : (es : List (Event D)) → Closed es
  closed [] marker decl place s ordered o h k = absurd o
  closed (e ∷ es) marker decl place s ordered (inr o) h k =
      closed es (run_event object_get_language e marker) decl place s (later e es ordered) o h k
  closed (e ∷ es) marker decl place s ordered (inl o) h k =
      subst
        (λ e.
          Ordered scope_of (e ∷ es)
          → (run_events object_get_language (e ∷ es) marker).languages (scope_of decl) ≡ true
          → (run_events object_get_language (e ∷ es) marker).languages s ≡ true)
        o (λ ordered k. closed_here es marker decl place s ordered h k) ordered k

  -- A scope with an analog process is AMS.
  analog_marked :
      (es : List (Event D)) (marker : Marker) (place : Place) (s : ℕ)
      → Occurs (analog_process place) es
      → holds place s ≡ true
      → (run_events object_get_language es marker).languages s ≡ true
  analog_marked [] marker place s o h = absurd o
  analog_marked (e ∷ es) marker place s (inr o) h =
      analog_marked es (run_event object_get_language e marker) place s o h
  analog_marked (e ∷ es) marker place s (inl o) h =
      subst (λ e. (run_events object_get_language (e ∷ es) marker).languages s ≡ true) o
        (grows object_get_language scope_of language_of_scope es (mark_scope place marker) s
          (marked place marker s ∙ rw h refl))

  pub complete :
      (given : ℕ → Bool) (es : List (Event D)) (marker : Marker)
      → Ordered scope_of es
      → ((s : ℕ) → given s ≡ true → marker.languages s ≡ true)
      → {s : ℕ} → IsAms given scope_of es s
      → (run_events object_get_language es marker).languages s ≡ true
  complete given es marker ordered start (given_ams s h) =
      grows object_get_language scope_of language_of_scope es marker s (start s h)
  complete given es marker ordered start (has_analog place s o h) =
      analog_marked es marker place s o h
  complete given es marker ordered start (uses_ams decl place s o h used) =
      closed es marker decl place s ordered o h (complete given es marker ordered start used)
