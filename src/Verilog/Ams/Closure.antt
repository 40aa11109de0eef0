-- ===== src/Verilog/Ams/Closure.antt =====
-- Which scopes are AMS: those that an analog process makes so, and those that use one.
use hif_frontend.Common.{
  or_true, or_left, ℕ, ◌≡◌, refl, sym, ◌∙◌, ◌⊎◌, inl, inr, Bool, true, false, ◌||◌, Option, none,
  some, List, [], ◌∷◌, arith, if◌then◌else◌, All, Bool-cases,
}
use hif_frontend.Verilog.Ams.{Place, Marker, set_language, mark_scope, mark_symbol}
use hif_frontend.Verilog.Ams.Events.{
  Event, use_of, analog_process, end_of_system, run_event, run_events,
}

-- A scope is a parent of a place.
abbrev pub holds : Place → ℕ → Bool
holds place s = set_language place.library_def (set_language place.view (λ t. false)) s

abbrev pub Occurs : {D : Type 0} → Event D → List (Event D) → Type 0
Occurs e [] = ⊥
Occurs e (x ∷ xs) = (e ≡ x) ⊎ Occurs e xs

if_and : (a b : Bool) → ((if a then b else false) || false) ≡ true → (a ≡ true) × (b ≡ true)
if_and true b h = ground arith
if_and false b h = cc

pub marked :
    (place : Place) (marker : Marker) (s : ℕ)
    → (mark_scope place marker).languages s ≡ (holds place s || marker.languages s)
unfolding mark_scope
marked place marker s = go place.library_def place.view marker.languages
  where
    go :
        (l v : Option ℕ) (b : ℕ → Bool)
        → set_language l (set_language v b) s
          ≡ (set_language l (set_language v (λ t. false)) s || b s)
    go none none b = refl
    go none (some x) b = ground arith
    go (some y) none b = ground arith
    go (some y) (some x) b = ground arith

-- `given` are the languages at the start, and `scope_of` is the scope that has the language of a
-- declaration.
module _ {D : Type 0} (given : ℕ → Bool) (scope_of : D → ℕ) (es : List (Event D)) where
  -- A scope is AMS from the start, has an analog process, or uses a declaration of a scope that is.
  pub data IsAms : ℕ → Type 0 where
    given_ams : (s : ℕ) → given s ≡ true → IsAms s
    has_analog :
        (place : Place) (s : ℕ) → Occurs (analog_process place) es → holds place s ≡ true → IsAms s
    uses_ams :
        (decl : D) (place : Place) (s : ℕ)
        → Occurs (use_of decl place) es
        → holds place s ≡ true
        → IsAms (scope_of decl)
        → IsAms s

  -- Something is marked: an analog process, or a use of a scope that is AMS.
  abbrev pub Marks : Type 0
  Marks =
      ((place : Place) × Occurs (analog_process place) es)
      ⊎ ((decl : D) × (place : Place) × Occurs (use_of decl place) es × IsAms (scope_of decl))

module _ {D : Type 0} (scope_of : D → ℕ) where
  -- No event stands in the scope.
  abbrev is_placed : ℕ → Event D → Bool
  is_placed t (use_of decl place) = holds place t
  is_placed t (analog_process place) = holds place t
  is_placed t end_of_system = false

  -- What a scope holds is visited before it is used from another one.
  abbrev pub Ordered : List (Event D) → Type 0
  Ordered [] = Unit
  Ordered (use_of decl place ∷ es) =
      (All (λ e. is_placed (scope_of decl) e ≡ false) es
        ⊎ ((s : ℕ) → holds place s ≡ true → s ≡ scope_of decl))
      × Ordered es
  Ordered (_ ∷ es) = Ordered es

module _ {D : Type 0} (object_get_language : (ℕ → Bool) → D → Bool) (scope_of : D → ℕ)
    (language_of_scope : (languages : ℕ → Bool) (decl : D)
      → object_get_language languages decl ≡ languages (scope_of decl)) where
  -- One event, with the languages before and after it.
  pub used :
      (decl : D) (place : Place) (marker : Marker) (s : ℕ)
      → (mark_symbol object_get_language decl place marker).languages s ≡ (
          (if marker.languages (scope_of decl) then holds place s else false) || marker.languages s)
  used decl place marker s = elim (Bool-cases (marker.languages (scope_of decl))) [
    | inl e ↦ rw (language_of_scope marker.languages decl, e) (marked place marker s)
    | inr e ↦ rw (language_of_scope marker.languages decl, e) refl
  ]

  event_grows :
      (e : Event D) (marker : Marker) (s : ℕ)
      → marker.languages s ≡ true
      → (run_event object_get_language e marker).languages s ≡ true
  event_grows (use_of decl place) marker s h = used decl place marker s ∙ rw h (or_true _)
  event_grows (analog_process place) marker s h = marked place marker s ∙ rw h (or_true _)
  event_grows end_of_system marker s h = h

  pub grows :
      (es : List (Event D)) (marker : Marker) (s : ℕ)
      → marker.languages s ≡ true
      → (run_events object_get_language es marker).languages s ≡ true
  grows [] marker s h = h
  grows (e ∷ es) marker s h =
      grows es (run_event object_get_language e marker) s (event_grows e marker s h)

  pub event_sound :
      (given : ℕ → Bool) (all : List (Event D)) (e : Event D) (marker : Marker)
      → Occurs e all
      → ((s : ℕ) → marker.languages s ≡ true → IsAms given scope_of all s)
      → (s : ℕ) → (run_event object_get_language e marker).languages s ≡ true
      → IsAms given scope_of all s
  event_sound given all (use_of decl place) marker o known s h =
      elim (Bool-cases (marker.languages s)) [
        | inl e ↦ known s e
        | inr e ↦
            let (k, h') =
              if_and (marker.languages (scope_of decl)) (holds place s)
                (rw e at (sym (used decl place marker s) ∙ h)) in
            uses_ams decl place s o h' (known (scope_of decl) k)
      ]
  event_sound given all (analog_process place) marker o known s h =
      elim (Bool-cases (marker.languages s)) [
        | inl e ↦ known s e
        | inr e ↦
            has_analog place s o
              (or_left (holds place s) (rw e at (sym (marked place marker s) ∙ h)))
      ]
  event_sound given all end_of_system marker o known s h = known s h

  pub sound :
      (given : ℕ → Bool) (all part : List (Event D)) (marker : Marker)
      → ((e : Event D) → Occurs e part → Occurs e all)
      → ((s : ℕ) → marker.languages s ≡ true → IsAms given scope_of all s)
      → (s : ℕ) → (run_events object_get_language part marker).languages s ≡ true
      → IsAms given scope_of all s
  sound given all [] marker within known s h = known s h
  sound given all (e ∷ part) marker within known s h =
      sound given all part (run_event object_get_language e marker) (λ x o. within x (inr o))
        (λ t h'. event_sound given all e marker (within e (inl refl)) known t h') s h

  -- A scope where nothing is placed any more keeps its language.
  event_keeps :
      (t : ℕ) (e : Event D) (marker : Marker)
      → is_placed scope_of t e ≡ false
      → (run_event object_get_language e marker).languages t ≡ marker.languages t
  event_keeps t (use_of decl place) marker h =
      used decl place marker t ∙ rw h (go (marker.languages (scope_of decl)))
    where
      go : (b : Bool) → ((if b then false else false) || marker.languages t) ≡ marker.languages t
      go true = refl
      go false = refl
  event_keeps t (analog_process place) marker h = marked place marker t ∙ rw h refl
  event_keeps t end_of_system marker h = refl

  pub keeps :
      (t : ℕ) (es : List (Event D)) (marker : Marker)
      → All (λ e. is_placed scope_of t e ≡ false) es
      → (run_events object_get_language es marker).languages t ≡ marker.languages t
  keeps t [] marker h = refl
  keeps t (e ∷ es) marker (h, hs) =
      keeps t es (run_event object_get_language e marker) hs ∙ event_keeps t e marker h
