-- ===== src/Verilog/Processes/Sensitivity.antt =====
-- The values that a process reads, and the sensitivity that they are added to.
use hif_frontend.Common.{
  or_true, ◌≡◌, refl, sym, ap, ◌∙◌, ◌⊎◌, inl, inr, Bool, true, false, not, ◌&&◌, ◌||◌, Option, none,
  some, List, [], ◌∷◌, ◌++◌, append-nil, append_assoc, arith, if◌then◌else◌, Bool-cases,
  Option-cases, All,
}
use hif_frontend.Common.Outcome.{ok}
use hif_frontend.Verilog.Processes.{Declaration, Symbol, is_net, is_true, watched_value, watch_loop}

abbrev pub OneOf : {V : Type 0} → V → List V → Type 0
OneOf v [] = ⊥
OneOf v (w ∷ ws) = (v ≡ w) ⊎ OneOf v ws

abbrev pub is_present : {V : Type 0} → (V → V → Bool) → V → List V → Bool
is_present same v [] = false
is_present same v (w ∷ ws) = same v w || is_present same v ws

OneOf-append : {V : Type 0} (v : V) (vs ws : List V) → OneOf v (vs ++ ws) → OneOf v vs ⊎ OneOf v ws
OneOf-append v [] ws o = inr o
OneOf-append v (x ∷ vs) ws (inl e) = inl (inl e)
OneOf-append v (x ∷ vs) ws (inr o) = elim (OneOf-append v vs ws o) [
  | inl o' ↦ inl (inr o')
  | inr o' ↦ inr o'
]

pub neither : (a b : Bool) → (a || b) ≡ false → (a ≡ false) × (b ≡ false)
neither a b h = ground arith

-- The value of a symbol that reads a signal or a port, unless its type is a view of the standard.
abbrev net_value : {V : Type 0} → V → (left library : Bool) → Option Declaration → Option V
net_value v true library decl = none
net_value v false true decl = none
net_value v false false none = none
net_value v false false (some decl) =
    if is_net decl.class && not (is_true decl.view_is_standard) then some v else none

abbrev pub read_net : {V : Type 0} → Symbol V → Option V
read_net symbol = elim symbol.value [
  | none ↦ none
  | some v ↦ net_value v symbol.in_left_hand_side symbol.is_library_instance symbol.declaration
]

abbrev has_declaration : (left library : Bool) → Option Declaration → Bool
has_declaration true library decl = true
has_declaration false true decl = true
has_declaration false false none = false
has_declaration false false (some decl) = true

-- A value that is read has a declaration.
abbrev pub is_declared : {V : Type 0} → Symbol V → Bool
is_declared symbol = elim symbol.value [
  | none ↦ true
  | some v ↦ has_declaration symbol.in_left_hand_side symbol.is_library_instance symbol.declaration
]

abbrev add_front : {V : Type 0} → Option V → List V → List V
add_front none vs = vs
add_front (some v) vs = v ∷ vs

-- The values that the symbols read, in their order.
abbrev pub nets_read : {V : Type 0} → List (Symbol V) → List V
nets_read [] = []
nets_read (symbol ∷ symbols) = add_front (read_net symbol) (nets_read symbols)

watched_value_lem :
    {V : Type 0} (symbol : Symbol V)
    → is_declared symbol ≡ true
    → watched_value symbol ≡ ok (read_net symbol)
unfolding watched_value
watched_value_lem {V} symbol h =
    go symbol.value symbol.in_left_hand_side symbol.is_library_instance symbol.declaration h
  where
    go :
        (value : Option V) (left library : Bool) (decl : Option Declaration)
        → is_declared (record {
          value = value;
          in_left_hand_side = left;
          is_library_instance = library;
          declaration = decl;
        })
          ≡ true
        → watched_value (record {
          value = value;
          in_left_hand_side = left;
          is_library_instance = library;
          declaration = decl;
        })
          ≡ ok (
              read_net (record {
                value = value;
                in_left_hand_side = left;
                is_library_instance = library;
                declaration = decl;
              }))
    go none left library decl h = refl
    go (some v) true library decl h = refl
    go (some v) false true decl h = refl
    go (some v) false false none h = cc
    go (some v) false false (some decl) h =
        elim (Bool-cases (is_net decl.class && not (is_true decl.view_is_standard))) [
          | inl e ↦ rw e refl
          | inr e ↦ rw e refl
        ]

module _ {V : Type 0} (same : V → V → Bool) where
  -- No entry is the same as an earlier one.
  abbrev pub Unique : List V → Type 0
  Unique [] = Unit
  Unique (v ∷ vs) = All (λ w. same w v ≡ false) vs × Unique vs

  -- The old entries, and behind them values that are read; each value that is read is present, and no
  -- entry is twice there that was not before.
  abbrev pub Watches : (old read new : List V) → Type 0
  Watches old read new =
      (rest : List V) × (new ≡ old ++ rest)
      × ((v : V) → OneOf v read → is_present same v new ≡ true)
      × ((v : V) → OneOf v rest → OneOf v read)
      × (Unique old → Unique new)

  abbrev pub IsAddUnique : (V → List V → List V) → Type 0
  IsAddUnique add_unique =
      (v : V) (vs : List V)
      → add_unique v vs ≡ (if is_present same v vs then vs else vs ++ (v ∷ []))

  present_append :
      (v : V) (vs ws : List V) → is_present same v vs ≡ true → is_present same v (vs ++ ws) ≡ true
  present_append v [] ws h = cc
  present_append v (w ∷ vs) ws h = elim (Bool-cases (same v w)) [
    | inl e ↦ rw e refl
    | inr e ↦ rw e (present_append v vs ws (rw e at h))
  ]

  present_last : (v : V) (vs : List V) → same v v ≡ true → is_present same v (vs ++ (v ∷ [])) ≡ true
  present_last v [] h = rw h refl
  present_last v (w ∷ vs) h = rw (present_last v vs h) (or_true (same v w))

  Unique-append :
      (v : V) (vs : List V) → is_present same v vs ≡ false → Unique vs → Unique (vs ++ (v ∷ []))
  Unique-append v [] h u = (tt, tt)
  Unique-append v (w ∷ vs) h (apart, u) =
      let (h', h'') = neither (same v w) (is_present same v vs) h in
      (last_apart vs apart h', Unique-append v vs h'' u)
    where
      last_apart :
          (vs : List V)
          → All (λ x. same x w ≡ false) vs
          → same v w ≡ false
          → All (λ x. same x w ≡ false) (vs ++ (v ∷ []))
      last_apart [] a h = (h, tt)
      last_apart (x ∷ vs) (a, more) h = (a, last_apart vs more h)

  module _ (reflexive : (v : V) → same v v ≡ true) (add_unique : V → List V → List V)
      (adds : IsAddUnique add_unique) where
    abbrev pub added : List V → List V → List V
    added [] l = l
    added (v ∷ vs) l = added vs (add_unique v l)

    -- One value that is added.
    adds_one : (v : V) (l : List V) → Watches l (v ∷ []) (add_unique v l)
    adds_one v l = elim (Bool-cases (is_present same v l)) [
      | inl e ↦
          rw (adds v l, e)
            (
              [],
              sym (append-nil l),
              λ w o. elim o [ inl o' ↦ rw o' e | inr o' ↦ absurd o' ],
              λ w o. absurd o,
              λ u. u,
            )
      | inr e ↦
          rw (adds v l, e)
            (
              v ∷ [],
              refl,
              λ w o. elim o [
                | inl o' ↦ rw o' (present_last v l (reflexive v))
                | inr o' ↦ absurd o'
              ],
              λ w o. o,
              Unique-append v l e,
            )
    ]

    pub added-Watches : (vs l : List V) → Watches l vs (added vs l)
    added-Watches [] l = ([], sym (append-nil l), λ v o. absurd o, λ v o. o, λ u. u)
    added-Watches (v ∷ vs) l =
        let (rest, e, present, within, unique) = adds_one v l in
        let (rest', e', present', within', unique') = added-Watches vs (add_unique v l) in
        (
          rest ++ rest',
          e' ∙ ap (λ x. x ++ rest') e ∙ append_assoc l rest rest',
          λ w o. elim o [
            | inl o' ↦ rw (e', o') (present_append v (add_unique v l) rest' (present v (inl refl)))
            | inr o' ↦ present' w o'
          ],
          λ w o. elim (OneOf-append w rest rest' o) [
            | inl o' ↦ elim (within w o') [ inl e ↦ inl e | inr o'' ↦ absurd o'' ]
            | inr o' ↦ inr (within' w o')
          ],
          λ u. unique' (unique u),
        )

    pub watch_loop_lem :
        (symbols : List (Symbol V)) (l : List V)
        → All (λ symbol. is_declared symbol ≡ true) symbols
        → watch_loop add_unique symbols l ≡ ok (added (nets_read symbols) l)
    unfolding watch_loop
    watch_loop_lem [] l h = refl
    watch_loop_lem (symbol ∷ symbols) l (h, hs) = elim (Option-cases (read_net symbol)) [
      | inl e ↦ rw (watched_value_lem symbol h, e) (watch_loop_lem symbols l hs)
      | inr (v, e) ↦ rw (watched_value_lem symbol h, e) (watch_loop_lem symbols (add_unique v l) hs)
    ]
