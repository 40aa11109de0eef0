-- ===== src/Verilog/Constants/Folding.antt =====
-- Which assignments of a global action are folded, and what the declarations hold afterwards.
use hif_frontend.Common.{
  and_both, arith, ℕ, ◌≡◌, refl, ap, ◌∙◌, ◌⊎◌, inl, inr, Bool, true, false, not, ◌&&◌, Option, none,
  some, List, [], ◌∷◌, ◌==◌, if◌then◌else◌, keep, All, Bool-cases,
}
use hif_frontend.Common.Outcome.{Result, ok}
use hif_frontend.Verilog.Constants.{
  Declaration, Symbol, is_data, identifier, other_target, GlobalAction, assign, other_action,
  set_value, constant_loop, foldable_loop, is_constant_expr, is_foldable_into_declaration, stay,
  visit_global_action,
}

-- A test that each symbol passes: an instance of a library, or a declaration that is there and passes.
abbrev declared_test : (Declaration → Bool) → Bool → Option Declaration → Bool
declared_test p true decl = true
declared_test p false none = false
declared_test p false (some decl) = p decl

abbrev all_symbols : (Declaration → Bool) → List Symbol → Bool
all_symbols p [] = true
all_symbols p (symbol ∷ symbols) =
    declared_test p symbol.is_library_instance symbol.declaration && all_symbols p symbols

abbrev pub all_declared : List Symbol → Bool
all_declared = all_symbols (λ decl. true)

abbrev is_fixed : Declaration → Bool
is_fixed decl = not (is_data decl.class)

abbrev is_outside : Declaration → Bool
is_outside decl = not decl.in_contents

-- No symbol is a signal, a port or a variable, and none has its declaration in a `Contents`.
abbrev pub all_reachable : List Symbol → Bool
all_reachable = all_symbols (λ decl. is_fixed decl && is_outside decl)

constant_step :
    (b : Bool) (d : Option Declaration) (n : _) (symbols : List Symbol)
    → (declared_test (λ decl. true) b d && all_declared symbols) ≡ true
    → (all_declared symbols ≡ true → constant_loop symbols ≡ ok (all_symbols is_fixed symbols))
    → constant_loop (record { call_name = n; is_library_instance = b; declaration = d } ∷ symbols)
      ≡ ok (declared_test is_fixed b d && all_symbols is_fixed symbols)
unfolding constant_loop
constant_step true d n symbols h rest = rest h
constant_step false none n symbols h rest = cc
constant_step false (some d) n symbols h rest = elim (Bool-cases (is_data d.class)) [
  | inl e ↦ rw e refl
  | inr e ↦ rw e (rest h)
]

constant_loop_lem :
    (symbols : List Symbol)
    → all_declared symbols ≡ true
    → constant_loop symbols ≡ ok (all_symbols is_fixed symbols)
unfolding constant_loop
constant_loop_lem [] h = refl
constant_loop_lem (symbol ∷ symbols) h =
    constant_step symbol.is_library_instance symbol.declaration symbol.call_name symbols h
      (constant_loop_lem symbols)

foldable_step :
    (b : Bool) (d : Option Declaration) (n : _) (symbols : List Symbol)
    → (declared_test (λ decl. true) b d && all_declared symbols) ≡ true
    → (all_declared symbols ≡ true → foldable_loop symbols ≡ ok (all_symbols is_outside symbols))
    → foldable_loop (record { call_name = n; is_library_instance = b; declaration = d } ∷ symbols)
      ≡ ok (declared_test is_outside b d && all_symbols is_outside symbols)
unfolding foldable_loop
foldable_step true d n symbols h rest = rest h
foldable_step false none n symbols h rest = cc
foldable_step false (some d) n symbols h rest = elim (Bool-cases d.in_contents) [
  | inl e ↦ rw e refl
  | inr e ↦ rw e (rest h)
]

foldable_loop_lem :
    (symbols : List Symbol)
    → all_declared symbols ≡ true
    → foldable_loop symbols ≡ ok (all_symbols is_outside symbols)
unfolding foldable_loop
foldable_loop_lem [] h = refl
foldable_loop_lem (symbol ∷ symbols) h =
    foldable_step symbol.is_library_instance symbol.declaration symbol.call_name symbols h
      (foldable_loop_lem symbols)

both_tests :
    (p q : Declaration → Bool) (b : Bool) (d : Option Declaration) (x y : Bool)
    → (declared_test p b d && x && (declared_test q b d && y))
      ≡ (declared_test (λ decl. p decl && q decl) b d && (x && y))
both_tests p q true d x y = refl
both_tests p q false none x y = refl
both_tests p q false (some d) x y = go (p d) (q d) x y
  where
    go : (a b x y : Bool) → (a && x && (b && y)) ≡ (a && b && (x && y))
    go a b x y = ground arith

all_symbols-and :
    (p q : Declaration → Bool) (symbols : List Symbol)
    → (all_symbols p symbols && all_symbols q symbols)
      ≡ all_symbols (λ decl. p decl && q decl) symbols
all_symbols-and p q [] = refl
all_symbols-and p q (symbol ∷ symbols) =
    both_tests p q symbol.is_library_instance symbol.declaration (all_symbols p symbols)
      (all_symbols q symbols)
    ∙ rw (all_symbols-and p q symbols) refl

module _ {V : Type 0} (collect_symbols : V → List Symbol) where
  abbrev pub all_of_value : (List Symbol → Bool) → Option V → Bool
  all_of_value p none = true
  all_of_value p (some v) = p (collect_symbols v)

  pub is_foldable_into_declaration_lem :
      (v : Option V)
      → all_of_value all_declared v ≡ true
      → is_foldable_into_declaration collect_symbols v ≡ ok (all_of_value all_reachable v)
  unfolding is_foldable_into_declaration is_constant_expr
  is_foldable_into_declaration_lem none h = refl
  is_foldable_into_declaration_lem (some v) h =
      let c = constant_loop_lem (collect_symbols v) h in
      let f = foldable_loop_lem (collect_symbols v) h in
      rw c (
        go (all_symbols is_fixed (collect_symbols v)) (all_symbols is_outside (collect_symbols v))
          (all_symbols-and is_fixed is_outside (collect_symbols v)) f)
    where
      go :
          (a b : Bool) {r : Result Bool} {s : Bool}
          → (a && b) ≡ s
          → r ≡ ok b
          → (if a then r else ok false) ≡ ok s
      go true b e f = f ∙ ap ok e
      go false b e f = ap ok e

  module _ {A L : Type 0} where
    -- An assignment, declared, with its symbols.
    abbrev pub is_declared_action : GlobalAction A L V → Bool
    is_declared_action (other_action a) = false
    is_declared_action (assign (identifier none) right) = false
    is_declared_action (assign (identifier (some d)) right) = all_of_value all_declared right
    is_declared_action (assign (other_target l) right) = all_of_value all_declared right

    -- An identifier that gets what an entity sees and no run changes.
    abbrev pub is_folded : GlobalAction A L V → Bool
    is_folded (assign (identifier d) right) = all_of_value all_reachable right
    is_folded _ = false

    -- The last value that a folded assignment gives a declaration.
    abbrev pub last_value : ℕ → List (GlobalAction A L V) → Option V → Option V
    last_value d [] old = old
    last_value d (assign (identifier (some x)) right ∷ actions) old =
        last_value d actions (if all_of_value all_reachable right && d == x then right else old)
    last_value d (_ ∷ actions) old = last_value d actions old

    abbrev Visited : List (GlobalAction A L V) → (ℕ → Option V) → Type 0
    Visited actions values =
        (after : (ℕ → Option V)) × (visit_global_action collect_symbols actions values
          ≡ ok (keep (λ a. not (is_folded a)) actions, after))
        × ((d : ℕ) → after d ≡ last_value d actions (values d))

    kept_action :
        (a : GlobalAction A L V) (actions : List (GlobalAction A L V)) (values : ℕ → Option V)
        → Visited actions values
        → (after : (ℕ → Option V)) × (stay a (visit_global_action collect_symbols actions values)
            ≡ ok (a ∷ keep (λ a. not (is_folded a)) actions, after))
          × ((d : ℕ) → after d ≡ last_value d actions (values d))
    kept_action a actions values (after, e, each) = (after, rw e refl, each)

    visited :
        (actions : List (GlobalAction A L V)) (values : ℕ → Option V)
        → All (λ a. is_declared_action a ≡ true) actions
        → Visited actions values
    unfolding visit_global_action
    visited [] values h = (values, refl, λ d. refl)
    visited (other_action a ∷ actions) values (h, hs) = cc
    visited (assign (identifier none) right ∷ actions) values (h, hs) = cc
    visited (assign (identifier (some x)) right ∷ actions) values (h, hs) =
        elim (Bool-cases (all_of_value all_reachable right)) [
          | inl e ↦
              let (after, e', each) = visited actions (set_value x right values) hs in
              (after, rw (is_foldable_into_declaration_lem right h, e) e', λ d. rw e (each d))
          | inr e ↦
              let (after, e', each) = visited actions values hs in
              (after, rw (is_foldable_into_declaration_lem right h, e, e') refl, λ d. rw e (each d))
        ]
    visited (assign (other_target l) right ∷ actions) values (h, hs) =
        elim (Bool-cases (all_of_value all_reachable right)) [
          | inl e ↦
              let (after, e', each) = visited actions values hs in
              (after, rw (is_foldable_into_declaration_lem right h, e, e') refl, each)
          | inr e ↦
              let (after, e', each) = visited actions values hs in
              (after, rw (is_foldable_into_declaration_lem right h, e, e') refl, each)
        ]

    last_value-Reachable :
        (d : ℕ) (actions : List (GlobalAction A L V)) (old : Option V)
        → (last_value d actions old ≡ old)
          ⊎ (all_of_value all_reachable (last_value d actions old) ≡ true)
    last_value-Reachable d [] old = inl refl
    last_value-Reachable d (other_action a ∷ actions) old = last_value-Reachable d actions old
    last_value-Reachable d (assign (other_target l) right ∷ actions) old =
        last_value-Reachable d actions old
    last_value-Reachable d (assign (identifier none) right ∷ actions) old =
        last_value-Reachable d actions old
    last_value-Reachable d (assign (identifier (some x)) right ∷ actions) old =
        elim (Bool-cases (all_of_value all_reachable right && d == x)) [
          | inr e ↦ rw e (last_value-Reachable d actions old)
          | inl e ↦ rw e (elim (last_value-Reachable d actions right) [
            | inl e' ↦ inr (rw e' ((and_both (all_of_value all_reachable right) (d == x) e).0))
            | inr e' ↦ inr e'
          ])
        ]

    -- If each action is an assignment whose symbols and whose identifier are declared, the loop
    -- leaves, in their order, the assignments that are not to an identifier or use a signal, a port,
    -- a variable or what a `Contents` declares; each declaration holds the value of the last
    -- assignment to it that left, or what it held before; and what it holds anew uses none of these.
    pub visit_global_action_lem :
        (actions : List (GlobalAction A L V)) (values : ℕ → Option V)
        → All (λ a. is_declared_action a ≡ true) actions
        → (after : (ℕ → Option V)) × (visit_global_action collect_symbols actions values
            ≡ ok (keep (λ a. not (is_folded a)) actions, after))
          × ((d : ℕ) → after d ≡ last_value d actions (values d))
          × ((d : ℕ) → (after d ≡ values d) ⊎ (all_of_value all_reachable (after d) ≡ true))
    visit_global_action_lem actions values h =
        let (after, e, each) = visited actions values h in
        (after, e, each, λ d. rw (each d) (last_value-Reachable d actions (values d)))
