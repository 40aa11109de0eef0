-- ===== src/Verilog/Cones/Sources/Added.antt =====
-- What one parent adds to the set of a node.
use hif_frontend.Common.{
  ℕ, ◌≡◌, ◌≢◌, refl, ◌⊎◌, inl, inr, ◌↔◌, List, [], ◌∷◌, Bool, true, false, ◌||◌, arith,
  if◌then◌else◌, ◌==◌, Bool-cases,
}
use hif_frontend.Common.Sets.{
  member, insert, insert_all, is_empty, NodeMap, member-insert, member-insert_all, assign_same,
  assign_other,
}
use hif_frontend.Verilog.Cones.Sources.{add_parent}
use hif_frontend.Verilog.Cones.Sources.Reached.{Ranked, Exact, Step, no_source, Exact-no_parents}

pub or_cases : (a b : Bool) → (a || b) ≡ true → (a ≡ true) ⊎ (b ≡ true)
or_cases true b h = inl refl
or_cases false b h = inr h

pub or_left : (a b : Bool) → a ≡ true → (a || b) ≡ true
or_left a b h = ground arith

pub or_right : (a b : Bool) → b ≡ true → (a || b) ≡ true
or_right a b h = ground arith

pub eq_of : {n m : ℕ} → (n == m) ≡ true → n ≡ m
eq_of h = ground arith

member-add_parent :
    (decl node n : ℕ) (s : NodeMap)
    → member n (add_parent decl node s decl)
      ≡ ((if is_empty (s node) then n == node else member n (s node)) || member n (s decl))
member-add_parent decl node n s = elim (Bool-cases (is_empty (s node))) [
  | inl e ↦ rw e (rw (assign_same decl (insert node (s decl)) s) (member-insert n node (s decl)))
  | inr e ↦ rw e (
      rw (assign_same decl (insert_all (s node) (s decl)) s)
        (member-insert_all n (s node) (s decl)))
]

pub add_parent_other : (decl node e : ℕ) (s : NodeMap) → e ≢ decl → add_parent decl node s e ≡ s e
add_parent_other decl node e s ne = elim (Bool-cases (is_empty (s node))) [
  | inl h ↦ rw h (assign_other decl e (insert node (s decl)) s ne)
  | inr h ↦ rw h (assign_other decl e (insert_all (s node) (s decl)) s ne)
]

module _ (parent_map : NodeMap) (rank : ℕ → ℕ) (ranked : Ranked parent_map rank) where
  -- What `add_parent` adds is what the parent contributes.
  given-Step :
      (node n : ℕ) (s : NodeMap)
      → Exact parent_map s node
      → ((if is_empty (s node) then n == node else member n (s node)) ≡ true)
        ↔ Step parent_map node n
  given-Step node n s exact = go (s node) refl
    where
      go :
          (ks : List ℕ)
          → s node ≡ ks
          → ((if is_empty (s node) then n == node else member n (s node)) ≡ true)
            ↔ Step parent_map node n
      go [] e =
          let no_parents = Exact-no_parents parent_map rank ranked s node exact e in
          (
            (λ h. inl (no_parents, eq_of (rw e at h))),
            λ step. elim step [
              | inl p ↦ rw e (rw (p.1) (ground arith))
              | inr src ↦ absurd (no_source parent_map rank ranked node n no_parents src)
            ],
          )
      go (k ∷ ks) e =
          let k_there : member k (s node) ≡ true = rw e (ground arith) in
          (
            (λ h. inr ((exact n).0 (rw e (rw e at h)))),
            λ step. elim step [
              | inl p ↦ absurd (no_source parent_map rank ranked node k (p.0) ((exact k).0 k_there))
              | inr src ↦ rw e (rw e at ((exact n).1 src))
            ],
          )

  pub joined :
      (decl node : ℕ) (before s : NodeMap)
      → s decl ≡ before decl
      → Exact parent_map s node
      → (n : ℕ)
      → (member n (add_parent decl node s decl) ≡ true)
        ↔ ((Step parent_map node n) ⊎ (member n (before decl) ≡ true))
  joined decl node before s e exact n = rw (member-add_parent decl node n s) (
      let given = given-Step node n s exact in
      (
        (λ h. elim (or_cases _ _ h) [ inl g ↦ inl (given.0 g) | inr old ↦ inr (rw e at old) ]),
        λ h. elim h [
          | inl step ↦ or_left _ _ (given.1 step)
          | inr old ↦
              or_right (if is_empty (s node) then n == node else member n (s node))
                (member n (s decl)) (rw e old)
        ],
      ))
