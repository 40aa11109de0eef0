-- ===== src/Verilog/Cones/Sources/Kept.antt =====
-- The calls only add to the sets.
use hif_frontend.Common.{
  ℕ, zero, suc, ◌≡◌, inl, inr, Option, none, some, List, [], ◌∷◌, true, arith, ◌==◌, ==_iff,
  Bool-cases,
}
use hif_frontend.Common.Sets.{
  member, insert, insert_all, is_empty, NodeMap, assign, member-insert, member-insert_all,
}
use hif_frontend.Verilog.Cones.Sources.{known, add_parent, parents_loop, calculate_parent_nodes}

abbrev pub Grows : NodeMap → NodeMap → Type 0
Grows s s' = (d n : ℕ) → member n (s d) ≡ true → member n (s' d) ≡ true

-- If there is a result, it has grown.
abbrev pub GrowsTo : NodeMap → Option NodeMap → Type 0
GrowsTo s none = Unit {0}
GrowsTo s (some s') = Grows s s'

Grows-trans : (s s' : NodeMap) (r : Option NodeMap) → Grows s s' → GrowsTo s' r → GrowsTo s r
Grows-trans s s' none g h = record {}
Grows-trans s s' (some t) g h = λ d n there. h d n (g d n there)

assign-Grows :
    (k : ℕ) (xs : List ℕ) (s : NodeMap)
    → ((n : ℕ) → member n (s k) ≡ true → member n xs ≡ true)
    → Grows s (assign k xs s)
assign-Grows k xs s more d n h = elim (Bool-cases (d == k)) [
  | inl e ↦ rw e (more n (rw ((==_iff d k).0 e) at h))
  | inr e ↦ rw e h
]

add_parent-Grows : (decl node : ℕ) (s : NodeMap) → Grows s (add_parent decl node s)
add_parent-Grows decl node s = elim (Bool-cases (is_empty (s node))) [
  | inl e ↦ rw e (
      assign-Grows decl (insert node (s decl)) s
        (λ n h. rw (member-insert n node (s decl)) (ground arith)))
  | inr e ↦ rw e (
      assign-Grows decl (insert_all (s node) (s decl)) s
        (λ n h. rw (member-insert_all n (s node) (s decl)) (ground arith)))
]

known-Grows :
    (calculate : ℕ → NodeMap → Option NodeMap) (node : ℕ) (s : NodeMap)
    → GrowsTo s (calculate node s)
    → GrowsTo s (known calculate node s)
known-Grows calculate node s g = elim (Bool-cases (is_empty (s node))) [
  | inl e ↦ rw (e, known) g
  | inr e ↦ rw (e, known) (λ d n h. h)
]

parents_loop-Grows :
    (calculate : ℕ → NodeMap → Option NodeMap) (decl : ℕ)
    → ((node : ℕ) (s : NodeMap) → GrowsTo s (calculate node s))
    → (nodes : List ℕ) (s : NodeMap) → GrowsTo s (parents_loop calculate decl nodes s)
unfolding parents_loop
parents_loop-Grows calculate decl grows [] s = λ d n h. h
parents_loop-Grows calculate decl grows (node ∷ nodes) s =
    go (known calculate node s) (known-Grows calculate node s (grows node s))
      (parents_loop-Grows calculate decl grows nodes)
  where
    go :
        (r : Option NodeMap)
        → GrowsTo s r
        → ((t : NodeMap) → GrowsTo t (parents_loop calculate decl nodes t))
        → GrowsTo s (elim r [
          | none ↦ none
          | some t ↦ parents_loop calculate decl nodes (add_parent decl node t)
        ])
    go none g rest = record {}
    go (some t) g rest =
        Grows-trans s (add_parent decl node t) _
          (λ d n h. add_parent-Grows decl node t d n (g d n h)) (rest (add_parent decl node t))

pub calculate_parent_nodes-Grows :
    (parent_map : NodeMap) (fuel decl : ℕ) (s : NodeMap)
    → GrowsTo s (calculate_parent_nodes parent_map fuel decl s)
unfolding calculate_parent_nodes
calculate_parent_nodes-Grows parent_map zero decl s = record {}
calculate_parent_nodes-Grows parent_map (suc fuel) decl s =
    parents_loop-Grows (calculate_parent_nodes parent_map fuel) decl
      (calculate_parent_nodes-Grows parent_map fuel) (parent_map decl) s
