-- ===== src/Verilog/Cones/Sources/Complete.antt =====
-- The calls for a list of cones: each of them has the sources that the graph reaches.
use hif_frontend.Common.{
  ℕ, ◌<◌, ◌≡◌, refl, ◌⊎◌, inl, inr, Option, some, List, [], ◌∷◌, true, ◌==◌, ==_iff, Bool-cases,
}
use hif_frontend.Common.Sets.{member, NodeMap}
use hif_frontend.Verilog.Cones.Sources.{calculate_all}
use hif_frontend.Verilog.Cones.Sources.Reached.{Ranked, Exact, Known}
use hif_frontend.Verilog.Cones.Sources.Calls.{calculate_parent_nodes-Calculated}
use hif_frontend.Verilog.Cones.Sources.Kept.{Grows, calculate_parent_nodes-Grows}

-- A set that is exact stays so while the map grows and is known.
Grows-Exact :
    (parent_map : NodeMap) (s s' : NodeMap) (d : ℕ)
    → Exact parent_map s d
    → Grows s s'
    → Known parent_map s'
    → Exact parent_map s' d
Grows-Exact parent_map s s' d exact grows knows = go (knows d)
  where
    go : (s' d ≡ []) ⊎ Exact parent_map s' d → Exact parent_map s' d
    go (inr exact') n = exact' n
    go (inl e) n = ((λ h. cc (rw e at h)), λ src. grows d n ((exact n).1 src))

-- Every set of the result is exact or empty, and those of the list are exact, and so are those
-- that were before.
abbrev pub Completed :
    (parent_map : NodeMap) (decls : List ℕ) (s : NodeMap) → Option NodeMap → Type 0
Completed parent_map decls s result =
    (s' : NodeMap) × (result ≡ some s')
    × Known parent_map s'
    × Grows s s'
    × ((d : ℕ) → member d decls ≡ true → Exact parent_map s' d)

module _ (parent_map : NodeMap) (rank : ℕ → ℕ) (ranked : Ranked parent_map rank) (fuel : ℕ) where
  split_member :
      (decl d : ℕ) (decls : List ℕ)
      → member d (decl ∷ decls) ≡ true
      → (d ≡ decl) ⊎ (member d decls ≡ true)
  split_member decl d decls h = elim (Bool-cases (d == decl)) [
    | inl e ↦ inl ((==_iff d decl).0 e)
    | inr e ↦ inr (rw e at h)
  ]

  -- If every parent ranks below its node and the fuel is above every rank, the calls return from a
  -- map whose sets are each empty or exact. In the result each set is empty or exact, no node is
  -- lost from a set, and the set of every declaration of the list holds exactly the nodes without
  -- parents that are reached from it through its parents.
  pub calculate_all-Completed :
      ((d : ℕ) → rank d < fuel)
      → (decls : List ℕ) (s : NodeMap) → Known parent_map s
      → Completed parent_map decls s (calculate_all parent_map fuel decls s)
  unfolding calculate_all
  calculate_all-Completed bound [] s knows = (s, refl, knows, (λ d n h. h), λ d h. cc)
  calculate_all-Completed bound (decl ∷ decls) s knows =
      let (s1, eq, knows1, _, exact) =
        calculate_parent_nodes-Calculated parent_map rank ranked fuel fuel decl s (bound decl)
          (bound decl) (λ d lower. knows d) in
      let grows : Grows s s1 = rw eq at (calculate_parent_nodes-Grows parent_map fuel decl s) in
      let (s', eq', knows', grows', exacts) =
        calculate_all-Completed bound decls s1 (λ d. knows1 d (bound d)) in
      rw (eq, calculate_all)
        (
          s',
          eq',
          knows',
          (λ d n h. grows' d n (grows d n h)),
          λ d h. elim (split_member decl d decls h) [
            | inl e ↦ rw e (Grows-Exact parent_map s1 s' decl exact grows' knows')
            | inr later ↦ exacts d later
          ],
        )
