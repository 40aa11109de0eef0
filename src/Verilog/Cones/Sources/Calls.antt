-- ===== src/Verilog/Cones/Sources/Calls.antt =====
-- The calls for the parents, one within the other.
use hif_frontend.Common.{
  ℕ, zero, suc, ◌≤◌, ◌<◌, ◌≡◌, ◌≢◌, refl, ap, ◌∙◌, ◌⊎◌, inl, inr, ◌↔◌, Option, some, List, [], ◌∷◌,
  true, arith, ◌==◌, Bool-cases,
}
use native.Mathlib.Decide.{dec_lt}
use hif_frontend.Common.Sets.{member, is_empty, NodeMap}
use hif_frontend.Verilog.Cones.Sources.{known, add_parent, parents_loop, calculate_parent_nodes}
use hif_frontend.Verilog.Cones.Sources.Reached.{Source, Ranked, Exact, Step}
use hif_frontend.Verilog.Cones.Sources.Added.{or_cases, or_right, eq_of, add_parent_other, joined}

module _ (parent_map : NodeMap) (rank : ℕ → ℕ) (ranked : Ranked parent_map rank) where
  -- Known below a rank.
  abbrev pub KnownBelow : ℕ → NodeMap → Type 0
  KnownBelow r s = (d : ℕ) → rank d < r → (s d ≡ []) ⊎ Exact parent_map s d

  abbrev pub Same : ℕ → NodeMap → NodeMap → Type 0
  Same r s s' = (d : ℕ) → r ≤ rank d → s' d ≡ s d

  -- The call for a node does its work below a rank, and leaves the rest.
  abbrev pub Calculated : (r node : ℕ) (s : NodeMap) → Option NodeMap → Type 0
  Calculated r node s result =
      (s' : NodeMap) × (result ≡ some s') × KnownBelow r s' × Same r s s' × Exact parent_map s' node

  abbrev Calculates : (ℕ → NodeMap → Option NodeMap) → ℕ → Type 0
  Calculates calculate r =
      (node : ℕ) (s : NodeMap)
      → rank node < r
      → KnownBelow r s
      → Calculated r node s (calculate node s)

  known-Calculated :
      (calculate : ℕ → NodeMap → Option NodeMap) (r node : ℕ) (s : NodeMap)
      → Calculates calculate r
      → rank node < r
      → KnownBelow r s
      → Calculated r node s (known calculate node s)
  known-Calculated calculate r node s calculates below knows = go (knows node below)
    where
      go : (s node ≡ []) ⊎ Exact parent_map s node → Calculated r node s (known calculate node s)
      go (inl e) = rw (e, known) (calculates node s below knows)
      go (inr exact) = elim (Bool-cases (is_empty (s node))) [
        | inl e ↦ rw (e, known) (calculates node s below knows)
        | inr e ↦ rw (e, known) (s, refl, knows, (λ d h. refl), exact)
      ]

  abbrev Contributes : (n : ℕ) (nodes : List ℕ) (before : Type 0) → Type 0
  Contributes n nodes before = ((m : ℕ) × (member m nodes ≡ true) × Step parent_map m n) ⊎ before

  contributes_next :
      {Before After End : Type 0} (n node : ℕ) (nodes : List ℕ)
      → End ↔ Contributes n nodes After
      → After ↔ ((Step parent_map node n) ⊎ Before)
      → End ↔ Contributes n (node ∷ nodes) Before
  contributes_next {Before} {After} {End} n node nodes (out, into) (split, back) =
      ((λ h. forth (out h)), λ h. into (again h))
    where
      next : (Step parent_map node n) ⊎ Before → Contributes n (node ∷ nodes) Before
      next (inl step) = inl (node, ground arith, step)
      next (inr old) = inr old

      forth : Contributes n nodes After → Contributes n (node ∷ nodes) Before
      forth (inl (m, there, step)) = inl (m, or_right (m == node) _ there, step)
      forth (inr after) = next (split after)

      here : (m : ℕ) → Step parent_map m n → (m == node) ≡ true → After
      here m step e = back (inl (rw (eq_of e) at step))

      again : Contributes n (node ∷ nodes) Before → Contributes n nodes After
      again (inl (m, there, step)) = elim (or_cases (m == node) _ there) [
        | inl e ↦ inr (here m step e)
        | inr later ↦ inl (m, later, step)
      ]
      again (inr old) = inr (back (inr old))

  abbrev Looped : (decl : ℕ) (nodes : List ℕ) (s : NodeMap) → Option NodeMap → Type 0
  Looped decl nodes s result =
      (s' : NodeMap) × (result ≡ some s')
      × KnownBelow (rank decl) s'
      × ((e : ℕ) → e ≢ decl → rank decl ≤ rank e → s' e ≡ s e)
      × ((n : ℕ) → (member n (s' decl) ≡ true) ↔ Contributes n nodes (member n (s decl) ≡ true))

  add_parent-KnownBelow :
      (decl node : ℕ) (s : NodeMap)
      → KnownBelow (rank decl) s
      → KnownBelow (rank decl) (add_parent decl node s)
  add_parent-KnownBelow decl node s knows d below =
      let ne : d ≢ decl = λ p. absurd (omega (arith, ap rank p)) in
      rw (add_parent_other decl node d s ne) (knows d below)

  parents_loop-Looped :
      (calculate : ℕ → NodeMap → Option NodeMap) (decl : ℕ)
      → Calculates calculate (rank decl)
      → (nodes : List ℕ) (s : NodeMap) → ((m : ℕ) → member m nodes ≡ true → rank m < rank decl)
      → KnownBelow (rank decl) s
      → Looped decl nodes s (parents_loop calculate decl nodes s)
  unfolding parents_loop
  parents_loop-Looped calculate decl calculates [] s below knows = (
    s,
    refl,
    knows,
    (λ e ne h. refl),
    λ n. (inr, λ h. elim h [ inl (m, there, step) ↦ cc | inr old ↦ old ]),
  )
  parents_loop-Looped calculate decl calculates (node ∷ nodes) s below knows =
      let (s1, eq, knows1, same, exact) =
        known-Calculated calculate (rank decl) node s calculates (below node (ground arith))
          knows in
      let s2 = add_parent decl node s1 in
      let (s3, eq3, knows3, same3, members) =
        parents_loop-Looped calculate decl calculates nodes s2
          (λ m h. below m (or_right (m == node) _ h)) (add_parent-KnownBelow decl node s1 knows1) in
      rw (eq, parents_loop)
        (
          s3,
          eq3,
          knows3,
          (λ e ne h. same3 e ne h ∙ add_parent_other decl node e s1 ne ∙ same e h),
          λ n.
              contributes_next n node nodes (members n)
                (joined parent_map rank ranked decl node s s1 (same decl (omega arith)) exact n),
        )

  -- A node that has got the contributions of all its parents, on top of none or of its sources.
  looped-Exact :
      (decl : ℕ) (s s' : NodeMap)
      → (s decl ≡ []) ⊎ Exact parent_map s decl
      → ((n : ℕ)
          → (member n (s' decl) ≡ true)
            ↔ Contributes n (parent_map decl) (member n (s decl) ≡ true))
      → Exact parent_map s' decl
  looped-Exact decl s s' before members n =
      let (out, into) = members n in ((λ h. source (out h)), λ src. into (inl (contribution src)))
    where
      old_source :
          (s decl ≡ []) ⊎ Exact parent_map s decl
          → member n (s decl) ≡ true
          → Source parent_map decl n
      old_source (inl e) h = cc (rw e at h)
      old_source (inr exact) h = (exact n).0 h

      source : Contributes n (parent_map decl) (member n (s decl) ≡ true) → Source parent_map decl n
      source (inl (m, there, inl (no_parents, e))) = rw e (Source.direct there no_parents)
      source (inl (m, there, inr src)) = Source.behind there src
      source (inr old) = old_source before old

      contribution :
          Source parent_map decl n
          → (m : ℕ) × (member m (parent_map decl) ≡ true) × Step parent_map m n
      contribution (Source.direct {n = k} there no_parents) = (k, there, inl (no_parents, refl))
      contribution (Source.behind {m = m} there src) = (m, there, inr src)

  spread :
      (decl r : ℕ) (s s' : NodeMap)
      → KnownBelow r s
      → KnownBelow (rank decl) s'
      → ((e : ℕ) → e ≢ decl → rank decl ≤ rank e → s' e ≡ s e)
      → Exact parent_map s' decl
      → KnownBelow r s'
  spread decl r s s' knows knows' same exact d below = elim (dec_lt (rank d) (rank decl)) [
    | yes lower ↦ knows' d lower
    | no higher ↦ elim (Bool-cases (d == decl)) [
      | inl e ↦ rw (eq_of e) (inr exact)
      | inr e ↦ rw (same d (ground (arith, e)) (omega (arith, higher))) (knows d below)
    ]
  ]

  pub calculate_parent_nodes-Calculated :
      (fuel r decl : ℕ) (s : NodeMap)
      → rank decl < fuel
      → rank decl < r
      → KnownBelow r s
      → Calculated r decl s (calculate_parent_nodes parent_map fuel decl s)
  unfolding calculate_parent_nodes
  calculate_parent_nodes-Calculated zero r decl s lt below knows = absurd (omega arith)
  calculate_parent_nodes-Calculated (suc fuel) r decl s lt below knows =
      let (s', eq, knows', same, members) =
        parents_loop-Looped (calculate_parent_nodes parent_map fuel) decl
          (λ m t lower knows.
            calculate_parent_nodes-Calculated fuel (rank decl) m t (omega arith) lower knows)
          (parent_map decl) s (λ m there. ranked decl m there) (λ d lower. knows d (omega arith)) in
      let exact = looped-Exact decl s s' (knows decl below) members in
      (
        s',
        eq,
        spread decl r s s' knows knows' same exact,
        (λ d h. same d (λ p. absurd (omega (arith, ap rank p))) (omega arith)),
        exact,
      )
