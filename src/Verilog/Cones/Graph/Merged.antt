-- ===== src/Verilog/Cones/Graph/Merged.antt =====
-- What merging the parents without a cone keeps of the graph, and what it puts into the cones.
use hif_frontend.Common.{
  ℕ, ◌≡◌, refl, ◌∙◌, Bool, true, false, not, ◌&&◌, ◌||◌, ◌↔◌, ◌⊎◌, inl, inr, List, [], ◌∷◌, ◌==◌,
  ==_iff, arith, Bool-cases,
}
use hif_frontend.Common.Sets.{member, NodeMap, assign, member-assign-insert_all}
use hif_frontend.Verilog.Cones.Info.{Analysis}
use hif_frontend.Verilog.Cones.Graph.{
  LogicGraph, merge_parent, Merge, push_front_all, merge_step, merge_parents, merge_all,
}
use hif_frontend.Verilog.Cones.Graph.Mirror.{Mirrored, merge_parent-Mirrored}

-- `s` is reached from `d` by one step to a source or more.
pub data Reaches (first : NodeMap) : ℕ → ℕ → Type 0 where
  step : {d s : ℕ} → member s (first d) ≡ true → Reaches first d s
  via : {d m s : ℕ} → member m (first d) ≡ true → Reaches first m s → Reaches first d s

Reaches-trans :
    {first : NodeMap} {d m s : ℕ} → Reaches first d m → Reaches first m s → Reaches first d s
Reaches-trans (Reaches.step h) r = Reaches.via h r
Reaches-trans (Reaches.via h r') r = Reaches.via h (Reaches-trans r' r)

-- If each single step of one graph is a path of the other, so is each path.
Reaches-map :
    {first first' : NodeMap}
    → ((d s : ℕ) → member s (first d) ≡ true → Reaches first' d s)
    → {d s : ℕ} → Reaches first d s
    → Reaches first' d s
Reaches-map f (Reaches.step h) = f _ _ h
Reaches-map f (Reaches.via h r) = Reaches-trans (f _ _ h) (Reaches-map f r)

abbrev SameReach : (first first' : NodeMap) → Type 0
SameReach first first' = (d s : ℕ) → Reaches first d s ↔ Reaches first' d s

new_edge : (a b m : Bool) → m ≡ false → ((a && b) || m) ≡ true → (a ≡ true) × (b ≡ true)
new_edge a b m h h' = ground arith

merge_parent-SameReach :
    (decl parent : ℕ) (g : LogicGraph)
    → member parent (g.first decl) ≡ true
    → SameReach (g.first) ((merge_parent decl parent g).first)
merge_parent-SameReach decl parent g there d s = (Reaches-map forth, Reaches-map back)
  where
    forth : (d s : ℕ) → member s (g.first d) ≡ true → Reaches (merge_parent decl parent g).first d s
    forth d s h =
        Reaches.step
          (rw (member-assign-insert_all s d decl (g.first parent) (g.first)) (ground (arith, h)))

    back :
        (d s : ℕ) → member s ((merge_parent decl parent g).first d) ≡ true → Reaches (g.first) d s
    back d s h = elim (Bool-cases (member s (g.first d))) [
      | inl old ↦ Reaches.step old
      | inr new ↦
          let (same, behind) =
            new_edge (d == decl) (member s (g.first parent)) (member s (g.first d)) new
              (rw (member-assign-insert_all s d decl (g.first parent) (g.first)) at h) in
          rw ((==_iff d decl).0 same) (Reaches.via there (Reaches.step behind))
    ]

SameReach-trans : (f f' f'' : NodeMap) → SameReach f f' → SameReach f' f'' → SameReach f f''
SameReach-trans f f' f'' p q d s = ((λ r. (q d s).0 ((p d s).0 r)), λ r. (p d s).1 ((q d s).1 r))

member-push_front_all :
    (r : ℕ) (xs actions : List ℕ)
    → member r (push_front_all xs actions) ≡ (member r xs || member r actions)
member-push_front_all r [] actions = refl
member-push_front_all r (x ∷ xs) actions = member-push_front_all r xs (x ∷ actions) ∙ ground arith

member-pushed :
    (r d decl : ℕ) (xs : List ℕ) (actions : NodeMap)
    → member r (assign decl (push_front_all xs (actions decl)) actions d)
      ≡ ((d == decl && member r xs) || member r (actions d))
member-pushed r d decl xs actions = elim (Bool-cases (d == decl)) [
  | inl e ↦ rw e (member-push_front_all r xs (actions decl) ∙ rw ((==_iff d decl).0 e) refl)
  | inr e ↦ rw e refl
]

both : (a b : Bool) → (a && not b) ≡ true → (a ≡ true) × (b ≡ false)
both a b h = ground arith

module _ (info : Analysis) (cones : List ℕ) where
  -- `r` is a target of a parent that `d` reaches and that has no cone.
  abbrev pub MergedFrom : (first : NodeMap) (d r : ℕ) → Type 0
  MergedFrom first d r =
      (p : ℕ) × Reaches first d p
      × (member p cones ≡ false)
      × (member r (info.infos p).lhs_continuous_using ≡ true)

  abbrev pub Merges : (before after : Merge) → Type 0
  Merges m m' =
      (Mirrored (m.graph) → Mirrored (m'.graph))
      × SameReach (m.graph.first) (m'.graph.first)
      × ((d r : ℕ) → member r (m.actions d) ≡ true → member r (m'.actions d) ≡ true)
      × ((d r : ℕ)
          → member r (m'.actions d) ≡ true
          → (member r (m.actions d) ≡ true) ⊎ MergedFrom (m.graph.first) d r)

  Merges-trans : (m m' m'' : Merge) → Merges m m' → Merges m' m'' → Merges m m''
  Merges-trans m m' m'' (mirror, reach, grow, from) (mirror', reach', grow', from') = (
    (λ h. mirror' (mirror h)),
    SameReach-trans (m.graph.first) (m'.graph.first) (m''.graph.first) reach reach',
    (λ d r h. grow' d r (grow d r h)),
    source,
  )
    where
      source :
          (d r : ℕ)
          → member r (m''.actions d) ≡ true
          → (member r (m.actions d) ≡ true) ⊎ MergedFrom (m.graph.first) d r
      source d r h = elim (from' d r h) [
        | inl old ↦ from d r old
        | inr (p, path, free, there) ↦ inr (p, (reach d p).1 path, free, there)
      ]

  merge_step-Merges : (decl parent : ℕ) (m : Merge) → Merges m (merge_step info cones decl parent m)
  merge_step-Merges decl parent m =
      elim (Bool-cases (member parent (m.graph.first decl) && not (member parent cones))) [
        | inl e ↦
            let (there, free) = both (member parent (m.graph.first decl)) (member parent cones) e in
            rw e (
              merge_parent-Mirrored decl parent (m.graph),
              merge_parent-SameReach decl parent (m.graph) there,
              (λ d r h.
                  rw (member-pushed r d decl (info.infos parent).lhs_continuous_using (m.actions))
                    (ground (arith, h))),
              λ d r h. pushed d r there free (
                  rw (member-pushed r d decl (info.infos parent).lhs_continuous_using (m.actions))
                    at h),
            )
        | inr e ↦ rw e ((λ h. h), (λ d s. ((λ r. r), λ r. r)), (λ d r h. h), λ d r h. inl h)
      ]
    where
      pushed :
          (d r : ℕ)
          → member parent (m.graph.first decl) ≡ true
          → member parent cones ≡ false
          → ((d == decl && member r (info.infos parent).lhs_continuous_using)
              || member r (m.actions d))
            ≡ true
          → (member r (m.actions d) ≡ true) ⊎ MergedFrom (m.graph.first) d r
      pushed d r there free h = elim (Bool-cases (member r (m.actions d))) [
        | inl old ↦ inl old
        | inr new ↦
            let (same, copied) =
              new_edge (d == decl) (member r (info.infos parent).lhs_continuous_using)
                (member r (m.actions d)) new h in
            inr (parent, rw ((==_iff d decl).0 same) (Reaches.step there), free, copied)
      ]

  merge_parents-Merges :
      (decl : ℕ) (sorted : List ℕ) (m : Merge) → Merges m (merge_parents info cones decl sorted m)
  unfolding merge_parents
  merge_parents-Merges decl [] m =
      ((λ h. h), (λ d s. ((λ r. r), λ r. r)), (λ d r h. h), λ d r h. inl h)
  merge_parents-Merges decl (parent ∷ sorted) m =
      Merges-trans m (merge_step info cones decl parent m)
        (merge_parents info cones decl (parent ∷ sorted) m) (merge_step-Merges decl parent m)
        (merge_parents-Merges decl sorted (merge_step info cones decl parent m))

  -- The two maps mirror each other after the merging if they did before, and a declaration reaches
  -- the same ones through its sources as before. No action leaves a cone, and each new action of a
  -- cone is a copy of an assign to a declaration that the cone's one reaches and that has no cone.
  pub merge_all-Merges :
      (decls sorted : List ℕ) (m : Merge) → Merges m (merge_all info cones decls sorted m)
  unfolding merge_all
  merge_all-Merges [] sorted m =
      ((λ h. h), (λ d s. ((λ r. r), λ r. r)), (λ d r h. h), λ d r h. inl h)
  merge_all-Merges (decl ∷ decls) sorted m =
      Merges-trans m (merge_parents info cones decl sorted m)
        (merge_all info cones (decl ∷ decls) sorted m) (merge_parents-Merges decl sorted m)
        (merge_all-Merges decls sorted (merge_parents info cones decl sorted m))
