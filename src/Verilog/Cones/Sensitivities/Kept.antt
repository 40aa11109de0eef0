-- ===== src/Verilog/Cones/Sensitivities/Kept.antt =====
-- What the loop over the references of waits leaves of the sets.
use hif_frontend.Common.{
  ℕ, zero, suc, ◌<◌, ◌≤◌, ◌≡◌, refl, ◌∙◌, ap, ◌↔◌, inl, inr, Bool, true, false, not, ◌&&◌, ◌||◌,
  ◌==◌, ==_iff, Option, none, some, List, [], ◌∷◌, arith, if◌then◌else◌, Bool-cases,
}
use mathlib.Core.Path.{subst}
use hif_frontend.Common.Sets.{
  member, insert, remove, NodeMap, assign, member-remove, member-assign-insert,
}
use hif_frontend.Verilog.Cones.Tree.{Tree}
use hif_frontend.Verilog.Cones.Sensitivities.{
  Lists, SensitivityState, add_parent_node, add_parent_nodes, replace_ref, wait_loop,
}
use hif_frontend.Verilog.Cones.Sensitivities.Ends.{HaveLists, wait_loop-HaveLists}

-- The nodes that were there before are in the same sets, but for those that a test takes out.
abbrev pub Leaves : (removed : ℕ → ℕ → Bool) → (s s' : SensitivityState) → Type 0
Leaves removed s s' =
    (s.next ≤ s'.next)
    × ((d r : ℕ) → r < s.next → member r (s'.using d) ≡ (member r (s.using d) && not (removed d r)))
    × ((d r : ℕ) → r < s.next → member r (s'.refs d) ≡ (member r (s.refs d) && not (removed d r)))

Leaves-trans :
    (f g : ℕ → ℕ → Bool) (s s' s'' : SensitivityState)
    → Leaves f s s'
    → Leaves g s' s''
    → Leaves (λ d r. f d r || g d r) s s''
Leaves-trans f g s s' s'' (up, using, refs) (up', using', refs') = (
  omega (arith, up, up'),
  (λ d r lt. using' d r (omega (arith, up)) ∙ rw (using d r lt) (and_not_or _ _ _)),
  λ d r lt. refs' d r (omega (arith, up)) ∙ rw (refs d r lt) (and_not_or _ _ _),
)
  where
    and_not_or : (a b c : Bool) → ((a && not b) && not c) ≡ (a && not (b || c))
    and_not_or a b c = ground arith

module _ (tree : Tree) (lists : Lists) where
  insert_fresh :
      (x p d r : ℕ) (f : NodeMap)
      → r < x
      → member r (assign p (insert x (f p)) f d) ≡ (member r (f d) && not false)
  insert_fresh x p d r f lt = rw (member-assign-insert r d p x f) (ground (arith, lt))

  insert_if :
      (inserted : Bool) (x p d r : ℕ) (f : NodeMap)
      → r < x
      → member r ((if inserted then assign p (insert x (f p)) f else f) d)
        ≡ (member r (f d) && not false)
  insert_if true x p d r f lt = insert_fresh x p d r f lt
  insert_if false x p d r f lt = ground arith

  add_parent_node-Leaves :
      (l p : ℕ) (s : SensitivityState) → Leaves (λ d r. false) s (add_parent_node tree lists l p s)
  add_parent_node-Leaves l p s = go (not (tree.is_signal p) && not (tree.is_port p)) refl
    where
      go :
          (b : Bool)
          → (not (tree.is_signal p) && not (tree.is_port p)) ≡ b
          → Leaves (λ d r. false) s (add_parent_node tree lists l p s)
      go true e = rw e (omega arith, (λ d r lt. ground arith), λ d r lt. ground arith)
      go false e = rw e (
        omega arith,
        (λ d r lt.
            insert_if ((lists.add_unique_object (s.next, p) (s.entries l)).1) (s.next) p d r
              (s.using) lt),
        λ d r lt.
            insert_if ((lists.add_unique_object (s.next, p) (s.entries l)).1) (s.next) p d r
              (s.refs) lt,
      )

  add_parent_nodes-Leaves :
      (l : ℕ) (ps : List ℕ) (s : SensitivityState)
      → Leaves (λ d r. false) s (add_parent_nodes tree lists l ps s)
  add_parent_nodes-Leaves l [] s = (omega arith, (λ d r lt. ground arith), λ d r lt. ground arith)
  add_parent_nodes-Leaves l (p ∷ ps) s =
      Leaves-trans (λ d r. false) (λ d r. false) s (add_parent_node tree lists l p s)
        (add_parent_nodes tree lists l ps (add_parent_node tree lists l p s))
        (add_parent_node-Leaves l p s)
        (add_parent_nodes-Leaves l ps (add_parent_node tree lists l p s))

  removed_from :
      (decl ref d r : ℕ) (f : NodeMap)
      → member r (assign decl (remove ref (f decl)) f d)
        ≡ (member r (f d) && not (d == decl && r == ref))
  removed_from decl ref d r f = elim (Bool-cases (d == decl)) [
    | inl e ↦ rw e (member-remove r ref (f decl) ∙ rw ((==_iff d decl).0 e) (ground arith))
    | inr e ↦ rw e (ground arith)
  ]

  replace_ref-Leaves :
      (decl ref l : ℕ) (parents : List ℕ) (s : SensitivityState)
      → Leaves (λ d r. d == decl && r == ref) s (replace_ref tree lists decl ref l parents s)
  replace_ref-Leaves decl ref l parents s =
      let (up, using, refs) = add_parent_nodes-Leaves l parents (record s {
        entries = (λ x. if x == l then lists.remove_sub_tree ref (s.entries l) else s.entries x);
        using = assign decl (remove ref (s.using decl)) (s.using);
        refs = assign decl (remove ref (s.refs decl)) (s.refs);
      }) in
      (
        up,
        (λ d r lt. using d r lt ∙ rw (removed_from decl ref d r (s.using)) (ground arith)),
        λ d r lt. refs d r lt ∙ rw (removed_from decl ref d r (s.refs)) (ground arith),
      )

  Leaves-ext :
      (f g : ℕ → ℕ → Bool) (s s' : SensitivityState)
      → ((d r : ℕ) → f d r ≡ g d r)
      → Leaves f s s'
      → Leaves g s s'
  Leaves-ext f g s s' e (up, using, refs) = (
    up,
    (λ d r lt. using d r lt ∙ ap (λ b. member r (s.using d) && not b) (e d r)),
    λ d r lt. refs d r lt ∙ ap (λ b. member r (s.refs d) && not b) (e d r),
  )

  Leaves-same :
      (f : ℕ → ℕ → Bool) (s s' : SensitivityState)
      → some s ≡ some s'
      → ((d r : ℕ) → f d r ≡ false)
      → Leaves f s s'
  Leaves-same f s s' e none_removed =
      subst (λ t. Leaves f s t) (ap (λ o. elim o [ none ↦ s | some t ↦ t ]) e)
        (
          omega arith,
          (λ d r lt. rw (none_removed d r) (ground arith)),
          λ d r lt. rw (none_removed d r) (ground arith),
        )

  wait_loop-Leaves :
      (fuel decl : ℕ) (parents refs : List ℕ) (s s' : SensitivityState)
      → wait_loop tree lists fuel decl parents refs s ≡ some s'
      → Leaves (λ d r. d == decl && member r refs) s s'
  unfolding wait_loop
  wait_loop-Leaves zero decl parents refs s s' h = cc
  wait_loop-Leaves (suc fuel) decl parents [] s s' h =
      Leaves-same (λ d r. d == decl && false) s s' h (λ d r. ground arith)
  wait_loop-Leaves (suc fuel) decl parents (ref ∷ refs) s s' h =
      go (lists.any_sensitivity_list ref) refl
        (wait_loop-Leaves fuel decl parents (ref ∷ refs) s s')
        (λ t. wait_loop-Leaves fuel decl parents refs t s')
    where
      go :
          (o : Option ℕ)
          → lists.any_sensitivity_list ref ≡ o
          → (wait_loop tree lists fuel decl parents (ref ∷ refs) s ≡ some s'
              → Leaves (λ d r. d == decl && member r (ref ∷ refs)) s s')
          → ((t : SensitivityState)
              → wait_loop tree lists fuel decl parents refs t ≡ some s'
              → Leaves (λ d r. d == decl && member r refs) t s')
          → Leaves (λ d r. d == decl && member r (ref ∷ refs)) s s'
      go none e again rest = again (rw (e, wait_loop) at h)
      go (some l) e again rest =
          let t : SensitivityState = replace_ref tree lists decl ref l parents s in
          Leaves-ext (λ d r. (d == decl && r == ref) || (d == decl && member r refs))
            (λ d r. d == decl && member r (ref ∷ refs)) s s' (λ d r. ground arith)
            (Leaves-trans (λ d r. d == decl && r == ref) (λ d r. d == decl && member r refs) s t s'
              (replace_ref-Leaves decl ref l parents s) (rest t (rw (e, wait_loop) at h)))

  -- The loop ends, with some number of rounds, exactly if each of the references stands in a
  -- sensitivity list. Whenever it ends, the references, and no other nodes that were there before,
  -- have left the set of the declaration's uses and that of its references, and the sets of the
  -- other declarations have all the nodes that were there before.
  pub wait_loop_lem :
      (decl : ℕ) (parents refs : List ℕ) (s : SensitivityState)
      → (((fuel : ℕ) × ((s' : SensitivityState) × (wait_loop tree lists fuel decl parents refs s
                ≡ some s')))
          ↔ HaveLists lists refs)
        × ((fuel : ℕ) (s' : SensitivityState)
            → wait_loop tree lists fuel decl parents refs s ≡ some s'
            → Leaves (λ d r. d == decl && member r refs) s s')
  wait_loop_lem decl parents refs s = (
    wait_loop-HaveLists tree lists decl parents refs s,
    λ fuel s' h. wait_loop-Leaves fuel decl parents refs s s' h,
  )
