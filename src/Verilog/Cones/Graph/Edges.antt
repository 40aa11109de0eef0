-- ===== src/Verilog/Cones/Graph/Edges.antt =====
-- What an edge keeps of a good graph.
use hif_frontend.Common.{ℕ, ◌≡◌, refl, Bool, true, false, ◌&&◌, ◌||◌, List, ◌==◌, arith}
use hif_frontend.Common.Sets.{member, insert, member-insert, member-assign-insert}
use hif_frontend.Verilog.Cones.Graph.{LogicGraph, add_edge}
use hif_frontend.Verilog.Cones.Graph.Mirror.{Mirrored, add_edge-Mirrored}

-- The graph's maps mirror each other, no declaration is its own source, and the ends of an edge
-- are keys of both maps.
pub record GoodGraph (g : LogicGraph) : Type 0 where
  pub mirrored : Mirrored g
  pub no_loops : (d : ℕ) → member d (g.first d) ≡ false
  pub keyed :
      (d s : ℕ)
      → member s (g.first d) ≡ true
      → (member d (g.first_keys)
          && member s (g.first_keys)
          && member d (g.second_keys)
          && member s (g.second_keys))
        ≡ true

member-insert-insert :
    (x a b : ℕ) (K : List ℕ) → member x (insert a (insert b K)) ≡ (x == a || (x == b || member x K))
member-insert-insert x a b K = rw (member-insert x a (insert b K), member-insert x b K) refl

pub add_edge-GoodGraph :
    (target source : ℕ) (g : LogicGraph)
    → (source == target) ≡ false
    → GoodGraph g
    → GoodGraph (add_edge target source g)
add_edge-GoodGraph target source g ne good = record {
  mirrored = add_edge-Mirrored target source g (good.mirrored);
  no_loops =
      λ d. rw (member-assign-insert d d target source (g.first)) (ground (arith, good.no_loops d));
  keyed = λ d s h.
      rw
        (
          member-insert-insert d source target (g.first_keys),
          member-insert-insert s source target (g.first_keys),
          member-insert-insert d target source (g.second_keys),
          member-insert-insert s target source (g.second_keys),
        )
        (keys d s (member s (g.first d)) (member d (g.first_keys)) (member s (g.first_keys))
          (member d (g.second_keys)) (member s (g.second_keys))
          (rw (member-assign-insert s d target source (g.first)) at h) (good.keyed d s));
}
  where
    keys :
        (d s : ℕ) (e a b a' b' : Bool)
        → ((d == target && s == source) || e) ≡ true
        → (e ≡ true → (a && b && a' && b') ≡ true)
        → ((d == source || (d == target || a))
            && (s == source || (s == target || b))
            && (d == target || (d == source || a'))
            && (s == target || (s == source || b')))
          ≡ true
    keys d s e a b a' b' h old = ground arith

abbrev pub Added : (before after : LogicGraph) → (decl : ℕ) → (ℕ → Bool) → Type 0
Added before after decl sources =
    (GoodGraph before → GoodGraph after)
    × ((d s : ℕ)
        → member s (after.first d) ≡ ((d == decl && sources s) || member s (before.first d)))
