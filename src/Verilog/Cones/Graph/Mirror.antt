-- ===== src/Verilog/Cones/Graph/Mirror.antt =====
-- The two maps of the graph are each other's inverse, and name no declaration that is not a key.
use hif_frontend.Common.{ℕ, ◌≡◌, ◌∙◌, ◌&&◌, ◌||◌, List, [], ◌∷◌, ◌==◌, arith}
use hif_frontend.Common.Sets.{
  member, insert, insert_all, NodeMap, assign, member-assign-insert, member-assign-insert_all,
}
use hif_frontend.Verilog.Cones.Graph.{LogicGraph, add_edge, add_target, merge_parent}

-- A target has a source exactly if the source has the target.
abbrev pub Mirrored : LogicGraph → Type 0
Mirrored g = (d s : ℕ) → member s (g.first d) ≡ member d (g.second s)

pub add_edge-Mirrored :
    (target source : ℕ) (g : LogicGraph) → Mirrored g → Mirrored (add_edge target source g)
add_edge-Mirrored target source g h d s =
    rw
      (
        member-assign-insert s d target source (g.first),
        member-assign-insert d s source target (g.second),
        h d s,
      )
      (ground arith)

member-add_target :
    (decl s d : ℕ) (ks : List ℕ) (second : NodeMap)
    → member d (add_target decl ks second s) ≡ ((d == decl && member s ks) || member d (second s))
member-add_target decl s d [] second = ground arith
member-add_target decl s d (k ∷ ks) second =
    member-add_target decl s d ks (assign k (insert decl (second k)) second)
    ∙ rw (member-assign-insert d s k decl second) (ground arith)

pub merge_parent-Mirrored :
    (decl parent : ℕ) (g : LogicGraph) → Mirrored g → Mirrored (merge_parent decl parent g)
merge_parent-Mirrored decl parent g h d s =
    rw
      (
        member-add_target decl s d
            (assign decl (insert_all (g.first parent) (g.first decl)) (g.first) parent) (g.second),
        member-assign-insert_all s d decl (g.first parent) (g.first),
        member-assign-insert_all s parent decl (g.first parent) (g.first),
        h d s,
      )
      (ground arith)
