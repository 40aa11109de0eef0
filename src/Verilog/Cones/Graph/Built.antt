-- ===== src/Verilog/Cones/Graph/Built.antt =====
-- The graph that the visits of all the declarations build.
use hif_frontend.Common.{ℕ, ◌≡◌, true, ◌⊎◌, Option, some, List}
use hif_frontend.Common.Sets.{member}
use hif_frontend.Verilog.Cones.Tree.{Tree}
use hif_frontend.Verilog.Cones.Info.{Analysis}
use hif_frontend.Verilog.Cones.Graph.{LogicGraph}
use hif_frontend.Verilog.Cones.Graph.Edges.{GoodGraph}
use hif_frontend.Verilog.Cones.Graph.Visited.{is_source}
use hif_frontend.Verilog.Cones.Graph.Cleared.{feeds, Cleared}

module _ (tree : Tree) where
  abbrev pub Built :
      (decls : List ℕ) (g : LogicGraph) (a : Analysis) → Option (LogicGraph × Analysis) → Type 0
  Built decls g a result =
      (g' : LogicGraph) × (a' : Analysis) × (result ≡ some (g', a'))
      × Cleared (a.infos) (a'.infos)
      × (GoodGraph g → GoodGraph g')
      × ((d s : ℕ) → member s (g.first d) ≡ true → member s (g'.first d) ≡ true)
      × ((d s : ℕ)
          → member s (g'.first d) ≡ true
          → (member s (g.first d) ≡ true)
            ⊎ ((member d decls ≡ true) × (feeds tree (a.infos) d s ≡ true)))
      × ((d s : ℕ)
          → member d decls ≡ true
          → feeds tree (a.infos) d s ≡ true
          → is_source tree (a'.infos) s ≡ true
          → member s (g'.first d) ≡ true)
