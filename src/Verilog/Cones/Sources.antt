-- ===== src/Verilog/Cones/Sources.antt =====
-- `calculateParentNodes` of src/verilog2hif/FixDescription_3.cpp: the nodes that a cone starts from.
pub mod Reached
pub mod Added
pub mod Calls
pub mod Kept
pub mod Complete
use hif_frontend.Common.{
  ℕ, zero, suc, Option, none, some, List, [], ◌∷◌, Bool, true, false, if◌then◌else◌,
}
use hif_frontend.Common.Sets.{insert, insert_all, is_empty, NodeMap, assign}

-- One round: `calculate` is the call for the parent, made if nothing is known of it.
abbrev pub known : (calculate : ℕ → NodeMap → Option NodeMap) → ℕ → NodeMap → Option NodeMap
known calculate node sens_map = elim (is_empty (sens_map node)) [
  | true ↦ calculate node sens_map
  | false ↦ some sens_map
]

-- What the parent adds: itself if it is an input, and else what it starts from.
abbrev pub add_parent : (decl node : ℕ) → NodeMap → NodeMap
add_parent decl node sens_map =
    if is_empty (sens_map node)
    then assign decl (insert node (sens_map decl)) sens_map
    else assign decl (insert_all (sens_map node) (sens_map decl)) sens_map

unfoldable pub parents_loop :
    (ℕ → NodeMap → Option NodeMap) → (decl : ℕ) → List ℕ → NodeMap → Option NodeMap
parents_loop calculate decl [] sens_map = some sens_map
parents_loop calculate decl (node ∷ nodes) sens_map = elim (known calculate node sens_map) [
  | none ↦ none
  | some sens_map ↦ parents_loop calculate decl nodes (add_parent decl node sens_map)
]

module _ (parent_map : NodeMap) where
  -- The call, with fuel for its depth; `none` if the fuel runs out.
  unfoldable pub calculate_parent_nodes : ℕ → (decl : ℕ) → NodeMap → Option NodeMap
  unfolding parents_loop
  calculate_parent_nodes zero decl sens_map = none
  calculate_parent_nodes (suc fuel) decl sens_map =
      parents_loop (λ node sens_map. calculate_parent_nodes fuel node sens_map) decl
        (parent_map decl) sens_map

  -- The calls of `fixSensitivities`, one for each cone.
  unfoldable pub calculate_all : ℕ → List ℕ → NodeMap → Option NodeMap
  unfolding calculate_parent_nodes
  calculate_all fuel [] sens_map = some sens_map
  calculate_all fuel (decl ∷ decls) sens_map = elim (calculate_parent_nodes fuel decl sens_map) [
    | none ↦ none
    | some sens_map ↦ calculate_all fuel decls sens_map
  ]
