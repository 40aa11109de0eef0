-- ===== src/Verilog/Cones/Graph.antt =====
-- `generateLogicConesGraph` of src/verilog2hif/FixDescription_3.cpp, and the loop of
-- `generateConeFunctions` that merges the parents with no cone of their own into a cone.
pub mod Mirror
pub mod Edges
pub mod Visited
pub mod Cleared
pub mod Built
pub mod Filled
pub mod Merged
use hif_frontend.Common.{
  ℕ, Bool, true, false, not, ◌&&◌, Option, none, some, List, [], ◌∷◌, if◌then◌else◌, ◌==◌,
}
use hif_frontend.Common.Sets.{member, insert, insert_all, NodeMap, assign}
use hif_frontend.Verilog.Cones.Tree.{Tree}
use hif_frontend.Verilog.Cones.Info.{
  InfoStruct, RequiredDeclType, Analysis, update, calculate_required_decl_type,
}

-- `first`: the sources of a target. `second`: the targets of a source. With the keys of each.
pub record LogicGraph : Type 0 where
  pub first : NodeMap
  pub second : NodeMap
  pub first_keys : List ℕ
  pub second_keys : List ℕ

-- `source` is a symbol of a continuous assign to `target`.
abbrev pub add_edge : (target source : ℕ) → LogicGraph → LogicGraph
add_edge target source g = record {
  first = assign target (insert source (g.first target)) (g.first);
  second = assign source (insert target (g.second source)) (g.second);
  first_keys = insert source (insert target (g.first_keys));
  second_keys = insert target (insert source (g.second_keys));
}

-- What the visit of one declaration changes.
pub record Visit : Type 0 where
  pub graph : LogicGraph
  pub analysis : Analysis
  pub has_only_constant_drivers : Bool

abbrev pub is_undriven : RequiredDeclType → Bool
is_undriven r = not (r.is_signal) && not (r.is_variable)

-- A symbol with a declaration that is a signal or a port.
abbrev pub visit_source : Tree → (decl inner_decl : ℕ) → Visit → Visit
visit_source tree decl inner_decl v =
    let seen : Analysis =
      if tree.is_signal inner_decl
      then record (v.analysis) { decls = insert inner_decl (v.analysis.decls) }
      else v.analysis in
    if tree.is_signal inner_decl
      && is_undriven (calculate_required_decl_type tree (v.analysis.infos inner_decl) inner_decl)
    then record v { analysis = seen }
    else if inner_decl == decl
    then record v { analysis = seen }
    else record {
      graph = add_edge decl inner_decl (v.graph);
      analysis = seen;
      has_only_constant_drivers = false;
    }

-- A symbol with a declaration.
abbrev pub visit_declared : Tree → (decl inner_decl : ℕ) → Visit → Visit
visit_declared tree decl inner_decl v =
    if not (tree.is_signal inner_decl) && not (tree.is_port inner_decl)
    then record v { has_only_constant_drivers = false }
    else visit_source tree decl inner_decl v

-- `none` if the assertion fails that an identifier has a declaration.
abbrev pub visit_symbol : Tree → (decl inner_symb : ℕ) → Visit → Option Visit
visit_symbol tree decl inner_symb v =
    if tree.is_identifier inner_symb
    then elim (tree.identifier_declaration inner_symb) [
      | none ↦ none
      | some inner_decl ↦ some (visit_declared tree decl inner_decl v)
    ]
    else some (record v { has_only_constant_drivers = false })

pub visit_symbols : Tree → (decl : ℕ) → List ℕ → Visit → Option Visit
visit_symbols tree decl [] v = some v
visit_symbols tree decl (s ∷ symbols) v = elim (visit_symbol tree decl s v) [
  | none ↦ none
  | some v ↦ visit_symbols tree decl symbols v
]

-- The targets of the continuous assigns of a declaration; `none` if one stands in no assign, or if
-- an assertion on its symbols fails.
pub visit_targets : Tree → (decl : ℕ) → List ℕ → Visit → Option Visit
unfolding visit_symbols
visit_targets tree decl [] v = some v
visit_targets tree decl (symb ∷ symbs) v = elim (tree.parent_assign symb) [
  | none ↦ none
  | some ass ↦ elim (visit_symbols tree decl (tree.symbols_of ass) v) [
    | none ↦ none
    | some v ↦ visit_targets tree decl symbs v
  ]
]

abbrev pub clear_continuous : InfoStruct → InfoStruct
clear_continuous i = record i { was_lhs_continuous = false; lhs_continuous_using = [] }

-- The constant drivers are left as assigns.
abbrev pub finish : (decl : ℕ) → Visit → LogicGraph × Analysis
finish decl v = (
  v.graph,
  if v.has_only_constant_drivers
      then record (v.analysis) { infos = update decl clear_continuous (v.analysis.infos) }
      else v.analysis,
)

-- The visit of the declarations in the order given.
unfoldable pub generate_logic_cones_graph :
    Tree → List ℕ → LogicGraph → Analysis → Option (LogicGraph × Analysis)
unfolding visit_targets
generate_logic_cones_graph tree [] g a = some (g, a)
generate_logic_cones_graph tree (decl ∷ decls) g a =
    elim (visit_targets tree decl (a.infos decl).lhs_continuous_using
      (record { graph = g; analysis = a; has_only_constant_drivers = true })) [
        | none ↦ none
        | some v ↦ let (g', a') = finish decl v in generate_logic_cones_graph tree decls g' a'
      ]

-- `second[k].insert(decl)` for every `k` of a list.
abbrev pub add_target : (decl : ℕ) → List ℕ → NodeMap → NodeMap
add_target decl [] second = second
add_target decl (k ∷ ks) second = add_target decl ks (assign k (insert decl (second k)) second)

-- The parent's assigns are merged into the cone, so its parents become those of the cone.
abbrev pub merge_parent : (decl parent : ℕ) → LogicGraph → LogicGraph
merge_parent decl parent g =
    let merged : NodeMap = assign decl (insert_all (g.first parent) (g.first decl)) (g.first) in
    record {
      first = merged;
      second = add_target decl (merged parent) (g.second);
      first_keys = insert parent (insert decl (g.first_keys));
      second_keys = insert_all (merged parent) (g.second_keys);
    }

-- The graph, and the actions of each cone. The values of `infoMap` do not change in the loop. A copy of an assign is known by the reference to its
-- target that the copy was found from; the visit of the targets has seen that each has an assign.
pub record Merge : Type 0 where
  pub graph : LogicGraph
  pub actions : NodeMap

-- `push_front` of one after the other.
abbrev pub push_front_all : (xs actions : List ℕ) → List ℕ
push_front_all [] actions = actions
push_front_all (x ∷ xs) actions = push_front_all xs (x ∷ actions)

abbrev pub merge_step : Analysis → (cones : List ℕ) → (decl parent : ℕ) → Merge → Merge
merge_step info cones decl parent m =
    if member parent (m.graph.first decl) && not (member parent cones)
    then record {
      graph = merge_parent decl parent (m.graph);
      actions =
          assign decl (push_front_all (info.infos parent).lhs_continuous_using (m.actions decl))
            (m.actions);
    }
    else record m { graph = record (m.graph) { first_keys = insert decl (m.graph.first_keys) } }

-- The parents in the sorted order; `cones` are the declarations that have a cone.
unfoldable pub merge_parents :
    Analysis → (cones : List ℕ) → (decl : ℕ) → (sorted : List ℕ) → Merge → Merge
merge_parents info cones decl [] m = m
merge_parents info cones decl (parent ∷ sorted) m =
    merge_parents info cones decl sorted (merge_step info cones decl parent m)

-- `decls` is the list of the cones' declarations that is still to do.
unfoldable pub merge_all : Analysis → (cones decls sorted : List ℕ) → Merge → Merge
unfolding merge_parents
merge_all info cones [] sorted m = m
merge_all info cones (decl ∷ decls) sorted m =
    merge_all info cones decls sorted (merge_parents info cones decl sorted m)
