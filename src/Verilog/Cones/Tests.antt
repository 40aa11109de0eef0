-- ===== src/Verilog/Cones/Tests.antt =====
-- Runs of the cone algorithms on small graphs, and instances of the theorems.
use hif_frontend.Common.{
  ℕ, ◌≡◌, ◌↔◌, refl, inl, false, ◌||◌, ◌&&◌, not, none, some, List, [], ◌∷◌, true, arith, ◌==◌,
  if◌then◌else◌, keep,
}
use hif_frontend.Common.Sets.{member, NodeMap}
use hif_frontend.Verilog.Cones.Tree.{Tree, dir_none}
use hif_frontend.Verilog.Cones.Info.{new_info, Analysis, RefMap, fill_info_map, read}
use hif_frontend.Verilog.Cones.Info.Fill.{using_set, recorded, fill_info_map-member}
use hif_frontend.Verilog.Cones.Graph.{LogicGraph, Merge, generate_logic_cones_graph, merge_all}
use hif_frontend.Verilog.Cones.Graph.Built.{Built}
use hif_frontend.Verilog.Cones.Graph.Merged.{Merges, merge_all-Merges}
use hif_frontend.Verilog.Cones.Sensitivities.{Lists, SensitivityState, wait_loop}
use hif_frontend.Verilog.Cones.Sensitivities.Ends.{HaveLists}
use hif_frontend.Verilog.Cones.Sensitivities.Kept.{Leaves, wait_loop_lem}
use hif_frontend.Verilog.Cones.Sources.{calculate_all}
use hif_frontend.Verilog.Cones.Sources.Reached.{Ranked}
use hif_frontend.Verilog.Cones.Sources.Complete.{Completed, calculate_all-Completed}

-- 3 is driven by 2 and 1, 2 is driven by 1 and 0.
abbrev diamond : NodeMap
diamond d = if d == 3 then 2 ∷ 1 ∷ [] else (if d == 2 then 1 ∷ 0 ∷ [] else [])

abbrev diamond_rank : ℕ → ℕ
diamond_rank d = if d == 3 then 2 else (if d == 2 then 1 else 0)

diamond-Ranked : Ranked diamond diamond_rank
diamond-Ranked d m h = ground arith

abbrev no_sources : NodeMap
no_sources d = []

sources_of_diamond :
    elim (calculate_all diamond 3 (3 ∷ 2 ∷ []) no_sources) [ none ↦ [] | some s ↦ s 3 ∷ s 2 ∷ [] ]
    ≡ (1 ∷ 0 ∷ []) ∷ (0 ∷ 1 ∷ []) ∷ []
unfolding calculate_all
sources_of_diamond = refl

calculate_all-Completed_example :
    Completed diamond (3 ∷ 2 ∷ []) no_sources (calculate_all diamond 3 (3 ∷ 2 ∷ []) no_sources)
calculate_all-Completed_example =
    calculate_all-Completed diamond diamond_rank diamond-Ranked 3 (λ d. ground arith) (3 ∷ 2 ∷ [])
      no_sources (λ d. inl refl)

-- A module with `assign b = a` (the assign 20), `assign a = c` (the assign 21, whose right side is
-- a constant in the second tree) and a process that reads `b` and writes it without blocking (the
-- assign 22). The signals `a` and `b` are 1 and 2, and the port `c` is 3.
abbrev module_with : (symbols_of_21 : List ℕ) → Tree
module_with symbols = record {
  is_signal = λ d. d == 1 || d == 2;
  is_port = λ d. d == 3;
  is_port_assign = λ r. false;
  in_sensitivity_list = λ r. false;
  in_any_sensitivity_list = λ r. false;
  parent_port_assign = λ r. none;
  parent_wait = λ r. none;
  parent_assign = λ r.
      if r == 11 || r == 12
      then some 20
      else (if r == 13 || r == 14 then some 21 else (if r == 16 then some 22 else none));
  in_wait_condition = λ r w. false;
  parent_parameter_assign = λ r. none;
  formal_of = λ r. none;
  direction_of = λ r. dir_none;
  in_left_hand_side = λ r. r == 12 || r == 13 || r == 16;
  in_global_action = λ a. a == 20 || a == 21;
  symbols_of = λ a. if a == 20 then 12 ∷ 11 ∷ [] else (if a == 21 then symbols else []);
  is_identifier = λ r. true;
  identifier_declaration = λ r.
      if r == 11 || r == 13
      then some 1
      else (if r == 12 || r == 15 || r == 16 then some 2 else (if r == 14 then some 3 else none));
}

abbrev with_port : Tree
with_port = module_with (13 ∷ 14 ∷ [])

abbrev with_constant : Tree
with_constant = module_with (13 ∷ [])

abbrev references : RefMap
references = (1, 11 ∷ 13 ∷ []) ∷ (2, 12 ∷ 15 ∷ 16 ∷ []) ∷ (3, 14 ∷ []) ∷ []

abbrev unfilled : Analysis
unfilled = record { decls = []; infos = λ d. new_info; nonblocking = λ a. a == 22 }

fill_info_map-member_example :
    member 15 (using_set read ((fill_info_map with_port true references unfilled).infos 2))
    ≡ (recorded with_port (λ a. a == 22) references 2 15 read || false)
fill_info_map-member_example =
    fill_info_map-member with_port true references unfilled read refl 2 15

-- What the references say of the module.
abbrev filled : Analysis
filled = fill_info_map with_port true references unfilled

abbrev no_graph : LogicGraph
no_graph = record { first = no_sources; second = no_sources; first_keys = []; second_keys = [] }

filled_sources :
    elim (generate_logic_cones_graph with_port (1 ∷ 2 ∷ []) no_graph filled) [
      | none ↦ []
      | some (g, a) ↦ g.first 1 ∷ g.first 2 ∷ g.second 1 ∷ g.second 3 ∷ []
    ]
    ≡ (3 ∷ []) ∷ (1 ∷ []) ∷ (2 ∷ []) ∷ (1 ∷ []) ∷ []
unfolding generate_logic_cones_graph fill_info_map
filled_sources = refl

-- `a` has a target of a continuous assign, and so has `b`.
abbrev driven : Analysis
driven = record {
  decls = 1 ∷ 2 ∷ [];
  infos = λ d.
      if d == 1
      then record new_info { lhs_continuous_using = 13 ∷ []; was_lhs_continuous = true }
      else (if d == 2
          then record new_info { lhs_continuous_using = 12 ∷ []; was_lhs_continuous = true }
          else new_info);
  nonblocking = λ a. false;
}

abbrev sources_of_2 : List ℕ → List ℕ
sources_of_2 order = elim (generate_logic_cones_graph with_constant order no_graph driven) [
  | none ↦ []
  | some (g, a) ↦ g.first 2
]

-- With `assign a = 5` the signal `b` has no source if `a` is visited first, and `a` if it is last.
no_source_in_order : sources_of_2 (1 ∷ 2 ∷ []) ≡ []
unfolding generate_logic_cones_graph
no_source_in_order = refl

source_out_of_order : sources_of_2 (2 ∷ 1 ∷ []) ≡ 1 ∷ []
unfolding generate_logic_cones_graph
source_out_of_order = refl

abbrev chain : Merge
chain = record {
  graph = record {
    first = λ d. if d == 2 then 1 ∷ [] else (if d == 1 then 3 ∷ [] else []);
    second = λ d. if d == 3 then 1 ∷ [] else (if d == 1 then 2 ∷ [] else []);
    first_keys = [];
    second_keys = [];
  };
  actions = no_sources;
}

merge_all-Merges_example :
    Merges driven (2 ∷ []) chain (merge_all driven (2 ∷ []) (2 ∷ []) (3 ∷ 1 ∷ 2 ∷ []) chain)
merge_all-Merges_example = merge_all-Merges driven (2 ∷ []) (2 ∷ []) (3 ∷ 1 ∷ 2 ∷ []) chain

merged_actions : (merge_all driven (2 ∷ []) (2 ∷ []) (3 ∷ 1 ∷ 2 ∷ []) chain).actions 2 ≡ 13 ∷ []
unfolding merge_all
merged_actions = refl

-- The reference 31 stands in a list, and 32 in the condition of a wait.
abbrev some_lists : Lists
some_lists = record {
  sensitivity_list = λ r. if r == 31 then some 40 else none;
  any_sensitivity_list = λ r. if r == 31 then some 40 else none;
  remove_sub_tree = λ r es. keep (λ e. not (e.0 == r)) es;
  add_unique_object = λ e es. (e ∷ es, true);
}

abbrev some_state : SensitivityState
some_state = record { entries = λ l. []; using = no_sources; refs = no_sources; next = 50 }

wait_loop_example :
    (((fuel : ℕ) × ((s' : SensitivityState) × (wait_loop with_port some_lists fuel 2
              (3 ∷ [])
              (31 ∷ [])
              some_state
            ≡ some s')))
      ↔ HaveLists some_lists (31 ∷ []))
    × ((fuel : ℕ) (s' : SensitivityState)
        → wait_loop with_port some_lists fuel 2 (3 ∷ []) (31 ∷ []) some_state ≡ some s'
        → Leaves (λ d r. d == 2 && member r (31 ∷ [])) some_state s')
wait_loop_example = wait_loop_lem with_port some_lists 2 (3 ∷ []) (31 ∷ []) some_state

one_reference_leaves :
    elim (wait_loop with_port some_lists 2 2
      (3 ∷ [])
      (31 ∷ [])
      (record some_state { using = λ d. 31 ∷ [] })) [
        | none ↦ []
        | some s ↦ s.using 2 ∷ s.using 3 ∷ []
      ]
    ≡ [] ∷ (50 ∷ 31 ∷ []) ∷ []
unfolding wait_loop
one_reference_leaves = refl

a_condition_does_not_end :
    wait_loop with_port some_lists 9 2 (3 ∷ []) (31 ∷ 32 ∷ []) some_state ≡ none
unfolding wait_loop
a_condition_does_not_end = refl
