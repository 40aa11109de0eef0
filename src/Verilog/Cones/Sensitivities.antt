-- ===== src/Verilog/Cones/Sensitivities.antt =====
-- `fixSensitivities` of src/verilog2hif/FixDescription_3.cpp: a reference to the target of a
-- continuous assign in a sensitivity list gives way to the nodes that its cone starts from.
pub mod Ends
pub mod Kept
pub mod Map
use hif_frontend.Common.{
  ℕ, zero, suc, ◌+◌, Bool, true, false, not, ◌&&◌, ◌||◌, Option, none, some, List, [], ◌∷◌,
  if◌then◌else◌, ◌==◌,
}
use hif_frontend.Common.Sets.{insert, remove, is_empty, NodeMap, assign}
use hif_frontend.Verilog.Cones.Tree.{Tree}
use hif_frontend.Verilog.Cones.Sources.{calculate_parent_nodes}

-- An entry of a list: its address and the declaration that it names.
abbrev pub Entry : Type 0
Entry = ℕ × ℕ

-- What the code takes from hif-core: the list that a reference stands in (`none` for a null
-- pointer), without and with `checkAll`; `removeSubTree`; and `addUniqueObject`, with the list
-- after the call and whether the entry was added.
pub record Lists : Type 0 where
  pub sensitivity_list : ℕ → Option ℕ
  pub any_sensitivity_list : ℕ → Option ℕ
  pub remove_sub_tree : ℕ → List Entry → List Entry
  pub add_unique_object : Entry → List Entry → List Entry × Bool

-- The entries of the lists, the sets of one kind of use and the references of each declaration, and
-- the address of the next node that is made.
pub record SensitivityState : Type 0 where
  pub entries : ℕ → List Entry
  pub using : NodeMap
  pub refs : NodeMap
  pub next : ℕ

abbrev pub set_entries : ℕ → List Entry → (ℕ → List Entry) → ℕ → List Entry
set_entries l es f x = if x == l then es else f x

module _ (tree : Tree) (lists : Lists) where
  -- A node that the cone starts from is added to a list.
  abbrev pub add_parent_node :
      (sens_list parent_node_decl : ℕ) → SensitivityState → SensitivityState
  add_parent_node l p s =
      if not (tree.is_signal p) && not (tree.is_port p)
      then s
      else let (es, inserted) = lists.add_unique_object (s.next, p) (s.entries l) in
        record {
          entries = set_entries l es (s.entries);
          using = if inserted then assign p (insert (s.next) (s.using p)) (s.using) else s.using;
          refs = if inserted then assign p (insert (s.next) (s.refs p)) (s.refs) else s.refs;
          next = s.next + 1;
        }

  abbrev pub add_parent_nodes : (sens_list : ℕ) → List ℕ → SensitivityState → SensitivityState
  add_parent_nodes l [] s = s
  add_parent_nodes l (p ∷ ps) s = add_parent_nodes l ps (add_parent_node l p s)

  -- The reference leaves its list, and the parents come in.
  abbrev pub replace_ref :
      (decl ref sens_list : ℕ) → (parents : List ℕ) → SensitivityState → SensitivityState
  replace_ref decl ref l parents s = add_parent_nodes l parents (record s {
    entries = set_entries l (lists.remove_sub_tree ref (s.entries l)) (s.entries);
    using = assign decl (remove ref (s.using decl)) (s.using);
    refs = assign decl (remove ref (s.refs decl)) (s.refs);
  })

  -- The loop over the references of processes; `none` if one has no list. The list is the set as the
  -- loop begins: a cone that does not start from its own declaration adds no reference to that set.
  unfoldable pub sensitivity_loop :
      (decl : ℕ) → (parents refs : List ℕ) → SensitivityState → Option SensitivityState
  sensitivity_loop decl parents [] s = some s
  sensitivity_loop decl parents (ref ∷ refs) s = elim (lists.sensitivity_list ref) [
    | none ↦ none
    | some l ↦ sensitivity_loop decl parents refs (replace_ref decl ref l parents s)
  ]

  -- The loop over the references of waits, with fuel for its rounds. A reference with no list is
  -- the next one again.
  unfoldable pub wait_loop :
      ℕ → (decl : ℕ) → (parents refs : List ℕ) → SensitivityState → Option SensitivityState
  wait_loop zero decl parents refs s = none
  wait_loop (suc fuel) decl parents [] s = some s
  wait_loop (suc fuel) decl parents (ref ∷ refs) s = elim (lists.any_sensitivity_list ref) [
    | none ↦ wait_loop fuel decl parents (ref ∷ refs) s
    | some l ↦ wait_loop fuel decl parents refs (replace_ref decl ref l parents s)
  ]

-- The sets for the two kinds of use are apart, and the lists and references are common to both.
pub record Sensitivities : Type 0 where
  pub sensitivity : SensitivityState
  pub wait_using : NodeMap
  pub sens_map : NodeMap

-- One cone: `fuel` for the depth of the cones and for the rounds of the loop.
unfoldable pub fix_cone :
    Tree → Lists → (parent_map : NodeMap) → ℕ → (decl : ℕ) → Sensitivities → Option Sensitivities
unfolding calculate_parent_nodes
fix_cone tree lists parent_map fuel decl s =
    elim (calculate_parent_nodes parent_map fuel decl (s.sens_map)) [
      | none ↦ none
      | some sens_map ↦
          if is_empty (s.sensitivity.using decl) && is_empty (s.wait_using decl)
          then some (record s { sens_map = sens_map })
          else elim (sensitivity_loop tree lists decl (sens_map decl) (s.sensitivity.using decl)
              (s.sensitivity)) [
                | none ↦ none
                | some after ↦
                    elim (wait_loop tree lists fuel decl (sens_map decl) (s.wait_using decl)
                      (record after { using = s.wait_using })) [
                        | none ↦ none
                        | some waited ↦ some (record {
                          sensitivity = record waited { using = after.using };
                          wait_using = waited.using;
                          sens_map = sens_map;
                        })
                      ]
              ]
    ]

unfoldable pub fix_sensitivities :
    Tree → Lists → (parent_map : NodeMap) → ℕ → List ℕ → Sensitivities → Option Sensitivities
unfolding fix_cone
fix_sensitivities tree lists parent_map fuel [] s = some s
fix_sensitivities tree lists parent_map fuel (decl ∷ decls) s =
    elim (fix_cone tree lists parent_map fuel decl s) [
      | none ↦ none
      | some s' ↦ fix_sensitivities tree lists parent_map fuel decls s'
    ]
