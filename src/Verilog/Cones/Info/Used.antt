-- ===== src/Verilog/Cones/Info/Used.antt =====
-- What it means that a signal or port is used in a way at a place.
use hif_frontend.Common.{
  ℕ, ◌≡◌, Bool, true, false, not, ◌&&◌, ◌||◌, Option, none, some, ◌==◌, arith,
}
use hif_frontend.Verilog.Cones.Tree.{Tree, PortDirection, dir_none, dir_in, dir_out, dir_inout}
use hif_frontend.Verilog.Cones.Info.{
  Using, port, sensitivity, bind, wait, rhs_continuous, lhs_continuous, lhs_non_blocking,
  lhs_blocking, read, lhs_call, using_of,
}

abbrev index : Using → ℕ
index port = 0
index sensitivity = 1
index bind = 2
index wait = 3
index rhs_continuous = 4
index lhs_continuous = 5
index lhs_non_blocking = 6
index lhs_blocking = 7
index read = 8
index lhs_call = 9

abbrev pub same_using : Using → Using → Bool
same_using v u = index v == index u

-- The direction of the formal that a reference is the argument of.
abbrev pub argument_direction : Tree → (r : ℕ) → PortDirection
argument_direction tree r = elim (tree.parent_parameter_assign r) [
  | none ↦ dir_none
  | some actual ↦ elim (tree.formal_of actual) [
    | none ↦ dir_none
    | some formal ↦ tree.direction_of formal
  ]
]

abbrev pub is_output : PortDirection → Bool
is_output dir_none = false
is_output dir_in = false
is_output dir_out = true
is_output dir_inout = true

-- The reference is below a node of a kind, and the node is of a sort.
abbrev pub is_below : Option ℕ → (ℕ → Bool) → Bool
is_below none test = false
is_below (some node) test = test node

abbrev pub is_waited_for : Tree → (r : ℕ) → Bool
is_waited_for tree r =
    is_below (tree.parent_wait r)
      (λ w. tree.in_any_sensitivity_list r || tree.in_wait_condition r w)

-- The reference is in the binding of a port or in the sensitivity list of a process.
abbrev pub is_structural : Tree → (r : ℕ) → Bool
is_structural tree r =
    tree.is_port_assign r
    || tree.in_sensitivity_list r
    || is_below (tree.parent_port_assign r) (λ a. true)

-- The reference is in none of the places that come before assigns.
abbrev pub is_plain : Tree → (r : ℕ) → Bool
is_plain tree r =
    not (is_structural tree r)
    && not (is_waited_for tree r)
    && not (is_output (argument_direction tree r))

-- What it means that a reference is used in a way: each way with the conditions of its own.
abbrev pub used : Tree → (nonblocking : ℕ → Bool) → (r : ℕ) → Using → Bool
used tree nonblocking r port = tree.is_port_assign r
used tree nonblocking r sensitivity = not (tree.is_port_assign r) && tree.in_sensitivity_list r
used tree nonblocking r bind =
    not (tree.is_port_assign r)
    && not (tree.in_sensitivity_list r)
    && is_below (tree.parent_port_assign r) (λ a. true)
used tree nonblocking r wait = not (is_structural tree r) && is_waited_for tree r
used tree nonblocking r lhs_call =
    not (is_structural tree r)
    && not (is_waited_for tree r)
    && is_output (argument_direction tree r)
used tree nonblocking r rhs_continuous =
    is_plain tree r
    && not (tree.in_left_hand_side r)
    && is_below (tree.parent_assign r) (λ a. tree.in_global_action a)
used tree nonblocking r lhs_continuous =
    is_plain tree r
    && tree.in_left_hand_side r
    && is_below (tree.parent_assign r) (λ a. tree.in_global_action a)
used tree nonblocking r lhs_non_blocking =
    is_plain tree r
    && tree.in_left_hand_side r
    && is_below (tree.parent_assign r) (λ a. not (tree.in_global_action a) && nonblocking a)
used tree nonblocking r lhs_blocking =
    is_plain tree r
    && tree.in_left_hand_side r
    && is_below (tree.parent_assign r) (λ a. not (tree.in_global_action a) && not (nonblocking a))
used tree nonblocking r read =
    is_plain tree r
    && not
        (is_below (tree.parent_assign r) (λ a. tree.in_global_action a || tree.in_left_hand_side r))

pub using_of-used :
    (tree : Tree) (nonblocking : ℕ → Bool) (r : ℕ) (u : Using)
    → same_using (using_of tree nonblocking r) u ≡ used tree nonblocking r u
using_of-used tree nonblocking r u = ground arith
