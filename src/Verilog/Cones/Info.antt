-- ===== src/Verilog/Cones/Info.antt =====
-- `InfoStruct`, `calculateRequiredDeclType`, `getWritingCallFormal` and `fillInfoMap` of
-- src/verilog2hif/FixDescription_3.cpp: how each signal and port is used.
pub mod Used
pub mod Fill
use hif_frontend.Common.{
  ℕ, Bool, true, false, not, ◌&&◌, ◌||◌, Option, none, some, List, [], ◌∷◌, if◌then◌else◌, ◌==◌,
}
use hif_frontend.Common.Sets.{insert, is_empty}
use hif_frontend.Verilog.Cones.Tree.{Tree, PortDirection, dir_none, dir_in, dir_out, dir_inout}

pub record InfoStruct : Type 0 where
  pub port_using : List ℕ
  pub sensitivity_using : List ℕ
  pub bind_using : List ℕ
  pub wait_using : List ℕ
  pub rhs_continuous_using : List ℕ
  pub lhs_continuous_using : List ℕ
  pub lhs_non_blocking_using : List ℕ
  pub lhs_blocking_using : List ℕ
  pub read_using : List ℕ
  pub lhs_call_using : List ℕ
  pub was_lhs_continuous : Bool

abbrev pub new_info : InfoStruct
new_info = record {
  port_using = [];
  sensitivity_using = [];
  bind_using = [];
  wait_using = [];
  rhs_continuous_using = [];
  lhs_continuous_using = [];
  lhs_non_blocking_using = [];
  lhs_blocking_using = [];
  read_using = [];
  lhs_call_using = [];
  was_lhs_continuous = false;
}

-- `isOnlyInContinuousAssignments`
abbrev pub is_only_in_continuous_assignments : InfoStruct → Bool
is_only_in_continuous_assignments info =
    if not (is_empty (info.sensitivity_using))
    then false
    else if not (is_empty (info.bind_using))
    then false
    else if not (is_empty (info.wait_using))
    then false
    else if not (is_empty (info.lhs_non_blocking_using))
    then false
    else if not (is_empty (info.lhs_blocking_using))
    then false
    else if not (is_empty (info.read_using))
    then false
    else if not (is_empty (info.lhs_call_using))
    then false
    else true

pub record RequiredDeclType : Type 0 where
  pub is_connection_signal : Bool
  pub is_signal : Bool
  pub is_variable : Bool

abbrev pub calculate_required_decl_type : Tree → InfoStruct → (decl : ℕ) → RequiredDeclType
calculate_required_decl_type tree infos decl =
    let connection : Bool =
      tree.is_port decl || not (is_empty (infos.port_using)) || not (is_empty (infos.bind_using)) in
    let sig : Bool =
      connection
      || not (is_empty (infos.sensitivity_using))
      || not (is_empty (infos.wait_using))
      || not (is_empty (infos.lhs_non_blocking_using)) in
    let var : Bool =
      not (is_empty (infos.lhs_continuous_using))
      || not (is_empty (infos.lhs_blocking_using))
      || infos.was_lhs_continuous in
    record { is_connection_signal = connection; is_signal = sig; is_variable = var }

-- A set of the struct.
pub data Using : Type 0 where
  port sensitivity bind wait rhs_continuous lhs_continuous lhs_non_blocking lhs_blocking read
        lhs_call :
      Using

abbrev pub is_written_by_call : PortDirection → Bool
is_written_by_call dir_out = true
is_written_by_call dir_inout = true
is_written_by_call dir_none = false
is_written_by_call dir_in = false

abbrev pub get_writing_call_formal : Tree → (symb : ℕ) → Option ℕ
get_writing_call_formal tree symb = elim (tree.parent_parameter_assign symb) [
  | none ↦ none
  | some actual ↦ elim (tree.formal_of actual) [
    | none ↦ none
    | some formal ↦ if is_written_by_call (tree.direction_of formal) then some formal else none
  ]
]

-- The branches for a reference in an assign, which is non-blocking or not.
abbrev pub assign_using : (is_target is_in_globact has_blocking : Bool) → Using
assign_using is_target is_in_globact has_blocking =
    if not is_target && is_in_globact
    then rhs_continuous
    else if is_target && is_in_globact
    then lhs_continuous
    else if is_target && not is_in_globact && not has_blocking
    then lhs_non_blocking
    else if is_target && not is_in_globact && has_blocking
    then lhs_blocking
    else read

abbrev pub is_in_wait : Tree → (symb : ℕ) → Bool
is_in_wait tree symb = elim (tree.parent_wait symb) [
  | none ↦ false
  | some w ↦ tree.in_any_sensitivity_list symb || tree.in_wait_condition symb w
]

abbrev pub is_some : Option ℕ → Bool
is_some none = false
is_some (some a) = true

abbrev pub nearest_assign_using : Tree → (ℕ → Bool) → (symb : ℕ) → Using
nearest_assign_using tree nonblocking symb = elim (tree.parent_assign symb) [
  | none ↦ read
  | some ass ↦
      assign_using (tree.in_left_hand_side symb) (tree.in_global_action ass) (not (nonblocking ass))
]

-- The set that a reference goes into.
abbrev pub using_of : Tree → (ℕ → Bool) → (symb : ℕ) → Using
using_of tree nonblocking symb =
    if tree.is_port_assign symb
    then port
    else if tree.in_sensitivity_list symb
    then sensitivity
    else if is_some (tree.parent_port_assign symb)
    then bind
    else if is_in_wait tree symb
    then wait
    else if is_some (get_writing_call_formal tree symb)
    then lhs_call
    else nearest_assign_using tree nonblocking symb

abbrev pub add_using : Using → (symb : ℕ) → InfoStruct → InfoStruct
add_using port symb i = record i { port_using = insert symb (i.port_using) }
add_using sensitivity symb i = record i { sensitivity_using = insert symb (i.sensitivity_using) }
add_using bind symb i = record i { bind_using = insert symb (i.bind_using) }
add_using wait symb i = record i { wait_using = insert symb (i.wait_using) }
add_using rhs_continuous symb i = record i {
  rhs_continuous_using = insert symb (i.rhs_continuous_using);
}
add_using lhs_continuous symb i = record i {
  was_lhs_continuous = true;
  lhs_continuous_using = insert symb (i.lhs_continuous_using);
}
add_using lhs_non_blocking symb i = record i {
  lhs_non_blocking_using = insert symb (i.lhs_non_blocking_using);
}
add_using lhs_blocking symb i = record i { lhs_blocking_using = insert symb (i.lhs_blocking_using) }
add_using read symb i = record i { read_using = insert symb (i.read_using) }
add_using lhs_call symb i = record i { lhs_call_using = insert symb (i.lhs_call_using) }

-- The maps that the analysis keeps, and which assigns have the property `NONBLOCKING_ASSIGNMENT`.
pub record Analysis : Type 0 where
  -- the keys of `infoMap`, and its values
  pub decls : List ℕ
  pub infos : ℕ → InfoStruct
  pub nonblocking : ℕ → Bool

abbrev pub update : (decl : ℕ) → (InfoStruct → InfoStruct) → (ℕ → InfoStruct) → ℕ → InfoStruct
update decl f infos d = if d == decl then f (infos d) else infos d

-- `ass->removeProperty(NONBLOCKING_ASSIGNMENT)`
abbrev pub remove_property : Option ℕ → (ℕ → Bool) → ℕ → Bool
remove_property none nonblocking a = nonblocking a
remove_property (some ass) nonblocking a = not (a == ass) && nonblocking a

abbrev pub is_lhs_non_blocking : Using → Bool
is_lhs_non_blocking lhs_non_blocking = true
is_lhs_non_blocking _ = false

-- One round of the inner loop.
abbrev pub fill_symbol : Tree → (remove_it : Bool) → (decl symb : ℕ) → Analysis → Analysis
fill_symbol tree remove_it decl symb s =
    let u = using_of tree (s.nonblocking) symb in
    record {
      decls = insert decl (s.decls);
      infos = update decl (add_using u symb) (s.infos);
      nonblocking =
          if remove_it && is_lhs_non_blocking u
          then remove_property (tree.parent_assign symb) (s.nonblocking)
          else s.nonblocking;
    }

pub fill_symbols : Tree → (remove_it : Bool) → (decl : ℕ) → List ℕ → Analysis → Analysis
fill_symbols tree remove_it decl [] s = s
fill_symbols tree remove_it decl (symb ∷ symbs) s =
    fill_symbols tree remove_it decl symbs (fill_symbol tree remove_it decl symb s)

-- The references of each declaration, in the order of the map.
abbrev pub RefMap : Type 0
RefMap = List (ℕ × List ℕ)

unfoldable pub fill_info_map : Tree → (remove_it : Bool) → RefMap → Analysis → Analysis
unfolding fill_symbols
fill_info_map tree remove_it [] s = s
fill_info_map tree remove_it ((decl, symbs) ∷ refs) s = fill_info_map tree remove_it refs (
    if not (tree.is_signal decl) && not (tree.is_port decl)
    then s
    else fill_symbols tree remove_it decl symbs s)
