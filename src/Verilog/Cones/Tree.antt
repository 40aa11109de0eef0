-- ===== src/Verilog/Cones/Tree.antt =====
-- What the tree that is analysed says of its nodes: the answers of the hif-core library to the
-- questions of src/verilog2hif/FixDescription_3.cpp. A node is known by its address.
use hif_frontend.Common.{ℕ, Bool, Option, List}

pub data PortDirection : Type 0 where
  dir_none dir_in dir_out dir_inout : PortDirection

pub record Tree : Type 0 where
  -- of a declaration: `dynamic_cast<Signal *>`, `dynamic_cast<Port *>`
  pub is_signal : ℕ → Bool
  pub is_port : ℕ → Bool
  -- of a reference: `dynamic_cast<PortAssign *>`, `objectIsInSensitivityList`, the same with
  -- `checkAll`, and `getNearestParent` of a `PortAssign`, of a `Wait`, of an `Assign`
  pub is_port_assign : ℕ → Bool
  pub in_sensitivity_list : ℕ → Bool
  pub in_any_sensitivity_list : ℕ → Bool
  pub parent_port_assign : ℕ → Option ℕ
  pub parent_wait : ℕ → Option ℕ
  pub parent_assign : ℕ → Option ℕ
  -- `isSubNode(symb, wait->getCondition())`
  pub in_wait_condition : (symb wait : ℕ) → Bool
  -- the nearest `ParameterAssign`, the formal that it is declared by, and that one's direction
  pub parent_parameter_assign : ℕ → Option ℕ
  pub formal_of : ℕ → Option ℕ
  pub direction_of : ℕ → PortDirection
  -- `isInLeftHandSide`
  pub in_left_hand_side : ℕ → Bool
  -- of an assign: its parent is a `GlobalAction`, and `collectSymbols`
  pub in_global_action : ℕ → Bool
  pub symbols_of : ℕ → List ℕ
  -- of a symbol: `dynamic_cast<Identifier *>`, and `getDeclaration` of an identifier
  pub is_identifier : ℕ → Bool
  pub identifier_declaration : ℕ → Option ℕ
