-- ===== src/Verilog/Constants.antt =====
-- `_isConstantExpr`, `_isFoldableIntoDeclaration` and `visitGlobalAction` of
-- src/verilog2hif/FixDescription_1.cpp: which values are constant, and which assignments of a global
-- action become the initial value of a declaration.
pub mod Folding
pub mod Replication
pub mod Counts
pub mod Copies
mod Tests
use hif_frontend.Common.{
  ℕ, Bool, true, false, ◌||◌, Option, none, some, List, [], ◌∷◌, Bytes, ◌==◌, if◌then◌else◌,
}
use hif_frontend.Common.Outcome.{Result, ok, err, fatal, ◌>>=◌}

-- What a declaration is: `other` for none of `Signal`, `Port` and `Variable`.
pub data DeclarationClass : Type 0 where
  signal port variable other : DeclarationClass

-- A declaration, with `PROPERTY_GENVAR` and whether it stands below a `Contents`.
pub record Declaration : Type 0 where
  pub class : DeclarationClass
  pub is_genvar : Bool
  pub in_contents : Bool

-- A symbol that `collectSymbols` finds: the name if it is a function call, whether it is an instance
-- of a library, and what `getDeclaration` returns.
pub record Symbol : Type 0 where
  pub call_name : Option Bytes
  pub is_library_instance : Bool
  pub declaration : Option Declaration

abbrev pub is_data : DeclarationClass → Bool
is_data other = false
is_data _ = true

-- The left-hand side of an assignment: an identifier, with its declaration's address, or not.
pub data Target (L : Type 0) : Type 0 where
  identifier : (declaration : Option ℕ) → Target L
  other_target : L → Target L

-- An action of a global action: an assignment, or anything else.
pub data GlobalAction (A L V : Type 0) : Type 0 where
  assign : Target L → (right : Option V) → GlobalAction A L V
  other_action : A → GlobalAction A L V

-- The loops over the symbols: is there a signal, a port or a variable; is there a declaration in a
-- `Contents`.
unfoldable pub constant_loop : List Symbol → Result Bool
constant_loop [] = ok true
constant_loop (symbol ∷ symbols) =
    let rest = constant_loop symbols in
    if symbol.is_library_instance then rest else elim symbol.declaration [
      | none ↦ err (fatal "hif::Declaration not found")
      | some decl ↦ if is_data decl.class then ok false else rest
    ]

unfoldable pub foldable_loop : List Symbol → Result Bool
foldable_loop [] = ok true
foldable_loop (symbol ∷ symbols) =
    let rest = foldable_loop symbols in
    if symbol.is_library_instance then rest else elim symbol.declaration [
      | none ↦ err (fatal "hif::Declaration not found")
      | some decl ↦ if decl.in_contents then ok false else rest
    ]

-- `decl->setValue(v)`, with the values of the declarations by their addresses.
abbrev pub set_value : {V : Type 0} → ℕ → Option V → (ℕ → Option V) → ℕ → Option V
set_value d v values x = if x == d then v else values x

module _ {A L V : Type 0} where
  -- An action that stays, before the others.
  abbrev pub stay :
      GlobalAction A L V
      → Result (List (GlobalAction A L V) × (ℕ → Option V))
      → Result (List (GlobalAction A L V) × (ℕ → Option V))
  stay a rest = rest >>= λ (actions, values). ok (a ∷ actions, values)

  -- An assignment whose right-hand side is foldable or not, and the loop after it.
  abbrev pub fold_assign :
      Bool
      → Target L
      → Option V
      → (ℕ → Option V)
      → ((ℕ → Option V) → Result (List (GlobalAction A L V) × (ℕ → Option V)))
      → Result (List (GlobalAction A L V) × (ℕ → Option V))
  fold_assign true (identifier none) right values rest = err (fatal "hif::Declaration not found")
  fold_assign true (identifier (some d)) right values rest = rest (set_value d right values)
  fold_assign true (other_target l) right values rest =
      stay (assign (other_target l) right) (rest values)
  fold_assign false target right values rest = stay (assign target right) (rest values)

-- `V` are the values, and `collect_symbols` what the library finds in one.
module _ {V : Type 0} (collect_symbols : V → List Symbol) where
  unfoldable pub is_constant_expr : Option V → Result Bool
  is_constant_expr none = ok true
  is_constant_expr (some v) = constant_loop (collect_symbols v)

  unfoldable pub is_foldable_into_declaration : Option V → Result Bool
  unfolding is_constant_expr
  is_foldable_into_declaration none = ok true
  is_foldable_into_declaration (some v) = do
    constant ← is_constant_expr (some v)
    if constant then foldable_loop (collect_symbols v) else ok false

  module _ {A L : Type 0} where
    -- The loop of `visitGlobalAction`.
    unfoldable pub visit_global_action :
        List (GlobalAction A L V)
        → (ℕ → Option V)
        → Result (List (GlobalAction A L V) × (ℕ → Option V))
    visit_global_action [] values = ok ([], values)
    visit_global_action (other_action a ∷ actions) values = err (fatal "Unexpected case")
    visit_global_action (assign target right ∷ actions) values =
        is_foldable_into_declaration right >>= λ foldable.
        fold_assign foldable target right values (visit_global_action actions)
