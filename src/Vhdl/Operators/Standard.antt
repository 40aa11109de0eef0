-- ===== src/Vhdl/Operators/Standard.antt =====
-- `visitSystem`, `_addStandardOperatorOverloads` and `_removeStandardOperatorOverloads` of
-- src/vhdl2hif/PostParsingVisitor_step2.cpp: while the visitor works, the standard libraries
-- declare overloads of the operators; its destructor takes them out.
pub mod Added
pub mod Kept
pub mod Removed
use hif_frontend.Common.{
  ℕ, suc, Bool, true, false, not, ◌||◌, List, [], ◌∷◌, ◌++◌, map, Bytes, ◌==◌, if◌then◌else◌, keep,
}
use hif_frontend.Common.Outcome.{Result, ok, ◌>>=◌}
use hif_frontend.Hif.{HifType}
use hif_frontend.Vhdl.Operators.{Row, Function, parse_operator}
use hif_frontend.Vhdl.Operators.Tables.{rows_of}

-- A declaration of a library: one that it had, or an overload and the address of its node.
pub data Declaration (D R : Type 0) : Type 0 where
  own : D → Declaration D R
  overload : (address : ℕ) → Function R → Declaration D R

pub record LibraryDef (D R : Type 0) : Type 0 where
  pub name : Bytes
  pub is_standard : Bool
  pub declarations : List (Declaration D R)

-- The visitor: the set `_operators`, and the address of the next node.
pub record Visitor : Type 0 where
  pub operators : List ℕ
  pub next : ℕ

module _ {D R : Type 0} (integer : HifType R) where
  -- One call of `_parseOperator`.
  pub insert_operator : Row → Visitor → LibraryDef D R → Result (Visitor × LibraryDef D R)
  insert_operator row visitor ld = do
    sub ← parse_operator integer row
    ok (
      record visitor { operators = visitor.next ∷ visitor.operators; next = suc visitor.next },
      record ld { declarations = ld.declarations ++ overload visitor.next sub ∷ [] },
    )

  pub insert_operators : List Row → Visitor → LibraryDef D R → Result (Visitor × LibraryDef D R)
  unfolding insert_operator
  insert_operators [] visitor ld = ok (visitor, ld)
  insert_operators (row ∷ rows) visitor ld = do
    (visitor, ld) ← insert_operator row visitor ld
    insert_operators rows visitor ld

  pub add_standard_operator_overloads : Visitor → LibraryDef D R → Result (Visitor × LibraryDef D R)
  unfolding insert_operators
  add_standard_operator_overloads visitor ld =
      if not ld.is_standard then ok (visitor, ld) else insert_operators (rows_of ld.name) visitor ld

  -- The loop of `visitSystem` over the libraries.
  pub insert_overloads : Visitor → List (LibraryDef D R) → Result (Visitor × List (LibraryDef D R))
  unfolding add_standard_operator_overloads
  insert_overloads visitor [] = ok (visitor, [])
  insert_overloads visitor (ld ∷ libraries) = do
    (visitor, ld) ← add_standard_operator_overloads visitor ld
    (visitor, libraries) ← insert_overloads visitor libraries
    ok (visitor, ld ∷ libraries)

  -- `guide_visit` is the traversal by `GuideVisitor::visitSystem` of the library, which calls the
  -- visits of the nodes; `_operators` does not change in it.
  pub visit_system :
      (guide_visit : List (LibraryDef D R) → Result (List (LibraryDef D R)))
      → Visitor
      → List (LibraryDef D R)
      → Result (Visitor × List (LibraryDef D R))
  unfolding insert_overloads
  visit_system guide_visit visitor libraries = do
    (visitor, libraries) ← insert_overloads visitor libraries
    libraries ← guide_visit libraries
    ok (visitor, libraries)

module _ {D R : Type 0} where
  abbrev pub stays : ℕ → Declaration D R → Bool
  stays sub (own d) = true
  stays sub (overload address f) = not (address == sub)

  abbrev pub without : ℕ → LibraryDef D R → LibraryDef D R
  without sub ld = record ld { declarations = keep (stays sub) ld.declarations }

  -- `sub->replace(nullptr)`: the node leaves the list that holds it.
  pub replace_by_null : ℕ → List (LibraryDef D R) → List (LibraryDef D R)
  replace_by_null sub libraries = map (without sub) libraries

  pub remove_standard_operator_overloads : List ℕ → List (LibraryDef D R) → List (LibraryDef D R)
  unfolding replace_by_null
  remove_standard_operator_overloads [] libraries = libraries
  remove_standard_operator_overloads (sub ∷ operators) libraries =
      remove_standard_operator_overloads operators (replace_by_null sub libraries)
