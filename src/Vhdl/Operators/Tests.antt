-- ===== src/Vhdl/Operators/Tests.antt =====
-- Runs of the overloads of operators on small libraries.
use hif_frontend.Common.{
  ℕ, ◌≡◌, refl, ◌⊎◌, true, false, none, some, List, [], ◌∷◌, ◌++◌, ◌+◌, codes, text_eq,
  if◌then◌else◌,
}
use mathlib.Core.Path.{subst}
use hif_frontend.Common.Outcome.{Error, Result, ok, err}
use hif_frontend.Common.Int.{pos}
use hif_frontend.Hif.{HifType, int, signed, identifier, bounds, int_range, dir_downto}
use hif_frontend.Vhdl.Operators.{Row, binary, Function, operator_name, parse_operator}
use hif_frontend.Vhdl.Operators.Tables.{rows_of}
use hif_frontend.Vhdl.Operators.Standard.{
  Declaration, own, overload, LibraryDef, Visitor, insert_overloads,
  add_standard_operator_overloads, visit_system,
}
use hif_frontend.Vhdl.Operators.Standard.Added.{
  Overloads, after, add_standard_operator_overloads_lem,
}
use hif_frontend.Vhdl.Operators.Standard.Removed.{
  SameDeclarations, InPlace, Leaves, remove_standard_operator_overloads-visit_system,
}
use hif_frontend.Vhdl.Operators.Names.{
  LookedUp, IsUnreachable, NeverLookedUp, operator_name-get_overloaded_function_name,
}
use hif_frontend.Vhdl.Operators.Distinct.{DistinctRows, rows_of-DistinctRows}
use hif_frontend.Vhdl.Operators.Types.{type_names, parameter_names, parse_operator_lem}

abbrev integer : HifType ℕ
integer = int true none

abbrev numeric_std : LibraryDef ℕ ℕ
numeric_std = record {
  name = codes "ieee_numeric_std";
  is_standard = true;
  declarations = own 1 ∷ own 2 ∷ [];
}

abbrev work : LibraryDef ℕ ℕ
work = record { name = codes "work"; is_standard = false; declarations = own 3 ∷ [] }

abbrev visitor : Visitor
visitor = record { operators = []; next = 0 }

add_standard_operator_overloads_example :
    (rows : List Row) × (new : List (Declaration ℕ ℕ)) × (rows
      ≡ (if numeric_std.is_standard then rows_of numeric_std.name else []))
    × (add_standard_operator_overloads integer visitor numeric_std
        ≡ ok (
          after rows visitor,
          record numeric_std { declarations = numeric_std.declarations ++ new },
        ))
    × Overloads integer rows 0 new
add_standard_operator_overloads_example =
    add_standard_operator_overloads_lem integer visitor numeric_std

-- A traversal that changes each declaration of a library in its place.
abbrev changed : List (Declaration ℕ ℕ) → List (Declaration ℕ ℕ)
changed [] = []
changed (own d ∷ ds) = own (d + 1) ∷ changed ds
changed (overload a f ∷ ds) = overload a f ∷ changed ds

abbrev traversed : List (LibraryDef ℕ ℕ) → List (LibraryDef ℕ ℕ)
traversed [] = []
traversed (ld ∷ libraries) =
    record ld { declarations = changed ld.declarations } ∷ traversed libraries

changed-Same : (ds : List (Declaration ℕ ℕ)) → SameDeclarations ds (changed ds)
changed-Same [] = tt
changed-Same (own d ∷ ds) = (tt, changed-Same ds)
changed-Same (overload a f ∷ ds) = (refl, changed-Same ds)

traversed-InPlace : (libraries : List (LibraryDef ℕ ℕ)) → InPlace libraries (traversed libraries)
traversed-InPlace [] = tt
traversed-InPlace (ld ∷ libraries) =
    (refl, refl, changed-Same ld.declarations, traversed-InPlace libraries)

abbrev traversal : List (LibraryDef ℕ ℕ) → Result (List (LibraryDef ℕ ℕ))
traversal libraries = ok (traversed libraries)

traversal-InPlace :
    (before visited : List (LibraryDef ℕ ℕ))
    → traversal before ≡ ok visited
    → InPlace before visited
traversal-InPlace before visited e =
    let e' : traversed before ≡ visited = cc in
    subst (λ x. InPlace before x) e' (traversed-InPlace before)

remove_standard_operator_overloads_example :
    (v : Visitor) × (inserted : List (LibraryDef ℕ ℕ)) × (insert_overloads integer visitor
        (numeric_std ∷ work ∷ [])
      ≡ ok (v, inserted))
    × (((e : Error) × (traversal inserted ≡ err e)
          × (visit_system integer traversal visitor (numeric_std ∷ work ∷ []) ≡ err e))
        ⊎ ((visited : List (LibraryDef ℕ ℕ)) × (traversal inserted ≡ ok visited)
            × (visit_system integer traversal visitor (numeric_std ∷ work ∷ []) ≡ ok (v, visited))
            × Leaves v.operators (numeric_std ∷ work ∷ []) visited))
remove_standard_operator_overloads_example =
    remove_standard_operator_overloads-visit_system integer traversal visitor
      (numeric_std ∷ work ∷ []) traversal-InPlace ((tt, (tt, tt)), ((tt, tt), tt))

operator_name_example :
    LookedUp (codes "mod") (codes "__vhdl_op_mod")
    ⊎ ((IsUnreachable (codes "mod")) × (NeverLookedUp (codes "__vhdl_op_mod")))
unfolding operator_name text_eq
operator_name_example =
    operator_name-get_overloaded_function_name (codes "mod") (codes "__vhdl_op_mod") refl

abbrev shift : Function ℕ
shift = record {
  name = codes "__vhdl_op_sll";
  template_parameters = codes "left1" ∷ codes "right1" ∷ [];
  parameters =
      record {
        name = codes "param1";
        type =
            signed
              (some (bounds (identifier (codes "left1")) dir_downto (identifier (codes "right1"))));
      }
      ∷ record { name = codes "param2"; type = integer }
      ∷ [];
  type = some (signed (some (int_range (pos 31) (pos 0))));
}

parse_operator_example :
    (shift.template_parameters ≡ parameter_names shift.parameters)
    × ((t : HifType ℕ) × (shift.type ≡ some t) × (type_names t ≡ []))
unfolding parse_operator text_eq
parse_operator_example =
    parse_operator_lem integer refl (binary "sll" "signed" "integer" "signed") shift refl

rows_of-DistinctRows_example : DistinctRows (rows_of (codes "ieee_std_logic_arith"))
rows_of-DistinctRows_example = rows_of-DistinctRows (codes "ieee_std_logic_arith")
