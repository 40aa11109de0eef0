-- ===== src/Vhdl/Ranges/Libraries.antt =====
-- `visitLibrary` of src/vhdl2hif/PostParsingVisitor_fixRanges.cpp: the library that a dotted name of a
-- use clause stands for.
use hif_frontend.Common.{
  ◌≡◌, refl, Bool, true, false, ◌||◌, Option, none, some, ◌++◌, Bytes, codes, if◌then◌else◌,
  text_eq, Bool-cases, inl, inr,
}
use hif_frontend.Common.Outcome.{Result, ok, err, fatal}

-- A `Library`: its name, whether it is of the system, and the library that is its instance.
pub data Library : Type 0 where
  plain : (name : Bytes) → (is_system : Bool) → Library
  of_instance : (instance_library : Library) → (name : Bytes) → (is_system : Bool) → Library

abbrev pub name_of : Library → Bytes
name_of (plain name is_system) = name
name_of (of_instance library name is_system) = name

abbrev pub without_instance : Library → Library
without_instance (plain name is_system) = plain name is_system
without_instance (of_instance library name is_system) = plain name is_system

-- What becomes of the node: it stays as it is, goes to the trash, or is the library given, with the
-- name that `_librarySet` gets, if it gets one.
pub data Visited : Type 0 where
  unchanged trashed : Visited
  becomes : Library → (moved : Option Bytes) → Visited

unfoldable pub is_standard_name : Bytes → Bool
is_standard_name name = text_eq name (codes "ieee") || text_eq name (codes "std")

-- `declares_library` says whether `getDeclaration` finds a library definition for a library, and
-- `declares_view` whether it finds a view for a name.
module _ (declares_library : Library → Bool) (declares_view : Bytes → Bool) where
  abbrev pub visit_plain : Bytes → Bool → (is_in_list : Bool) → Result Visited
  visit_plain name is_system false = ok unchanged
  visit_plain name is_system true =
      if declares_library (plain name is_system)
      then ok unchanged
      else if declares_view name
      then ok trashed
      else err (fatal "Unexpected missing declaration")

  -- `inst.name`, and `lib.inst.name`.
  abbrev pub visit_package : Bytes → Bool → Bytes → Bool → Visited
  visit_package inst inst_system name is_system =
      if is_standard_name inst
      then becomes (plain (inst ++ codes "_" ++ name) true) none
      else if declares_library (plain inst inst_system)
      then becomes (plain inst inst_system) none
      else becomes (plain name is_system) none

  abbrev pub visit_nested : Bytes → Bytes → Bool → Bytes → Visited
  visit_nested lib inst inst_system name =
      if is_standard_name inst || is_standard_name lib
      then becomes (plain (lib ++ codes "_" ++ inst) true) none
      else becomes (plain inst inst_system) (some (lib ++ codes "." ++ inst ++ codes "." ++ name))

  unfoldable pub visit_library : Library → (is_in_list : Bool) → Result Visited
  unfolding is_standard_name
  visit_library (plain name is_system) is_in_list = visit_plain name is_system is_in_list
  visit_library (of_instance (plain inst inst_system) name is_system) is_in_list =
      ok (visit_package inst inst_system name is_system)
  visit_library (of_instance (of_instance lib inst inst_system) name is_system) is_in_list =
      ok (visit_nested (name_of lib) inst inst_system name)

  -- What a visit leaves has no instance.
  abbrev pub IsFlat : Visited → Type 0
  IsFlat unchanged = Unit
  IsFlat trashed = Unit
  IsFlat (becomes library moved) = without_instance library ≡ library

  visit_library-IsFlat :
      (library : Library) (name : Bytes) (is_system is_in_list : Bool)
      → (visited : Visited) × (visit_library (of_instance library name is_system) is_in_list
          ≡ ok visited)
        × IsFlat visited
  unfolding visit_library
  visit_library-IsFlat (plain inst inst_system) name is_system is_in_list = (
    visit_package inst inst_system name is_system,
    refl,
    elim (Bool-cases (is_standard_name inst)) [
      | inl e ↦ rw e refl
      | inr e ↦ elim (Bool-cases (declares_library (plain inst inst_system))) [
        | inl e' ↦ rw (e, e') refl
        | inr e' ↦ rw (e, e') refl
      ]
    ],
  )
  visit_library-IsFlat (of_instance lib inst inst_system) name is_system is_in_list = (
    visit_nested (name_of lib) inst inst_system name,
    refl,
    elim (Bool-cases (is_standard_name inst || is_standard_name (name_of lib))) [
      | inl e ↦ rw e refl
      | inr e ↦ rw e refl
    ],
  )
