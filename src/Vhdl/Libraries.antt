-- ===== src/Vhdl/Libraries.antt =====
-- `resolveLibraryType` and `fro2string` of src/vhdl2hif/vhdl_support.cpp: the library that a dotted
-- name stands for, and its text.
pub mod Names
pub mod UseClauses
mod Tests
use hif_frontend.Common.{
  Bool, true, false, not, ◌&&◌, Option, none, some, [], ◌++◌, Bytes, codes, if◌then◌else◌, text_eq,
}
use hif_frontend.Common.Outcome.{Result, ok, err, fatal}
use hif_frontend.Vhdl.Ranges.Libraries.{Library, plain, of_instance}

-- A name: an identifier, a field of a name, an instance, with its type if that is a library, or
-- another value.
pub data Name (V : Type 0) : Type 0 where
  identifier : (name : Bytes) → Name V
  field_reference : (prefix : Name V) → (name : Bytes) → Name V
  instance_name : (referenced : Option Library) → Name V
  other_value : V → Name V

unfoldable pub fro2string : {V : Type 0} → Name V → Bytes
fro2string (identifier name) = name
fro2string (field_reference prefix name) = fro2string prefix ++ (codes "." ++ name)
fro2string (instance_name referenced) = []
fro2string (other_value v) = []

-- `reference->setInstance(lib)`, with the chain from `ret` to `reference`, its last library.
abbrev pub hang : Library → Library → Library
hang (plain name is_system) lib = of_instance lib name is_system
hang (of_instance inner name is_system) lib = of_instance (hang inner lib) name is_system

abbrev pub hang_on : Option Library → Library → Library
hang_on none lib = lib
hang_on (some ret) lib = hang ret lib

-- `declares_library` says whether `getDeclaration` finds a definition of a library.
module _ (declares_library : Library → Bool) (skip_not_found : Bool) where
  -- The last turn of the loop.
  abbrev pub resolve_identifier : Bytes → Option Library → Result (Option Library)
  resolve_identifier name ret =
      if text_eq name (codes "work")
      then ok ret
      else if skip_not_found && not (declares_library (plain name false))
      then ok none
      else ok (some (hang_on ret (plain name false)))

module _ {V : Type 0} (declares_library : Library → Bool) (skip_not_found : Bool) where
  -- The loop, with the library that it has made so far; `none` for `nullptr`.
  unfoldable pub resolve_loop : Name V → Option Library → Result (Option Library)
  resolve_loop (identifier name) ret = resolve_identifier declares_library skip_not_found name ret
  resolve_loop (instance_name none) ret = err (fatal "Unexpected prefix (2)")
  resolve_loop (instance_name (some lib)) ret = ok (some (hang_on ret lib))
  resolve_loop (other_value v) ret =
      if skip_not_found then ok none else err (fatal "Unexpected prefix (1)")
  resolve_loop (field_reference prefix name) ret =
      resolve_loop prefix
        (if text_eq name (codes "all") then ret else some (hang_on ret (plain name false)))

  unfoldable pub resolve_library_type : Option (Name V) → Result (Option Library)
  unfolding resolve_loop
  resolve_library_type none = ok none
  resolve_library_type (some prefix) = resolve_loop prefix none
