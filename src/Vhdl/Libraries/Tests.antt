-- ===== src/Vhdl/Libraries/Tests.antt =====
-- The library of `ieee.std_logic_1164.all`.
use hif_frontend.Common.{
  ◌≡◌, refl, Bool, true, Option, [], ◌∷◌, Bytes, codes, ℕ, text_eq, some, none, false,
}
use hif_frontend.Common.Outcome.{ok}
use hif_frontend.Vhdl.Ranges.Libraries.{Library, plain, becomes, is_standard_name, visit_library}
use hif_frontend.Vhdl.Libraries.{Name, identifier, field_reference, resolve_library_type}
use hif_frontend.Vhdl.Libraries.Names.{all_names, resolve_library_type_lem}
use hif_frontend.Vhdl.Libraries.UseClauses.{visit_library-resolve_library_type}

abbrev logic_1164 : Name ℕ
logic_1164 =
    field_reference (field_reference (identifier (codes "ieee")) (codes "std_logic_1164"))
      (codes "all")

abbrev all_found : Library → Bool
all_found library = true

resolve_library_type_example :
    (found : Option Library) × (resolve_library_type all_found true (some logic_1164) ≡ ok found)
    × (all_names found ≡ codes "ieee" ∷ codes "std_logic_1164" ∷ [])
unfolding text_eq
resolve_library_type_example = resolve_library_type_lem all_found true logic_1164 refl

abbrev none_found : Library → Bool
none_found library = false

abbrev no_view : Bytes → Bool
no_view name = false

visit_library-resolve_library_type_example :
    (found : Library) × (resolve_library_type none_found false (some logic_1164) ≡ ok (some found))
    × (visit_library none_found no_view found true
        ≡ ok (becomes (plain (codes "ieee_std_logic_1164") true) none))
unfolding text_eq is_standard_name
visit_library-resolve_library_type_example =
    visit_library-resolve_library_type ℕ none_found no_view false (codes "ieee")
      (codes "std_logic_1164") (codes "all") true refl refl refl
