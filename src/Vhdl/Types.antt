-- ===== src/Vhdl/Types.antt =====
-- `VhdlParser::resolveType` of src/vhdl2hif/VhdlParser.cpp: the HIF type of a VHDL type mark, as a
-- release build computes it (`messageDebugAssert` does nothing). The sign that an `Array` takes
-- over from a fresh `Bitvector` is left out.
pub mod Laws
use mathlib.Core.Option
use hif_frontend.Common.{
  ℕ, Bool, true, false, Option, none, some, List, [], ◌∷◌, ◌++◌, Bytes, codes, text_eq,
  if◌then◌else◌,
}
use hif_frontend.Common.Int.{ℤ, pos, negsuc}
use hif_frontend.Hif.{
  Value, int_value, range, Range, empty_range, int_range, bounds, left_bound, dir_upto, dir_downto,
  HifType, bit, int, boolean, time, bitvector, array, unsigned, signed, string, character, real,
  type_reference,
}
use hif_frontend.Vhdl.Text.{string_to_lower}

-- The type marks that `resolveType` knows.
pub data TypeMark : Type 0 where
  bit_mark integer_mark natural_mark positive_mark boolean_mark time_mark : TypeMark
  bit_vector_mark std_logic_vector_mark std_ulogic_vector_mark : TypeMark
  std_logic_mark std_ulogic_mark unsigned_mark signed_mark string_mark : TypeMark
  x01_mark character_mark real_mark other_mark : TypeMark

-- The ladder of comparisons, over the name in lower case.
unfoldable pub type_mark : Bytes → TypeMark
unfolding text_eq
type_mark s =
    if text_eq s (codes "bit")
    then bit_mark
    else if text_eq s (codes "integer")
    then integer_mark
    else if text_eq s (codes "natural")
    then natural_mark
    else if text_eq s (codes "positive")
    then positive_mark
    else if text_eq s (codes "boolean")
    then boolean_mark
    else if text_eq s (codes "time")
    then time_mark
    else if text_eq s (codes "bit_vector")
    then bit_vector_mark
    else if text_eq s (codes "std_logic_vector")
    then std_logic_vector_mark
    else if text_eq s (codes "std_ulogic_vector")
    then std_ulogic_vector_mark
    else if text_eq s (codes "std_logic")
    then std_logic_mark
    else if text_eq s (codes "std_ulogic")
    then std_ulogic_mark
    else if text_eq s (codes "unsigned")
    then unsigned_mark
    else if text_eq s (codes "signed")
    then signed_mark
    else if text_eq s (codes "string")
    then string_mark
    else if text_eq s (codes "x01")
    then x01_mark
    else if text_eq s (codes "character")
    then character_mark
    else if text_eq s (codes "real")
    then real_mark
    else other_mark

module _ {R : Type 0} where
  -- `dynamic_cast<Range *>(v)`.
  abbrev pub as_range : Value R → Option (Range R)
  as_range (range r) = some r
  as_range _ = none

  -- The loops that set the span to each range among the arguments: the last one stays.
  pub last_range : List (Value R) → Option (Range R) → Option (Range R)
  last_range [] span = span
  last_range (v ∷ vs) span = last_range vs (elim (as_range v) [ some r ↦ some r | none ↦ span ])

  -- `integer`: the range given, or -2147483647 to 2147483647.
  pub integer_type : Option (Range R) → HifType R
  integer_type (some ro) = int true (some ro)
  integer_type none = int true (some (int_range (negsuc 2147483646) (pos 2147483647)))

  -- `natural` and `positive`, which differ in the low end of the range.
  pub natural_type : ℤ → Option (List (Value R)) → Option (Range R) → HifType R
  unfolding last_range
  natural_type low (some (v ∷ vs)) ro = int false (last_range (v ∷ vs) none)
  natural_type low _ (some ro) = int false (some ro)
  natural_type low _ none = int false (some (int_range low (pos 2147483647)))

  -- The span that the first argument of a vector gives.
  pub vector_span : Value R → Range R
  vector_span v = elim (as_range v) [ some r ↦ r | none ↦ bounds (int_value (pos 1)) dir_upto v ]

  -- The vector of the first argument, and the array that `resolveType`, called again with the
  -- arguments that are left, makes of it.
  pub vector_of : (logic resolved : Bool) → Value R → List (Value R) → HifType R
  vector_of logic resolved v [] = bitvector logic resolved (vector_span v)
  vector_of logic resolved v (w ∷ vs) = array (vector_span v) (vector_of logic resolved w vs)

  -- `bit_vector`, `std_logic_vector` and `std_ulogic_vector`.
  pub vector_type : (logic resolved : Bool) → Option (List (Value R)) → HifType R
  unfolding vector_of vector_span
  vector_type logic resolved (some (v ∷ vs)) = vector_of logic resolved v vs
  vector_type logic resolved _ = bitvector logic resolved empty_range

  -- The span of `unsigned`, `signed` and `string`.
  pub numeric_span : Range R → Option (List (Value R)) → Option (Range R)
  unfolding last_range
  numeric_span typed (some (v ∷ vs)) = last_range (v ∷ vs) none
  numeric_span typed _ = some typed

  -- The ranges among the arguments of a type reference.
  pub ranges_of : List (Value R) → List (Range R)
  ranges_of [] = []
  ranges_of (v ∷ vs) = elim (as_range v) [ some r ↦ r ∷ ranges_of vs | none ↦ ranges_of vs ]

  pub reference_type : Bytes → Option (List (Value R)) → HifType R
  unfolding ranges_of
  reference_type name none = type_reference name []
  reference_type name (some vs) = type_reference name (ranges_of vs)

  -- `none` is `nullptr`.
  unfoldable pub type_of_mark :
      TypeMark → Bytes → Option (List (Value R)) → Option (Range R) → Bool → Option (HifType R)
  unfolding integer_type natural_type vector_type numeric_span reference_type
  type_of_mark bit_mark name args ro mandatory = some (bit false false)
  type_of_mark integer_mark name args ro mandatory = some (integer_type ro)
  type_of_mark natural_mark name args ro mandatory = some (natural_type (pos 0) args ro)
  type_of_mark positive_mark name args ro mandatory = some (natural_type (pos 1) args ro)
  type_of_mark boolean_mark name args ro mandatory = some boolean
  type_of_mark time_mark name args ro mandatory = some time
  type_of_mark bit_vector_mark name args ro mandatory = some (vector_type false false args)
  type_of_mark std_logic_vector_mark name args ro mandatory = some (vector_type true true args)
  type_of_mark std_ulogic_vector_mark name args ro mandatory = some (vector_type true false args)
  type_of_mark std_logic_mark name args ro mandatory = some (bit true true)
  type_of_mark std_ulogic_mark name args ro mandatory = some (bit true false)
  type_of_mark unsigned_mark name args ro mandatory =
      some (unsigned (numeric_span empty_range args))
  type_of_mark signed_mark name args ro mandatory = some (signed (numeric_span empty_range args))
  type_of_mark string_mark name args ro mandatory =
      some (string (numeric_span (left_bound dir_upto (int_value (pos 1))) args))
  type_of_mark x01_mark name args ro mandatory = some (bit true true)
  type_of_mark character_mark name args ro mandatory = some character
  type_of_mark real_mark name args ro mandatory =
      some (real (bounds (int_value (pos 63)) dir_downto (int_value (pos 0))))
  type_of_mark other_mark name args ro true = some (reference_type name args)
  type_of_mark other_mark name args ro false = none

  -- A vector takes its arguments off the list that it is given.
  pub args_left : TypeMark → Option (List (Value R)) → Option (List (Value R))
  args_left bit_vector_mark (some vs) = some []
  args_left std_logic_vector_mark (some vs) = some []
  args_left std_ulogic_vector_mark (some vs) = some []
  args_left _ args = args

  -- The type, and the list of arguments as the call leaves it.
  unfoldable pub resolve_type :
      Bytes
      → Option (List (Value R))
      → Option (Range R)
      → Bool
      → Option (HifType R) × Option (List (Value R))
  unfolding type_mark type_of_mark args_left string_to_lower
  resolve_type type_ref opt_arg ro mandatory =
      let name = string_to_lower type_ref in
      let mark = type_mark name in
      (type_of_mark mark name opt_arg ro mandatory, args_left mark opt_arg)
