-- ===== src/Vhdl/Ranges.antt =====
-- `visitFunctionCall`, `_fixTypeAttributeCall` and `visitInt` of
-- src/vhdl2hif/PostParsingVisitor_fixRanges.cpp: attributes of types, and where the range of an
-- integer type goes.
pub mod Laws
pub mod Libraries
mod Tests
use hif_frontend.Common.{
  ℕ, Bool, true, false, Option, none, some, List, [], ◌∷◌, Bytes, codes, ◌==◌, ◌||◌, if◌then◌else◌,
  text_eq,
}
use hif_frontend.Common.Outcome.{Result, ok, err, fatal, ◌>>=◌}
use hif_frontend.Hif.{Value, RangeDirection, dir_upto, dir_downto, HifType}
use hif_frontend.Vhdl.Types.{resolve_type}

-- A span, as `typeGetSpan` returns it: `none` for a direction that is neither upto nor downto.
pub record Span (R : Type 0) : Type 0 where
  pub left : Value R
  pub direction : Option RangeDirection
  pub right : Value R

-- What an attribute call becomes: a copy of a bound, or a cast.
pub data Replacement (R : Type 0) : Type 0 where
  bound : Value R → Replacement R
  cast : HifType R → Value R → Replacement R

pub data Attribute : Type 0 where
  low high left_attribute right_attribute val other_attribute : Attribute

-- The ladder of comparisons of `callName`.
unfoldable pub attribute_of : Bytes → Attribute
attribute_of name =
    if text_eq name (codes "low")
    then low
    else if text_eq name (codes "high")
    then high
    else if text_eq name (codes "left")
    then left_attribute
    else if text_eq name (codes "right")
    then right_attribute
    else if text_eq name (codes "val")
    then val
    else other_attribute

-- A bound of a span, which must have a direction.
abbrev pub bound_of : {R : Type 0} → Attribute → Span R → RangeDirection → Value R
bound_of low span dir_downto = span.right
bound_of low span dir_upto = span.left
bound_of high span dir_downto = span.left
bound_of high span dir_upto = span.right
bound_of left_attribute span direction = span.left
bound_of _ span direction = span.right

abbrev pub span_bound : {R : Type 0} → Attribute → Option (Span R) → Result (Option (Replacement R))
span_bound attribute none = err (fatal "Span not found")
span_bound attribute (some span) = elim span.direction [
  | none ↦ err (fatal "Unexpected range direction")
  | some direction ↦ ok (some (bound (bound_of attribute span direction)))
]

abbrev pub cast_argument :
    {R : Type 0} → HifType R → List (Value R) → Result (Option (Replacement R))
cast_argument t (v ∷ []) = ok (some (cast t v))
cast_argument t _ = err (fatal "Expected only one parameter.")

-- `type_get_span` is the library's.
module _ {R : Type 0} (type_get_span : HifType R → Option (Span R)) where
  abbrev pub fix_attribute :
      Attribute → List (Value R) → HifType R → Result (Option (Replacement R))
  fix_attribute val arguments t = cast_argument t arguments
  fix_attribute other_attribute arguments t = ok none
  fix_attribute low arguments t = span_bound low (type_get_span t)
  fix_attribute high arguments t = span_bound high (type_get_span t)
  fix_attribute left_attribute arguments t = span_bound left_attribute (type_get_span t)
  fix_attribute right_attribute arguments t = span_bound right_attribute (type_get_span t)

  -- `none` for `nullptr`, as a release build returns it.
  unfoldable pub fix_type_attribute_call :
      Bytes → List (Value R) → HifType R → Result (Option (Replacement R))
  unfolding attribute_of
  fix_type_attribute_call name arguments t = fix_attribute (attribute_of name) arguments t

  abbrev pub replace_call : Option (Replacement R) → Result (Option (Replacement R))
  replace_call none = err (fatal "Unsupported attribute call on VHDL type")
  replace_call (some v) = ok (some v)

  abbrev pub visit_resolved :
      Bytes → List (Value R) → Option (HifType R) → Result (Option (Replacement R))
  visit_resolved name arguments none = ok none
  visit_resolved name arguments (some t) = fix_type_attribute_call name arguments t >>= replace_call

  -- The call `instance'name(arguments)`, with the name of the instance if that is an identifier;
  -- `none` when the call stays.
  unfoldable pub visit_function_call :
      Option Bytes → Bytes → List (Value R) → Result (Option (Replacement R))
  visit_function_call none name arguments = ok none
  visit_function_call (some instance_name) name arguments =
      visit_resolved name arguments ((resolve_type instance_name none none false).0)

-- The parent of an integer type, for the test whether its range is dropped.
pub data Parent : Type 0 where
  const_value function cast_node range_node other_parent : Parent

abbrev pub drops_range : Parent → Bool
drops_range other_parent = false
drops_range _ = true

-- An integer type: `setSigned`, and the span, over the ranges of the library.
pub record IntType (G : Type 0) : Type 0 where
  pub is_signed : Bool
  pub span : Option G

-- The ranges of the data declarations and of the type definitions, by their addresses.
pub record Ranges (G : Type 0) : Type 0 where
  pub declarations : ℕ → Option G
  pub type_defs : ℕ → Option G

abbrev pub set_range : {G : Type 0} → ℕ → G → (ℕ → Option G) → ℕ → Option G
set_range d range ranges x = if x == d then some range else ranges x

-- The nearest parents that are a data declaration and a type definition.
pub record Owner : Type 0 where
  pub data_declaration : Option ℕ
  pub type_def : Option ℕ

-- `word` is the range 31 downto 0, and `transform_range_to_span` the library's.
module _ {G : Type 0} (word : G) (transform_range_to_span : G → Bool → Option G)
    (use_int_32 : Bool) where
  abbrev pub span_of : IntType G → Result G
  span_of int_type = elim int_type.span [
    | none ↦ ok word
    | some range ↦
        if use_int_32 then ok word else elim (transform_range_to_span range int_type.is_signed) [
          | none ↦ err (fatal "Cannot trasform span to range")
          | some span ↦ ok span
        ]
  ]

  abbrev pub move_range : Option ℕ → Option ℕ → G → Ranges G → Result (Ranges G)
  move_range (some d) t range ranges = ok (record {
    declarations = set_range d range ranges.declarations;
    type_defs = ranges.type_defs;
  })
  move_range none (some t) range ranges = ok (record {
    declarations = ranges.declarations;
    type_defs = set_range t range ranges.type_defs;
  })
  move_range none none range ranges = err (fatal "Unexpected case")

  abbrev pub place_range : Option G → Parent → Owner → Ranges G → Result (Ranges G)
  place_range none parent owner ranges = ok ranges
  place_range (some range) parent owner ranges =
      if drops_range parent
      then ok ranges
      else move_range owner.data_declaration owner.type_def range ranges

  unfoldable pub visit_int : IntType G → Parent → Owner → Ranges G → Result (IntType G × Ranges G)
  visit_int int_type parent owner ranges = span_of int_type >>= λ span.
      place_range int_type.span parent owner ranges >>= λ ranges.
      ok (record { is_signed = true; span = some span }, ranges)
