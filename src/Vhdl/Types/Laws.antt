-- ===== src/Vhdl/Types/Laws.antt =====
-- What `resolveType` returns.
use hif_frontend.Common.{
  ◌≡◌, refl, ◌↔◌, Bool, true, false, ◌||◌, Option, none, some, List, [], ◌∷◌, map, arith, Bytes,
  codes, text_eq, ap,
}
use mathlib.Core.Option
use hif_frontend.Hif.{Value, Range, HifType, array, bitvector}
use hif_frontend.Common.Text.{tolower}
use hif_frontend.Vhdl.Text.{string_to_lower, string_to_upper}
use hif_frontend.Vhdl.Text.Laws.{lower-upper}
use hif_frontend.Vhdl.Types.{
  TypeMark, other_mark, type_mark, type_of_mark, resolve_type, vector_type, vector_of, vector_span,
  reference_type,
}

-- A type mark may be written in capitals: the type and the arguments left are the same.
pub resolve_type-string_to_upper :
    {R : Type 0} (type_ref : Bytes) (args : Option (List (Value R))) (ro : Option (Range R))
    (mandatory : Bool)
    → resolve_type (string_to_upper type_ref) args ro mandatory
      ≡ resolve_type type_ref args ro mandatory
unfolding resolve_type
resolve_type-string_to_upper type_ref args ro mandatory = rw (lower-upper type_ref)

-- The names that have a type of their own.
abbrev pub known_types : List Bytes
known_types =
    codes "bit"
    ∷ codes "integer"
    ∷ codes "natural"
    ∷ codes "positive"
    ∷ codes "boolean"
    ∷ codes "time"
    ∷ codes "bit_vector"
    ∷ codes "std_logic_vector"
    ∷ codes "std_ulogic_vector"
    ∷ codes "std_logic"
    ∷ codes "std_ulogic"
    ∷ codes "unsigned"
    ∷ codes "signed"
    ∷ codes "string"
    ∷ codes "x01"
    ∷ codes "character"
    ∷ codes "real"
    ∷ []

abbrev pub member : Bytes → List Bytes → Bool
member s [] = false
member s (t ∷ ts) = text_eq s t || member s ts

type_mark-member : (s : Bytes) → (type_mark s ≡ other_mark) ↔ (member s known_types ≡ false)
unfolding type_mark
type_mark-member s = (λ h. ground arith, λ h. ground arith)

unknown_mark :
    {R : Type 0} (mark : TypeMark) (s : Bytes) (args : Option (List (Value R)))
    (ro : Option (Range R))
    → (type_of_mark mark s args ro false ≡ none) ↔ (mark ≡ other_mark)
unfolding type_of_mark
unknown_mark mark s args ro = (λ h. ground arith, λ h. ground arith)

-- When no type is demanded, there is none exactly for a name that, in lower case, is not one of the
-- seventeen known types.
pub resolve_type_none :
    {R : Type 0} (name : Bytes) (args : Option (List (Value R))) (ro : Option (Range R))
    → ((resolve_type name args ro false).0 ≡ none)
      ↔ (member (string_to_lower name) known_types ≡ false)
unfolding resolve_type
resolve_type_none name args ro =
    let lower = string_to_lower name in
    let (known, unknown) = type_mark-member lower in
    let (there, back) = unknown_mark (type_mark lower) lower args ro in
    (λ h. known (there h), λ h. back (unknown h))

abbrev pub or_else : {A : Type 0} → Option A → A → A
or_else none b = b
or_else (some a) b = a

demanded :
    {R : Type 0} (mark : TypeMark) (s : Bytes) (args : Option (List (Value R)))
    (ro : Option (Range R))
    → type_of_mark mark s args ro true
      ≡ some (or_else (type_of_mark mark s args ro false) (reference_type s args))
unfolding type_of_mark
demanded mark s args ro = ground arith

-- When a type is demanded there always is one: that of the call that demands none, or else a
-- reference to the name in lower case with the ranges among the arguments.
pub resolve_type_mandatory :
    {R : Type 0} (name : Bytes) (args : Option (List (Value R))) (ro : Option (Range R))
    → (resolve_type name args ro true).0
      ≡ some
          (or_else (resolve_type name args ro false).0 (reference_type (string_to_lower name) args))
unfolding resolve_type
resolve_type_mandatory name args ro =
    demanded (type_mark (string_to_lower name)) (string_to_lower name) args ro

-- The vector types, with their `logic` and `resolved` flags.
pub data Vector : Bytes → Bool → Bool → Type 0 where
  bit_vector : Vector (codes "bit_vector") false false
  std_logic_vector : Vector (codes "std_logic_vector") true true
  std_ulogic_vector : Vector (codes "std_ulogic_vector") true false

-- The spans of an array of vectors, outermost first, and the flags of its vector.
abbrev pub spans : {R : Type 0} → HifType R → List (Range R)
spans (array s t) = s ∷ spans t
spans (bitvector _ _ s) = s ∷ []
spans _ = []

abbrev pub flags : {R : Type 0} → HifType R → Option (Bool × Bool)
flags (array s t) = flags t
flags (bitvector logic resolved _) = some (logic, resolved)
flags _ = none

spans-vector_of :
    {R : Type 0} (logic resolved : Bool) (v : Value R) (vs : List (Value R))
    → (spans (vector_of logic resolved v vs) ≡ map vector_span (v ∷ vs))
      × (flags (vector_of logic resolved v vs) ≡ some (logic, resolved))
unfolding vector_of
spans-vector_of logic resolved v [] = (refl, refl)
spans-vector_of logic resolved v (w ∷ vs) =
    let (e, e') = spans-vector_of logic resolved w vs in (ap (◌∷◌ (vector_span v)) e, e')

resolve-Vector :
    {R : Type 0} {name : Bytes} {logic resolved : Bool}
    → Vector name logic resolved
    → (v : Value R) (vs : List (Value R)) (ro : Option (Range R)) (mandatory : Bool)
    → resolve_type name (some (v ∷ vs)) ro mandatory
      ≡ (some (vector_of logic resolved v vs), some [])
unfolding resolve_type vector_type tolower
resolve-Vector bit_vector v vs ro mandatory = refl
resolve-Vector std_logic_vector v vs ro mandatory = refl
resolve-Vector std_ulogic_vector v vs ro mandatory = refl

-- A vector type with arguments is an array with one dimension for each argument, in their order,
-- around a vector with the flags of the type. It takes all arguments.
pub resolve_type-Vector :
    {R : Type 0} {name : Bytes} {logic resolved : Bool}
    → Vector name logic resolved
    → (v : Value R) (vs : List (Value R)) (ro : Option (Range R)) (mandatory : Bool)
    → let (type, left) = resolve_type name (some (v ∷ vs)) ro mandatory in
      (Option.map spans type ≡ some (map vector_span (v ∷ vs)))
      × (Option.map flags type ≡ some (some (logic, resolved)))
      × (left ≡ some [])
resolve_type-Vector {logic = logic} {resolved = resolved} b v vs ro mandatory =
    let (e, e') = spans-vector_of logic resolved v vs in
    rw (resolve-Vector b v vs ro mandatory) (ap some e, ap some e', refl)
