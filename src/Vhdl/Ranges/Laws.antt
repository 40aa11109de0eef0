-- ===== src/Vhdl/Ranges/Laws.antt =====
-- The bounds that the attributes of a type give.
use hif_frontend.Common.{
  ◌≡◌, refl, ◌⊎◌, inl, inr, Option, none, some, List, Bytes, codes, text_eq, false,
}
use hif_frontend.Common.Outcome.{ok}
use hif_frontend.Hif.{Value, RangeDirection, dir_upto, dir_downto, HifType}
use hif_frontend.Vhdl.Types.{resolve_type}
use hif_frontend.Vhdl.Ranges.{
  Span, bound, attribute_of, visit_function_call, fix_type_attribute_call,
}

-- The bounds stand in the order that the direction says.
abbrev pub IsDirected :
    {R : Type 0} → (Value R → Value R → Type 0) → Span R → RangeDirection → Type 0
IsDirected le span dir_upto = le span.left span.right
IsDirected le span dir_downto = le span.right span.left

module _ {R : Type 0} (type_get_span : HifType R → Option (Span R))
    (le : Value R → Value R → Type 0) where
  -- For a type mark that resolves to a type with a span, which has a direction and bounds in the order
  -- of the direction, `low` and `high` give the two bounds, the lower one and the upper one, and
  -- `left` and `right` give the same two, in this order or the other one.
  pub visit_function_call_lem :
      (name : Bytes) (arguments : List (Value R)) (t : HifType R) (span : Span R)
      (direction : RangeDirection)
      → (resolve_type name none none false).0 ≡ some t
      → type_get_span t ≡ some span
      → span.direction ≡ some direction
      → IsDirected le span direction
      → (l : Value R) × (h : Value R) × (a : Value R) × (b : Value R) × (visit_function_call
            type_get_span
            (some name)
            (codes "low")
            arguments
          ≡ ok (some (bound l)))
        × (visit_function_call type_get_span (some name) (codes "high") arguments
            ≡ ok (some (bound h)))
        × (visit_function_call type_get_span (some name) (codes "left") arguments
            ≡ ok (some (bound a)))
        × (visit_function_call type_get_span (some name) (codes "right") arguments
            ≡ ok (some (bound b)))
        × le l h
        × (((l ≡ a) × (h ≡ b)) ⊎ ((l ≡ b) × (h ≡ a)))
  unfolding visit_function_call fix_type_attribute_call attribute_of text_eq
  visit_function_call_lem name arguments t span dir_upto resolved spanned directed ordered = (
    span.left,
    span.right,
    span.left,
    span.right,
    rw (resolved, spanned, directed) refl,
    rw (resolved, spanned, directed) refl,
    rw (resolved, spanned, directed) refl,
    rw (resolved, spanned, directed) refl,
    ordered,
    inl (refl, refl),
  )
  visit_function_call_lem name arguments t span dir_downto resolved spanned directed ordered = (
    span.right,
    span.left,
    span.left,
    span.right,
    rw (resolved, spanned, directed) refl,
    rw (resolved, spanned, directed) refl,
    rw (resolved, spanned, directed) refl,
    rw (resolved, spanned, directed) refl,
    ordered,
    inr (refl, refl),
  )
