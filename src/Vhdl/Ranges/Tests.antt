-- ===== src/Vhdl/Ranges/Tests.antt =====
-- A run of the attributes of `natural`, with a span from 0 to 7.
use hif_frontend.Common.{ℕ, ◌≤◌, ◌≡◌, refl, ◌⊎◌, Option, none, some, [], codes, arith, text_eq}
use hif_frontend.Common.Int.{pos}
use hif_frontend.Common.Outcome.{ok}
use hif_frontend.Common.Text.{tolower}
use hif_frontend.Vhdl.Text.{string_to_lower}
use hif_frontend.Hif.{Value, int_value, dir_upto, HifType}
use hif_frontend.Vhdl.Types.{resolve_type, type_mark, type_of_mark, natural_type}
use hif_frontend.Vhdl.Ranges.{Span, bound, visit_function_call}
use hif_frontend.Vhdl.Ranges.Laws.{visit_function_call_lem}

abbrev to_seven : Span ℕ
to_seven = record { left = int_value (pos 0); direction = some dir_upto; right = int_value (pos 7) }

abbrev span_to_seven : HifType ℕ → Option (Span ℕ)
span_to_seven t = some to_seven

abbrev IntLe : Value ℕ → Value ℕ → Type 0
IntLe (int_value (pos m)) (int_value (pos n)) = m ≤ n
IntLe v w = ⊥

visit_function_call_example :
    (l : Value ℕ) × (h : Value ℕ) × (a : Value ℕ) × (b : Value ℕ) × (visit_function_call
        span_to_seven
        (some (codes "natural"))
        (codes "low")
        []
      ≡ ok (some (bound l)))
    × (visit_function_call span_to_seven (some (codes "natural")) (codes "high") []
        ≡ ok (some (bound h)))
    × (visit_function_call span_to_seven (some (codes "natural")) (codes "left") []
        ≡ ok (some (bound a)))
    × (visit_function_call span_to_seven (some (codes "natural")) (codes "right") []
        ≡ ok (some (bound b)))
    × IntLe l h
    × (((l ≡ a) × (h ≡ b)) ⊎ ((l ≡ b) × (h ≡ a)))
unfolding resolve_type type_mark type_of_mark string_to_lower tolower text_eq
visit_function_call_example =
    visit_function_call_lem span_to_seven IntLe (codes "natural") []
      (natural_type (pos 0) none none) to_seven dir_upto refl refl refl (omega arith)
