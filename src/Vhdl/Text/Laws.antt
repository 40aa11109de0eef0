-- ===== src/Vhdl/Text/Laws.antt =====
-- The loops that clean a token end by their test, and remove exactly one character.
use hif_frontend.Common.{
  ℕ, zero, suc, ◌≤◌, ◌≡◌, refl, inl, inr, none, [], ◌∷◌, ◌∙◌, sym, arith, Bytes, length, keep,
  Option-cases,
}
use hif_frontend.Common.Text.{
  find, erase, other, keep_of_find_none, keep-erase, find-keep, tolower-toupper,
}
use hif_frontend.Vhdl.Text.{erase_loop, erase_all, string_to_lower, string_to_upper}

erase_loop-keep :
    (fuel c : ℕ) (s : Bytes) → length s ≤ fuel → erase_loop fuel c s ≡ keep (other c) s
unfolding erase_loop
erase_loop-keep zero c [] h = refl
erase_loop-keep zero c (a ∷ s) h = absurd (omega arith)
erase_loop-keep (suc fuel) c s h = elim (Option-cases (find c s)) [
  | inl e ↦ rw (e, erase_loop) (sym (keep_of_find_none c s e))
  | inr (i, e) ↦
      let (kept, shorter) = keep-erase c s i e in
      rw (e, erase_loop) (erase_loop-keep fuel c (erase s i) (omega arith) ∙ kept)
]

pub erase_all-keep : (c : ℕ) (s : Bytes) → erase_all c s ≡ keep (other c) s
unfolding erase_all
erase_all-keep c s = erase_loop-keep (length s) c s (omega arith)

pub find-erase_all : (c : ℕ) (s : Bytes) → find c (erase_all c s) ≡ none
find-erase_all c s = rw (erase_all-keep c s) (find-keep c s)

pub lower-upper : (s : Bytes) → string_to_lower (string_to_upper s) ≡ string_to_lower s
unfolding string_to_lower string_to_upper
lower-upper [] = refl
lower-upper (a ∷ s) = cc (tolower-toupper a, lower-upper s)
