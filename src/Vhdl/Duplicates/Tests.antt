-- ===== src/Vhdl/Duplicates/Tests.antt =====
-- Runs on a library with a declaration, another one, and a body of one subprogram.
use hif_frontend.Common.{
  ℕ, ◌≡◌, refl, inl, inr, Bool, true, false, ◌&&◌, Option, none, some, [], ◌∷◌, ◌==◌, arith,
  if◌then◌else◌,
}
use hif_frontend.Common.Outcome.{ok, err}
use hif_frontend.Vhdl.Duplicates.{
  SubProgram, Declaration, sub_program, LibraryDef, cleared, fix_loop, fix_library_def,
}
use hif_frontend.Vhdl.Duplicates.Marks.{agree, removed_marks}
use hif_frontend.Vhdl.Duplicates.Trash.{conflict}
use hif_frontend.Vhdl.Duplicates.Loop.{fix_library_def_lem}
use hif_frontend.Vhdl.Duplicates.Classes.{Survives}
use hif_frontend.Vhdl.Duplicates.Survivors.{fix_library_def-Survives}

abbrev same_body : Option ℕ → Option ℕ → Bool
same_body none none = true
same_body (some b) (some c) = b == c
same_body none (some c) = false
same_body (some b) none = false

-- Signatures and bodies are numbers here.
abbrev same_parts : SubProgram ℕ ℕ → SubProgram ℕ ℕ → Bool
same_parts s t = s.signature == t.signature && same_body s.state_table t.state_table

abbrev declared : ℕ → Declaration ℕ ℕ ℕ
declared f = sub_program (record { signature = f; state_table = none })

abbrev defined : ℕ → SubProgram ℕ ℕ
defined f = record { signature = f; state_table = some 7 }

abbrev three_times : LibraryDef ℕ ℕ ℕ
three_times = record {
  is_standard = false;
  declarations = declared 1 ∷ declared 1 ∷ sub_program (defined 1) ∷ [];
}

-- The first declaration stays beside the body.
two_left :
    fix_library_def same_parts three_times
    ≡ ok (record { is_standard = false; declarations = declared 1 ∷ sub_program (defined 1) ∷ [] })
unfolding fix_library_def fix_loop
two_left = refl

symmetric : (s t : SubProgram ℕ ℕ) → same_parts s t ≡ same_parts t s
symmetric s t = both s.signature t.signature s.state_table t.state_table
  where
    both : (a b : ℕ) (c d : Option ℕ) → (a == b && same_body c d) ≡ (b == a && same_body d c)
    both a b none none = ground arith
    both a b none (some d) = ground arith
    both a b (some c) none = ground arith
    both a b (some c) (some d) = ground arith

transitive :
    (s t u : SubProgram ℕ ℕ) → same_parts s t ≡ true → same_parts t u ≡ true → same_parts s u ≡ true
transitive s t u = all s.signature t.signature u.signature s.state_table t.state_table u.state_table
  where
    all :
        (a b c : ℕ) (x y z : Option ℕ)
        → (a == b && same_body x y) ≡ true
        → (b == c && same_body y z) ≡ true
        → (a == c && same_body x z) ≡ true
    all a b c none none none h k = ground arith
    all a b c none none (some z) h k = ground arith
    all a b c none (some y) z h k = ground arith
    all a b c (some x) none z h k = ground arith
    all a b c (some x) (some y) none h k = ground arith
    all a b c (some x) (some y) (some z) h k = ground arith

reflexive : (s : SubProgram ℕ ℕ) → same_parts s s ≡ true
reflexive s = one s.signature s.state_table
  where
    one : (a : ℕ) (x : Option ℕ) → (a == a && same_body x x) ≡ true
    one a none = ground arith
    one a (some x) = ground arith

fix_library_def_example : fix_library_def same_parts three_times ≡ (
    if agree same_parts three_times.declarations
    then ok
        (cleared three_times.declarations (removed_marks same_parts [] three_times.declarations))
    else err conflict)
fix_library_def_example = fix_library_def_lem same_parts symmetric transitive three_times refl

fix_library_def-Survives_example :
    Survives same_parts (defined 1) true (declared 1 ∷ sub_program (defined 1) ∷ [])
fix_library_def-Survives_example =
    fix_library_def-Survives same_parts symmetric transitive three_times
      (record { is_standard = false; declarations = declared 1 ∷ sub_program (defined 1) ∷ [] })
      (defined 1) reflexive refl two_left (inr (inr (inl refl)))
