-- ===== src/Vhdl/Duplicates.antt =====
-- `_hasSameSignagure` and `_fixSubProgramsDeclarations` of
-- src/vhdl2hif/PostParsingVisitor_fixRanges.cpp: of the subprograms with the same signature, those
-- that are removed. The state table of a subprogram is its body.
pub mod Marks
pub mod Trash
pub mod Loop
pub mod Classes
pub mod Survivors
mod Tests
use hif_frontend.Common.{
  ℕ, zero, suc, Bool, true, false, Option, none, some, List, [], ◌∷◌, if◌then◌else◌,
}
use hif_frontend.Common.Outcome.{Result, ok, ◌>>=◌, ◌>>◌, message_assert}

pub record SubProgram (S B : Type 0) : Type 0 where
  pub signature : S
  pub state_table : Option B

pub data Declaration (D S B : Type 0) : Type 0 where
  sub_program : SubProgram S B → Declaration D S B
  other_declaration : D → Declaration D S B

pub record LibraryDef (D S B : Type 0) : Type 0 where
  pub is_standard : Bool
  pub declarations : List (Declaration D S B)

abbrev pub is_some : {B : Type 0} → Option B → Bool
is_some none = false
is_some (some body) = true

abbrev pub has_body : {S B : Type 0} → SubProgram S B → Bool
has_body sub = is_some sub.state_table

-- `trash.insert` of the declaration at a place: the trash says which declarations are in it, counted
-- from the one where the loop is.
abbrev pub insert_trash : ℕ → (ℕ → Bool) → ℕ → Bool
insert_trash zero trash zero = true
insert_trash zero trash (suc k) = trash (suc k)
insert_trash (suc j) trash zero = trash zero
insert_trash (suc j) trash (suc k) = insert_trash j (λ i. trash (suc i)) k

-- `setStateTable(nullptr)`.
abbrev pub without_state_table : {S B : Type 0} → SubProgram S B → SubProgram S B
without_state_table sub = record { signature = sub.signature; state_table = none }

-- `trash.clear()`, with the marks of all declarations.
abbrev pub remaining :
    {D S B : Type 0} → List (Declaration D S B) → List Bool → List (Declaration D S B)
remaining [] marks = []
remaining (d ∷ ds) [] = d ∷ ds
remaining (d ∷ ds) (m ∷ marks) = if m then remaining ds marks else d ∷ remaining ds marks

abbrev pub cleared : {D S B : Type 0} → List (Declaration D S B) → List Bool → LibraryDef D S B
cleared ds marks = record { is_standard = false; declarations = remaining ds marks }

abbrev pub next_place : {A : Type 0} → Option (ℕ × A) → Option (ℕ × A)
next_place none = none
next_place (some (j, a)) = some (suc j, a)

-- `equals` is the library's comparison.
-- What is put in the trash, the subprogram at hand being at place 0: of the two, which have a body
-- and which may be equal.
abbrev pub throw_one : (first second equal : Bool) → ℕ → (ℕ → Bool) → Result (ℕ → Bool)
throw_one true true equal j trash = do
  message_assert equal "Found different subprograms with conflicting declaration"
  ok (insert_trash (suc j) trash)
throw_one false false equal j trash = do
  message_assert equal "Found different subprograms with conflicting declaration"
  ok (insert_trash (suc j) trash)
throw_one true false equal j trash = ok (insert_trash (suc j) trash)
throw_one false true equal j trash = ok (insert_trash 0 trash)

module _ {S B : Type 0} (equals : SubProgram S B → SubProgram S B → Bool) where
  abbrev pub has_same_signature : SubProgram S B → SubProgram S B → Bool
  has_same_signature s t = equals (without_state_table s) (without_state_table t)

  abbrev pub throw : SubProgram S B → Option (ℕ × SubProgram S B) → (ℕ → Bool) → Result (ℕ → Bool)
  throw s none trash = ok trash
  throw s (some (j, t)) trash = throw_one (has_body s) (has_body t) (equals s t) j trash

-- `equals` is the library's comparison.
module _ {D S B : Type 0} (equals : SubProgram S B → SubProgram S B → Bool) where
  -- The inner loop: the first subprogram behind with the same signature, and its place.
  abbrev pub find_same : SubProgram S B → List (Declaration D S B) → Option (ℕ × SubProgram S B)
  find_same s [] = none
  find_same s (other_declaration d ∷ ds) = next_place (find_same s ds)
  find_same s (sub_program t ∷ ds) =
      let rest = find_same s ds in
      if has_same_signature equals s t then some (0, t) else next_place rest

  -- The outer loop: the marks of the declarations that are in the trash at the end.
  unfoldable pub fix_loop : List (Declaration D S B) → (ℕ → Bool) → Result (List Bool)
  fix_loop [] trash = ok []
  fix_loop (other_declaration d ∷ ds) trash =
      fix_loop ds (λ k. trash (suc k)) >>= λ marks. ok (trash 0 ∷ marks)
  fix_loop (sub_program s ∷ ds) trash = throw equals s (find_same s ds) trash >>= λ trash.
      fix_loop ds (λ k. trash (suc k)) >>= λ marks. ok (trash 0 ∷ marks)

  unfoldable pub fix_library_def : LibraryDef D S B → Result (LibraryDef D S B)
  unfolding fix_loop
  fix_library_def library =
      if library.is_standard
      then ok library
      else fix_loop library.declarations (λ k. false) >>= λ marks.
          ok (cleared library.declarations marks)

  unfoldable pub fix_sub_programs_declarations :
      List (LibraryDef D S B) → Result (List (LibraryDef D S B))
  unfolding fix_library_def
  fix_sub_programs_declarations [] = ok []
  fix_sub_programs_declarations (library ∷ libraries) = fix_library_def library >>= λ library.
      fix_sub_programs_declarations libraries >>= λ libraries. ok (library ∷ libraries)
