-- ===== src/Vhdl/Duplicates/Trash.antt =====
-- What is in the trash at each turn of the loop over the declarations.
use hif_frontend.Common.{
  or_false, ℕ, suc, ◌≡◌, refl, sym, ◌∙◌, inl, inr, Bool, true, false, ◌||◌, Option, none, some,
  List, [], ◌∷◌, ◌++◌, if◌then◌else◌, Bool-cases,
}
use mathlib.Core.Path.{subst}
use hif_frontend.Common.Outcome.{Error, ok, err, fatal, ◌>>=◌}
use hif_frontend.Vhdl.Duplicates.{
  SubProgram, Declaration, sub_program, other_declaration, is_some, insert_trash,
  without_state_table, next_place, has_same_signature, find_same,
}
use hif_frontend.Vhdl.Duplicates.Marks.{nearest, replaces, removed_by_prior, IsSymmetric, Classes}

abbrev pub unless_found : {A : Type 0} → Option A → Bool → Bool
unless_found none b = b
unless_found (some t) b = false

unless_found_if :
    {A : Type 0} (c : Bool) (a : A) (b : Bool)
    → unless_found (if c then some a else none) b ≡ (if c then false else b)
unless_found_if true a b = refl
unless_found_if false a b = refl

hidden :
    {A : Type 0} (o : Option A) (b c : Bool)
    → is_some o ≡ true
    → unless_found o b ≡ unless_found o c
hidden none b c h = cc
hidden (some a) b c h = refl

-- The place behind which the subprogram is marked, and the trash after one step.
abbrev pub marked :
    {S B : Type 0} → SubProgram S B → Option (ℕ × SubProgram S B) → (ℕ → Bool) → ℕ → Bool
marked s none trash = trash
marked s (some (j, t)) trash = if replaces s t then insert_trash j trash else trash

abbrev pub after :
    {S B : Type 0} → SubProgram S B → Option (ℕ × SubProgram S B) → (ℕ → Bool) → ℕ → Bool
after s none trash = trash
after s (some (j, t)) trash =
    if replaces s t then insert_trash (suc j) trash else insert_trash 0 trash

abbrev pub second : {A : Type 0} → Option (ℕ × A) → Option A
second none = none
second (some (j, a)) = some a

abbrev pub conflict : Error
conflict = fatal "Found different subprograms with conflicting declaration"

pub joined :
    (m : Bool) (ms : List Bool) (b : Bool)
    → ((if b then ok ms else err conflict) >>= λ ms. ok (m ∷ ms))
      ≡ (if b then ok (m ∷ ms) else err conflict)
joined m ms true = refl
joined m ms false = refl

module _ {S B : Type 0} where
  shift_marked :
      (s : SubProgram S B) (o : Option (ℕ × SubProgram S B)) (trash : ℕ → Bool)
      → ◌≡◌ {A = ℕ → Bool}
          (λ k. marked s (next_place o) trash (suc k))
          (marked s o (λ k. trash (suc k)))
  shift_marked s none trash = refl
  shift_marked s (some (j, t)) trash = go (replaces s t)
    where
      go :
          (b : Bool)
          → ◌≡◌ {A = ℕ → Bool}
              (λ k. (if b then insert_trash (suc j) trash else trash) (suc k))
              (if b then insert_trash j (λ k. trash (suc k)) else λ k. trash (suc k))
      go true = refl
      go false = refl

  marked_here :
      (s : SubProgram S B) (o : Option (ℕ × SubProgram S B)) (trash : ℕ → Bool)
      → marked s (next_place o) trash 0 ≡ trash 0
  marked_here s none trash = refl
  marked_here s (some (j, t)) trash = elim (Bool-cases (replaces s t)) [
    | inl e ↦ rw e refl
    | inr e ↦ rw e refl
  ]

  marked_first :
      (s t : SubProgram S B) (trash : ℕ → Bool)
      → marked s (some (0, t)) trash 0 ≡ (replaces s t || trash 0)
  marked_first s t trash = elim (Bool-cases (replaces s t)) [
    | inl e ↦ rw e refl
    | inr e ↦ rw e refl
  ]

  shift_first :
      (s t : SubProgram S B) (trash : ℕ → Bool)
      → ◌≡◌ {A = ℕ → Bool} (λ k. marked s (some (0, t)) trash (suc k)) (λ k. trash (suc k))
  shift_first s t trash = go (replaces s t)
    where
      go :
          (b : Bool)
          → ◌≡◌ {A = ℕ → Bool}
              (λ k. (if b then insert_trash 0 trash else trash) (suc k))
              (λ k. trash (suc k))
      go true = refl
      go false = refl

module _ {D S B : Type 0} (equals : SubProgram S B → SubProgram S B → Bool)
    (symmetric : IsSymmetric equals) (same : Classes equals) where
  pub nearest_same :
      (s t : SubProgram S B) (ds : List (Declaration D S B))
      → has_same_signature equals s t ≡ true
      → nearest equals s ds ≡ nearest equals t ds
  nearest_same s t [] h = refl
  nearest_same s t (other_declaration d ∷ ds) h = nearest_same s t ds h
  nearest_same s t (sub_program u ∷ ds) h = rw (same s t u h, nearest_same s t ds h) refl

  -- What is in the trash when the loop is at `ds`: `p` lies between, and `q` is done.
  abbrev pub Matches :
      (SubProgram S B → Bool)
      → List (Declaration D S B)
      → List (Declaration D S B)
      → (ℕ → Bool)
      → Type 0
  Matches by_done p [] trash = Unit
  Matches by_done p (other_declaration d ∷ ds) trash =
      (trash 0 ≡ false) × Matches by_done p ds (λ k. trash (suc k))
  Matches by_done p (sub_program s ∷ ds) trash =
      (trash 0 ≡ unless_found (nearest equals s p) (by_done s))
      × Matches by_done (sub_program s ∷ p) ds (λ k. trash (suc k))

  pub drop_between :
      (q : List (Declaration D S B)) (s : SubProgram S B) (p ds : List (Declaration D S B))
      (trash : ℕ → Bool)
      → Matches (λ t. removed_by_prior equals t q) (p ++ (sub_program s ∷ [])) ds trash
      → Matches
          (λ t. if has_same_signature equals t s then false else removed_by_prior equals t q)
          p
          ds
          trash
  drop_between q s p [] trash h = tt
  drop_between q s p (other_declaration d ∷ ds) trash (h, hs) =
      (h, drop_between q s p ds (λ k. trash (suc k)) hs)
  drop_between q s p (sub_program t ∷ ds) trash (h, hs) =
      (h ∙ between p, drop_between q s (sub_program t ∷ p) ds (λ k. trash (suc k)) hs)
    where
      between :
          (p : List (Declaration D S B))
          → unless_found
              (nearest equals t (p ++ (sub_program s ∷ [])))
              (removed_by_prior equals t q)
            ≡ unless_found
                (nearest equals t p)
                (if has_same_signature equals t s then false else removed_by_prior equals t q)
      between [] = unless_found_if (has_same_signature equals t s) s (removed_by_prior equals t q)
      between (other_declaration d ∷ p) = between p
      between (sub_program u ∷ p) = elim (Bool-cases (has_same_signature equals t u)) [
        | inl e ↦ rw e refl
        | inr e ↦ rw e (between p)
      ]

  -- Behind a subprogram of its signature, `s` marks no other.
  seen :
      (q : List (Declaration D S B)) (s : SubProgram S B) (p ds : List (Declaration D S B))
      (trash : ℕ → Bool)
      → is_some (nearest equals s p) ≡ true
      → Matches
          (λ t. if has_same_signature equals t s then false else removed_by_prior equals t q)
          p
          ds
          trash
      → Matches (λ t. removed_by_prior equals t (sub_program s ∷ q)) p ds trash
  seen q s p [] trash found h = tt
  seen q s p (other_declaration d ∷ ds) trash found (h, hs) =
      (h, seen q s p ds (λ k. trash (suc k)) found hs)
  seen q s p (sub_program t ∷ ds) trash found (h, hs) =
      (h ∙ here, seen q s (sub_program t ∷ p) ds (λ k. trash (suc k)) still hs)
    where
      here :
          unless_found
            (nearest equals t p)
            (if has_same_signature equals t s then false else removed_by_prior equals t q)
          ≡ unless_found (nearest equals t p) (removed_by_prior equals t (sub_program s ∷ q))
      here = elim (Bool-cases (has_same_signature equals t s)) [
        | inl e ↦
            rw (e, nearest_same t s p e) (hidden (nearest equals s p) false (replaces s t) found)
        | inr e ↦ rw e refl
      ]

      still : is_some (nearest equals s (sub_program t ∷ p)) ≡ true
      still = elim (Bool-cases (has_same_signature equals s t)) [
        | inl e ↦ rw e refl
        | inr e ↦ rw e found
      ]

  -- The next subprogram of its signature is the one that `s` marks.
  pub unseen :
      (q : List (Declaration D S B)) (s : SubProgram S B) (p ds : List (Declaration D S B))
      (trash : ℕ → Bool)
      → nearest equals s p ≡ none
      → Matches
          (λ t. if has_same_signature equals t s then false else removed_by_prior equals t q)
          p
          ds
          trash
      → Matches
          (λ t. removed_by_prior equals t (sub_program s ∷ q))
          p
          ds
          (marked s (find_same equals s ds) trash)
  unseen q s p [] trash found h = tt
  unseen q s p (other_declaration d ∷ ds) trash found (h, hs) = (
    marked_here s (find_same equals s ds) trash ∙ h,
    subst (Matches (λ t. removed_by_prior equals t (sub_program s ∷ q)) p ds)
        (sym (shift_marked s (find_same equals s ds) trash))
        (unseen q s p ds (λ k. trash (suc k)) found hs),
  )
  unseen q s p (sub_program t ∷ ds) trash found (h, hs) =
      elim (Bool-cases (has_same_signature equals s t)) [
        | inl e ↦ first e (symmetric (without_state_table t) (without_state_table s) ∙ e)
        | inr e ↦
            other e (symmetric (without_state_table t) (without_state_table s) ∙ e)
              (unseen q s (sub_program t ∷ p) ds (λ k. trash (suc k)) (rw e found) hs)
      ]
    where
      clear : has_same_signature equals t s ≡ true → trash 0 ≡ false
      clear e' = h ∙ rw (e', nearest_same t s p e', found) refl

      first :
          has_same_signature equals s t ≡ true
          → has_same_signature equals t s ≡ true
          → Matches
              (λ t. removed_by_prior equals t (sub_program s ∷ q))
              p
              (sub_program t ∷ ds)
              (marked s (find_same equals s (sub_program t ∷ ds)) trash)
      first e e' = rw e (
        rw (e', nearest_same t s p e', found)
            (marked_first s t trash ∙ rw (clear e') (or_false (replaces s t))),
        subst (Matches (λ t. removed_by_prior equals t (sub_program s ∷ q)) (sub_program t ∷ p) ds)
            (sym (shift_first s t trash))
            (seen q s (sub_program t ∷ p) ds (λ k. trash (suc k)) (rw e refl) hs),
      )

      other :
          has_same_signature equals s t ≡ false
          → has_same_signature equals t s ≡ false
          → Matches
              (λ t. removed_by_prior equals t (sub_program s ∷ q))
              (sub_program t ∷ p)
              ds
              (marked s (find_same equals s ds) (λ k. trash (suc k)))
          → Matches
              (λ t. removed_by_prior equals t (sub_program s ∷ q))
              p
              (sub_program t ∷ ds)
              (marked s (find_same equals s (sub_program t ∷ ds)) trash)
      other e e' rest = rw e (
        marked_here s (find_same equals s ds) trash ∙ h ∙ rw e' refl,
        subst (Matches (λ t. removed_by_prior equals t (sub_program s ∷ q)) (sub_program t ∷ p) ds)
            (sym (shift_marked s (find_same equals s ds) trash)) rest,
      )
