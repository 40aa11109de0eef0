-- ===== src/Common/Text.antt =====
-- What the sources use of C and C++ strings: searching, cutting, `tolower`, `atoi`.
use hif_frontend.Common.{
  ℕ, zero, suc, ◌+◌, ◌-◌, ◌*◌, ◌≡◌, ◌≢◌, ◌≤◌, refl, ◌⊎◌, inl, inr, Bool, true, false, not, ◌&&◌,
  ◌||◌, Option, none, some, [], ◌∷◌, ◌++◌, arith, Bytes, leb, ◌==◌, if◌then◌else◌, length, take,
  drop, keep, All,
}
use mathlib.Core.Option
use hif_frontend.Common.Int.{ℤ, pos, ◌-ℤ◌}
use hif_frontend.Common.Outcome.{Result, ok, checked, checked-ok, int_max}

-- `s.find_first_of(c)`, `none` for `npos`.
unfoldable pub find : ℕ → Bytes → Option ℕ
find c [] = none
find c (a ∷ s) = if a == c then some 0 else Option.map suc (find c s)

-- The last place at which a test holds: `s.find_last_of("…")`.
unfoldable pub find_last : (ℕ → Bool) → Bytes → Option ℕ
find_last p [] = none
find_last p (a ∷ s) = elim (find_last p s) [
  | some i ↦ some (suc i)
  | none ↦ if p a then some 0 else none
]

-- `s.erase(i, 1)`.
unfoldable pub erase : Bytes → ℕ → Bytes
erase [] i = []
erase (a ∷ s) zero = s
erase (a ∷ s) (suc i) = a ∷ erase s i

-- `s.substr(0, i)` for a place `i` that a search returned, `npos` included.
abbrev pub substr_before : Option ℕ → Bytes → Bytes
substr_before none s = s
substr_before (some i) s = take i s

-- `s.substr(i + 1)`; `npos + 1` is 0.
abbrev pub substr_after : Option ℕ → Bytes → Bytes
substr_after none s = s
substr_after (some i) s = drop (i + 1) s

-- `tolower` and `toupper` of the C locale.
unfoldable pub tolower : ℕ → ℕ
tolower c = if leb b'A' c && leb c b'Z' then c + 32 else c

unfoldable pub toupper : ℕ → ℕ
toupper c = if leb b'a' c && leb c b'z' then c - 32 else c

abbrev pub is_digit : ℕ → Bool
is_digit c = leb b'0' c && leb c b'9'

-- `isspace`.
abbrev is_space : ℕ → Bool
is_space c = c == 32 || leb 9 c && leb c 13

unfoldable pub leading_value : ℕ → Bytes → ℕ
leading_value n [] = n
leading_value n (c ∷ s) = if is_digit c then leading_value (n * 10 + (c - b'0')) s else n

drop_space : Bytes → Bytes
drop_space [] = []
drop_space (c ∷ s) = if is_space c then drop_space s else c ∷ s

signed_value : Bytes → ℤ
unfolding leading_value ◌-ℤ◌
signed_value [] = pos 0
signed_value (c ∷ s) =
    if c == b'-'
    then pos 0 -ℤ pos (leading_value 0 s)
    else if c == b'+'
    then pos (leading_value 0 s)
    else pos (leading_value 0 (c ∷ s))

-- `atoi`: blanks, a sign, digits; what follows is left. It is undefined out of range.
unfoldable pub atoi : Bytes → Result ℤ
unfolding signed_value drop_space checked
atoi s = checked (signed_value (drop_space s))

pub atoi_bounds : (s : Bytes) (n : ℕ) → atoi s ≡ ok (pos n) → n ≤ int_max
unfolding atoi
atoi_bounds s n h = (checked-ok (signed_value (drop_space s)) n h).1

-- A text that starts with a digit has no blanks and no sign.
pub atoi_digit :
    (c : ℕ) (s : Bytes) → is_digit c ≡ true → atoi (c ∷ s) ≡ checked (pos (leading_value 0 (c ∷ s)))
unfolding signed_value drop_space atoi leading_value
atoi_digit c s h = ground arith

pub tolower-toupper : (c : ℕ) → tolower (toupper c) ≡ tolower c
unfolding tolower toupper
tolower-toupper c = ground arith

pub tolower_idem : (c : ℕ) → tolower (tolower c) ≡ tolower c
unfolding tolower
tolower_idem c = ground arith

module _ (c : ℕ) where
  abbrev pub other : ℕ → Bool
  other a = not (a == c)

  pub keep_of_find_none : (s : Bytes) → find c s ≡ none → keep other s ≡ s
  unfolding find
  keep_of_find_none [] h = refl
  keep_of_find_none (a ∷ s) h = elim (find_cases (find c s) refl) [
    | inl e ↦ ground (arith, keep_of_find_none s e)
    | inr (i, e) ↦ ground arith
  ]
    where
      find_cases :
          (o : Option ℕ) → find c s ≡ o → (find c s ≡ none) ⊎ ((i : ℕ) × (find c s ≡ some i))
      find_cases none e = inl e
      find_cases (some i) e = inr (i, e)

  -- Erasing the character that a search finds leaves the others.
  pub keep-erase :
      (s : Bytes) (i : ℕ)
      → find c s ≡ some i
      → (keep other (erase s i) ≡ keep other s) × (suc (length (erase s i)) ≡ length s)
  unfolding find erase
  keep-erase [] i h = ground arith
  keep-erase (a ∷ s) zero h = ground arith
  keep-erase (a ∷ s) (suc i) h = ground (arith, keep-erase s i)

  pub find-keep : (s : Bytes) → find c (keep other s) ≡ none
  unfolding find
  find-keep [] = refl
  find-keep (a ∷ s) = ground (arith, find-keep s)

  -- A text that lacks a character is what stands before it.
  pub find-append : (s t : Bytes) → All (λ a. a ≢ c) s → find c (s ++ c ∷ t) ≡ some (length s)
  unfolding find
  find-append [] t h = ground arith
  find-append (a ∷ s) t (ha, hs) = rw (find-append s t hs) (ground arith)

module _ (p : ℕ → Bool) where
  abbrev pub Fails : ℕ → Type 0
  Fails a = p a ≡ false

  find_last_none : (t : Bytes) → All Fails t → find_last p t ≡ none
  unfolding find_last
  find_last_none [] h = refl
  find_last_none (a ∷ t) (ha, ht) = rw (find_last_none t ht, ha)

  find_last-append :
      (s t : Bytes) (c : ℕ) → p c ≡ true → All Fails t → find_last p (s ++ c ∷ t) ≡ some (length s)
  unfolding find_last
  find_last-append [] t c h ht = rw (find_last_none t ht, h)
  find_last-append (a ∷ s) t c h ht = rw (find_last-append s t c h ht)

pub take-append : (s t : Bytes) → take (length s) (s ++ t) ≡ s
take-append [] t = refl
take-append (a ∷ s) t = rw (take-append s t)

drop-append_cons : (s t : Bytes) (c : ℕ) → drop (length s + 1) (s ++ c ∷ t) ≡ t
drop-append_cons [] t c = refl
drop-append_cons (a ∷ s) t c = rw (add_suc_one (length s)) (drop-append_cons s t c)
  where
    add_suc_one : (n : ℕ) → suc n + 1 ≡ suc (n + 1)
    add_suc_one n = omega arith

-- The parts before and behind a character.
pub before-append :
    (c : ℕ) (s t : Bytes)
    → All (λ a. a ≢ c) s
    → substr_before (find c (s ++ c ∷ t)) (s ++ c ∷ t) ≡ s
before-append c s t h = rw (find-append c s t h) (take-append s (c ∷ t))

pub after-append :
    (c : ℕ) (s t : Bytes) → All (λ a. a ≢ c) s → substr_after (find c (s ++ c ∷ t)) (s ++ c ∷ t) ≡ t
after-append c s t h = rw (find-append c s t h) (drop-append_cons s t c)

pub after_last-append :
    (p : ℕ → Bool) (s t : Bytes) (c : ℕ)
    → p c ≡ true
    → All (Fails p) t
    → substr_after (find_last p (s ++ c ∷ t)) (s ++ c ∷ t) ≡ t
after_last-append p s t c h ht = rw (find_last-append p s t c h ht) (drop-append_cons s t c)
