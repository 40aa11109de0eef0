-- ===== src/Common/Search.antt =====
-- `std::string::find` of a text.
use hif_frontend.Common.{
  ℕ, suc, ◌≤◌, ◌≡◌, refl, ap, ◌∙◌, Bool, true, false, ◌&&◌, ◌==◌, ==_iff, Option, none, some, [],
  ◌∷◌, ◌++◌, length, arith, Bool-cases, inl, inr, Bytes, if◌then◌else◌,
}

-- `s` starts with `pattern`.
abbrev pub starts_with : (pattern s : Bytes) → Bool
starts_with [] s = true
starts_with (c ∷ pattern) [] = false
starts_with (c ∷ pattern) (d ∷ s) = c == d && starts_with pattern s

abbrev pub next_index : Option ℕ → Option ℕ
next_index none = none
next_index (some n) = some (suc n)

-- `s.find(pattern)`: the first place where the pattern stands.
unfoldable pub find_text : (pattern s : Bytes) → Option ℕ
find_text pattern [] = if starts_with pattern [] then some 0 else none
find_text pattern (c ∷ s) =
    let rest = find_text pattern s in
    if starts_with pattern (c ∷ s) then some 0 else next_index rest

-- Where the pattern stands there is its text.
starts_with-eq :
    (pattern s : Bytes) → starts_with pattern s ≡ true → (t : Bytes) × (s ≡ pattern ++ t)
starts_with-eq [] s h = (s, refl)
starts_with-eq (c ∷ pattern) [] h = cc
starts_with-eq (c ∷ pattern) (d ∷ s) h = elim (Bool-cases (c == d)) [
  | inl e ↦
      let (t, e') = starts_with-eq pattern s (rw e at h) in (t, rw (e', (==_iff c d).0 e) refl)
  | inr e ↦ cc (rw e at h)
]

pub starts_with-append : (pattern t : Bytes) → starts_with pattern (pattern ++ t) ≡ true
starts_with-append [] t = refl
starts_with-append (c ∷ pattern) t = ground (arith, starts_with-append pattern t)

pub some_eq : {a b : ℕ} → some a ≡ some b → a ≡ b
some_eq h = cc

pub find_text-some :
    (pattern s : Bytes) (n : ℕ)
    → find_text pattern s ≡ some n
    → (a : Bytes) × (b : Bytes) × (s ≡ a ++ (pattern ++ b)) × (length a ≡ n)
unfolding find_text
find_text-some pattern [] n h = elim (Bool-cases (starts_with pattern [])) [
  | inl e ↦ let (t, e') = starts_with-eq pattern [] e in ([], t, e', some_eq (rw e at h))
  | inr e ↦ cc (rw e at h)
]
find_text-some pattern (c ∷ s) n h = go (find_text pattern s) refl (λ m. find_text-some pattern s m)
  where
    go :
        (o : Option ℕ)
        → find_text pattern s ≡ o
        → ((m : ℕ)
            → find_text pattern s ≡ some m
            → (a : Bytes) × (b : Bytes) × (s ≡ a ++ (pattern ++ b)) × (length a ≡ m))
        → (a : Bytes) × (b : Bytes) × (c ∷ s ≡ a ++ (pattern ++ b)) × (length a ≡ n)
    go none e rest = elim (Bool-cases (starts_with pattern (c ∷ s))) [
      | inl e' ↦
          let (t, e'') = starts_with-eq pattern (c ∷ s) e' in ([], t, e'', some_eq (rw e' at h))
      | inr e' ↦ cc (rw (e', e) at h)
    ]
    go (some m) e rest = elim (Bool-cases (starts_with pattern (c ∷ s))) [
      | inl e' ↦
          let (t, e'') = starts_with-eq pattern (c ∷ s) e' in ([], t, e'', some_eq (rw e' at h))
      | inr e' ↦
          let (a, b, split, at_m) = rest m e in
          (c ∷ a, b, ap (λ t. c ∷ t) split, ap suc at_m ∙ some_eq (rw (e', e) at h))
    ]

find_text_here : (pattern s : Bytes) → starts_with pattern s ≡ true → find_text pattern s ≡ some 0
unfolding find_text
find_text_here pattern [] h = rw h refl
find_text_here pattern (c ∷ s) h = rw h refl

-- An occurrence is found, or one before it.
pub find_text_first :
    (pattern a b : Bytes)
    → (n : ℕ) × (find_text pattern (a ++ (pattern ++ b)) ≡ some n) × (n ≤ length a)
unfolding find_text
find_text_first pattern [] b =
    (0, find_text_here pattern (pattern ++ b) (starts_with-append pattern b), omega arith)
find_text_first pattern (c ∷ a) b =
    let (n, e, le) = find_text_first pattern a b in
    elim (Bool-cases (starts_with pattern (c ∷ (a ++ (pattern ++ b))))) [
      | inl e' ↦ (0, rw e' refl, omega arith)
      | inr e' ↦ (suc n, rw (e', e) refl, omega arith)
    ]
