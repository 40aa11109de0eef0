-- ===== src/Common/Sets.antt =====
-- Sets of node addresses (`std::set` of pointers) as lists, and maps into them (`std::map`, whose
-- `operator[]` gives an empty set for a key that is missing) as functions.
use hif_frontend.Common.{
  ℕ, ◌≡◌, ◌≢◌, refl, ◌∙◌, Bool, true, false, ◌||◌, ◌&&◌, not, List, [], ◌∷◌, ◌++◌, arith, ◌==◌,
  if◌then◌else◌, keep, ==_iff, Bool-cases, inl, inr,
}

abbrev pub member : ℕ → List ℕ → Bool
member x [] = false
member x (y ∷ ys) = x == y || member x ys

-- `s.insert(x)`.
abbrev pub insert : ℕ → List ℕ → List ℕ
insert x s = if member x s then s else x ∷ s

-- `s.insert(xs.begin(), xs.end())`.
abbrev pub insert_all : List ℕ → List ℕ → List ℕ
insert_all [] s = s
insert_all (x ∷ xs) s = insert_all xs (insert x s)

-- `s.erase(x)`.
abbrev pub remove : ℕ → List ℕ → List ℕ
remove x s = keep (λ y. not (y == x)) s

abbrev pub is_empty {ℓ} : {A : Type ℓ} → List A → Bool
is_empty [] = true
is_empty (x ∷ xs) = false

abbrev pub NodeMap : Type 0
NodeMap = ℕ → List ℕ

-- `map[k] = v`.
abbrev pub assign : ℕ → List ℕ → NodeMap → NodeMap
assign k v f x = if x == k then v else f x

pub member-insert : (x y : ℕ) (s : List ℕ) → member x (insert y s) ≡ (x == y || member x s)
member-insert x y s = ground arith

pub member-insert_all :
    (x : ℕ) (ys s : List ℕ) → member x (insert_all ys s) ≡ (member x ys || member x s)
member-insert_all x [] s = refl
member-insert_all x (y ∷ ys) s =
    member-insert_all x ys (insert y s) ∙ ground (arith, member-insert x y s)

pub member-remove : (x y : ℕ) (s : List ℕ) → member x (remove y s) ≡ (not (x == y) && member x s)
member-remove x y [] = ground arith
member-remove x y (z ∷ s) = ground (arith, member-remove x y s)

pub member-append : (x : ℕ) (s t : List ℕ) → member x (s ++ t) ≡ (member x s || member x t)
member-append x [] t = refl
member-append x (y ∷ s) t = ground (arith, member-append x s t)

pub assign_same : (k : ℕ) (v : List ℕ) (f : NodeMap) → assign k v f k ≡ v
assign_same k v f = ground arith

pub assign_other : (k x : ℕ) (v : List ℕ) (f : NodeMap) → x ≢ k → assign k v f x ≡ f x
assign_other k x v f h = ground arith

eq_same : (k : ℕ) → (k == k) ≡ true
eq_same k = ground arith

-- `map[k].insert(v)` and `map[k].insert(vs.begin(), vs.end())`.
pub member-assign-insert :
    (x d k v : ℕ) (f : NodeMap)
    → member x (assign k (insert v (f k)) f d) ≡ ((d == k && x == v) || member x (f d))
member-assign-insert x d k v f = elim (Bool-cases (d == k)) [
  | inl e ↦ rw ((==_iff d k).0 e) (rw (eq_same k) (member-insert x v (f k)))
  | inr e ↦ rw e refl
]

pub member-assign-insert_all :
    (x d k : ℕ) (vs : List ℕ) (f : NodeMap)
    → member x (assign k (insert_all vs (f k)) f d) ≡ ((d == k && member x vs) || member x (f d))
member-assign-insert_all x d k vs f = elim (Bool-cases (d == k)) [
  | inl e ↦ rw ((==_iff d k).0 e) (rw (eq_same k) (member-insert_all x vs (f k)))
  | inr e ↦ rw e refl
]
