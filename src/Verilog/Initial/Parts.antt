-- ===== src/Verilog/Initial/Parts.antt =====
-- What the merging leaves, and the parts of the actions of a process.
use hif_frontend.Common.{
  ◌≡◌, refl, ap, Bool, true, false, not, inl, inr, List, [], ◌∷◌, ◌++◌, append-nil, if◌then◌else◌,
  keep, all, length, arith, Bool-cases,
}
use hif_frontend.Common.Sets.{is_empty}
use hif_frontend.Verilog.Initial.{
  StateTable, is_initial, collect_initial_processes, split_actions, actions_of,
  merge_initial_processes,
}

abbrev pub other_processes : {A : Type 0} → List (StateTable A) → List (StateTable A)
other_processes tables = keep (λ t. not (is_initial t)) tables

module _ {A : Type 0} where
  collect-others : (ts : List (StateTable A)) → collect_initial_processes (other_processes ts) ≡ []
  collect-others [] = refl
  collect-others (st ∷ ts) = elim (Bool-cases (is_initial st)) [
    | inl e ↦ rw e (collect-others ts)
    | inr e ↦ rw e (rw e (collect-others ts))
  ]

  others-others :
      (ts : List (StateTable A)) → other_processes (other_processes ts) ≡ other_processes ts
  others-others [] = refl
  others-others (st ∷ ts) = elim (Bool-cases (is_initial st)) [
    | inl e ↦ rw e (others-others ts)
    | inr e ↦ rw e (rw e (ap (λ t. st ∷ t) (others-others ts)))
  ]

  -- What the merging leaves of the processes: their actions, their number and the others.
  abbrev pub MergesTo : (ts merged : List (StateTable A)) → Type 0
  MergesTo ts merged =
      (actions_of (collect_initial_processes merged) ≡ actions_of (collect_initial_processes ts))
      × (length (collect_initial_processes merged)
          ≡ (if is_empty (collect_initial_processes ts) then 0 else 1))
      × (other_processes merged ≡ other_processes ts)

  pub merge-MergesTo : (ts : List (StateTable A)) → MergesTo ts (merge_initial_processes ts)
  unfolding merge_initial_processes
  merge-MergesTo [] = (refl, refl, refl)
  merge-MergesTo (st ∷ ts) = go (is_initial st) refl (merge-MergesTo ts)
    where
      go :
          (b : Bool)
          → is_initial st ≡ b
          → MergesTo ts (merge_initial_processes ts)
          → MergesTo (st ∷ ts) (merge_initial_processes (st ∷ ts))
      go true e rest = rw e (
          rw e (
            rw (collect-others ts)
                (append-nil (st.actions ++ actions_of (collect_initial_processes ts))),
            rw (collect-others ts) refl,
            others-others ts,
          ))
      go false e (actions, one, others) = rw e (rw e (actions, one, ap (λ t. st ∷ t) others))

  pub keep-append :
      (p : StateTable A → Bool) (xs ys : List (StateTable A))
      → keep p (xs ++ ys) ≡ keep p xs ++ keep p ys
  keep-append p [] ys = refl
  keep-append p (x ∷ xs) ys = elim (Bool-cases (p x)) [
    | inl e ↦ rw e (ap (λ t. x ∷ t) (keep-append p xs ys))
    | inr e ↦ rw e (keep-append p xs ys)
  ]

module _ {A : Type 0} (check_wrong_statement : A → Bool) where
  -- The actions before the first wrong one, and those from it on.
  abbrev pub before_wrong : List A → List A
  before_wrong [] = []
  before_wrong (act ∷ actions) =
      if check_wrong_statement act then [] else act ∷ before_wrong actions

  abbrev pub from_wrong : List A → List A
  from_wrong [] = []
  from_wrong (act ∷ actions) =
      if check_wrong_statement act then act ∷ actions else from_wrong actions

  split_actions_found : (xs : List A) → split_actions check_wrong_statement true xs ≡ ([], xs)
  unfolding split_actions
  split_actions_found [] = refl
  split_actions_found (x ∷ xs) = rw (split_actions_found xs) refl

  pub split_actions_lem :
      (xs : List A)
      → split_actions check_wrong_statement false xs ≡ (before_wrong xs, from_wrong xs)
  unfolding split_actions
  split_actions_lem [] = refl
  split_actions_lem (x ∷ xs) = elim (Bool-cases (check_wrong_statement x)) [
    | inl e ↦ rw (e, split_actions_found xs) refl
    | inr e ↦ rw (e, split_actions_lem xs) refl
  ]

  pub before_wrong_all : (xs : List A) → is_empty (from_wrong xs) ≡ true → before_wrong xs ≡ xs
  before_wrong_all [] h = refl
  before_wrong_all (x ∷ xs) h = elim (Bool-cases (check_wrong_statement x)) [
    | inl e ↦ cc (rw e at h)
    | inr e ↦ rw e (ap (λ t. x ∷ t) (before_wrong_all xs (rw e at h)))
  ]

  before_wrong-all :
      (xs : List A) → all (λ a. not (check_wrong_statement a)) (before_wrong xs) ≡ true
  before_wrong-all [] = refl
  before_wrong-all (x ∷ xs) = elim (Bool-cases (check_wrong_statement x)) [
    | inl e ↦ rw e refl
    | inr e ↦ rw e (rw e (before_wrong-all xs))
  ]

  -- What stays of the processes of a list.
  abbrev pub before_all : List (StateTable A) → List A
  before_all [] = []
  before_all (st ∷ ts) = before_wrong (st.actions) ++ before_all ts

  all-append :
      (p : A → Bool) (xs ys : List A) → all p xs ≡ true → all p ys ≡ true → all p (xs ++ ys) ≡ true
  all-append p [] ys h h' = h'
  all-append p (x ∷ xs) ys h h' = ground (arith, all-append p xs ys)

  pub before_all-all :
      (ts : List (StateTable A)) → all (λ a. not (check_wrong_statement a)) (before_all ts) ≡ true
  before_all-all [] = refl
  before_all-all (st ∷ ts) =
      all-append (λ a. not (check_wrong_statement a)) (before_wrong (st.actions)) (before_all ts)
        (before_wrong-all (st.actions)) (before_all-all ts)
