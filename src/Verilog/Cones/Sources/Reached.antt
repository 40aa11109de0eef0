-- ===== src/Verilog/Cones/Sources/Reached.antt =====
-- The nodes that the call collects are the sources that the graph reaches.
use hif_frontend.Common.{ℕ, zero, suc, ◌<◌, ◌≡◌, refl, ◌⊎◌, ◌↔◌, List, [], ◌∷◌, true, arith}
use hif_frontend.Common.Sets.{member, NodeMap}

-- `n` has no parents and is a parent of `d`, or of a parent of `d`, and so on.
pub data Source (parent_map : NodeMap) : ℕ → ℕ → Type 0 where
  direct : {d n : ℕ} → member n (parent_map d) ≡ true → parent_map n ≡ [] → Source parent_map d n
  behind :
      {d m n : ℕ} → member m (parent_map d) ≡ true → Source parent_map m n → Source parent_map d n

-- Every parent ranks below its node: there are no cycles.
abbrev pub Ranked : NodeMap → (ℕ → ℕ) → Type 0
Ranked parent_map rank = (d m : ℕ) → member m (parent_map d) ≡ true → rank m < rank d

-- The map holds exactly the sources of a node.
abbrev pub Exact : NodeMap → NodeMap → ℕ → Type 0
Exact parent_map sens_map d = (n : ℕ) → (member n (sens_map d) ≡ true) ↔ Source parent_map d n

abbrev pub Known : NodeMap → NodeMap → Type 0
Known parent_map sens_map = (d : ℕ) → (sens_map d ≡ []) ⊎ Exact parent_map sens_map d

-- What a parent contributes.
abbrev pub Step : NodeMap → ℕ → ℕ → Type 0
Step parent_map m n = ((parent_map m ≡ []) × (n ≡ m)) ⊎ Source parent_map m n

module _ (parent_map : NodeMap) (rank : ℕ → ℕ) (ranked : Ranked parent_map rank) where
  source_exists :
      (bound m k : ℕ) (ks : List ℕ)
      → rank m < bound
      → parent_map m ≡ k ∷ ks
      → (n : ℕ) × Source parent_map m n
  source_exists zero m k ks lt e = absurd (omega arith)
  source_exists (suc bound) m k ks lt e =
      let child : member k (parent_map m) ≡ true = rw e (ground arith) in
      let below : rank k < bound = omega (arith, ranked m k child) in
      go (parent_map k) refl child (λ j js e'. source_exists bound k j js below e')
    where
      go :
          (ps : List ℕ)
          → parent_map k ≡ ps
          → member k (parent_map m) ≡ true
          → ((j : ℕ) (js : List ℕ) → parent_map k ≡ j ∷ js → (n : ℕ) × Source parent_map k n)
          → (n : ℕ) × Source parent_map m n
      go [] e child rest = (k, Source.direct child e)
      go (j ∷ js) e child rest = let (n, h) = rest j js e in (n, Source.behind child h)

  pub no_source : (m n : ℕ) → parent_map m ≡ [] → ¬ Source parent_map m n
  no_source m n e (Source.direct h _) = absurd (cc (rw e at h))
  no_source m n e (Source.behind h _) = absurd (cc (rw e at h))

  -- A node that has an exact set has no parents exactly if the set is empty.
  pub Exact-no_parents : (s : NodeMap) (m : ℕ) → Exact parent_map s m → s m ≡ [] → parent_map m ≡ []
  Exact-no_parents s m exact e = go (parent_map m) refl
    where
      go : (ps : List ℕ) → parent_map m ≡ ps → parent_map m ≡ []
      go [] e' = e'
      go (k ∷ ks) e' =
          let (n, h) = source_exists (suc (rank m)) m k ks (omega arith) e' in
          let there : member n (s m) ≡ true = (exact n).1 h in absurd (cc (rw e at there))
