-- ===== src/Verilog/Actions/Append.antt =====
-- Statements only append to the actions before them.
use hif_frontend.Common.{
  ◌≡◌, refl, sym, ap, ◌∙◌, Bool, true, false, Option, none, some, List, Bytes, if◌then◌else◌,
}
use hif_frontend.Common.Outcome.{Result, ok, err, ◌>>=◌, >>=_assoc}
use hif_frontend.Verilog.Actions.{
  Watched, Action, given, block, Actions, empty, push_back, ◌+++◌, +++-empty, +++_assoc,
}
use hif_frontend.Verilog.Actions.Procedural.{
  TimingControl, StatementActions, Statement, null_statement, statement, Block, no_block, block_of,
  Statements, last, before, first_action, last_action, take_declarations, event_wait, push_timing,
  build_statement, build_block_of, build_statements,
}

module _ {A V : Type 0} where
  -- A step that appends what it would make alone.
  abbrev Appends : (Actions A V → Result (Actions A V)) → Type 0
  Appends f = (actions : Actions A V) → f actions ≡ (do new ← f empty; ok (actions +++ new))

  nothing : Appends (λ actions. ok actions)
  nothing actions = ap ok (sym (+++-empty actions))

  one : (a : Action A V) → Appends (λ actions. ok (push_back actions a))
  one a actions = refl

  -- One step behind another.
  chained :
      (f g : Actions A V → Result (Actions A V))
      → Appends f
      → Appends g
      → Appends (λ actions. f actions >>= g)
  chained f g hf hg actions = rw (hf actions) (go (f empty))
    where
      go :
          (m : Result (Actions A V))
          → ((do new ← m; ok (actions +++ new)) >>= g) ≡ (do new ← m >>= g; ok (actions +++ new))
      go (err e) = refl
      go (ok new) =
          hg (actions +++ new)
          ∙ behind (g empty)
          ∙ ap (λ (m : Result (Actions A V)). m >>= λ n. ok (actions +++ n)) (sym (hg new))
        where
          behind :
              (m : Result (Actions A V))
              → (m >>= λ n. ok ((actions +++ new) +++ n))
                ≡ ((m >>= λ n. ok (new +++ n)) >>= λ n. ok (actions +++ n))
          behind (err e) = refl
          behind (ok n) = ap ok (+++_assoc actions new n)

module _ {A V : Type 0}
    (push_value : List (Watched V) → Option (Watched V) → List (Watched V)) where
  push_timing-Appends :
      (timing : Option (TimingControl V)) → Appends {A = A} (push_timing push_value timing)
  unfolding push_timing
  push_timing-Appends none actions = nothing actions
  push_timing-Appends (some ptc) actions = go ptc.delay_control ptc.event_control
    where
      go :
          (d : Option V) (e : Option _)
          → push_timing push_value (some (record { delay_control = d; event_control = e })) actions
            ≡ (do
              new ←
                  push_timing push_value
                    (some (record { delay_control = d; event_control = e }))
                    empty
              ok (actions +++ new))
      go (some d) e = refl
      go none none = nothing actions
      go none (some ect) = made (event_wait push_value ect)
        where
          made :
              (m : Result (Action A V))
              → (do w ← m; ok (push_back actions w))
                ≡ (do new ← (do w ← m; ok (push_back empty w)); ok (actions +++ new))
          made (ok w) = refl
          made (err e) = refl

module _ {A V D : Type 0}
    (push_value : List (Watched V) → Option (Watched V) → List (Watched V)) where
  abbrev act : Bool → StatementActions A → Bytes → Block A V D → Actions A V → Result (Actions A V)
  act skipped fields block_name blocks actions =
      if skipped then ok actions else elim (first_action fields) [
        | some a ↦ ok (push_back actions (given a))
        | none ↦ build_block_of push_value blocks block_name (last_action fields) actions
      ]

  block-Appends :
      (blocks : Block A V D) (block_name : Bytes) (a : Option A)
      → Appends (build_block_of push_value blocks block_name a)
  unfolding build_block_of
  block-Appends no_block block_name (some a) actions = one (given a) actions
  block-Appends no_block block_name none actions = nothing actions
  block-Appends (block_of last) block_name a actions = nothing actions
  block-Appends (block_of (before s ss)) block_name a actions =
      made (build_statements push_value (before s ss) empty)
    where
      made :
          (m : Result (Actions A V))
          → (do inside ← m; ok (push_back actions (block block_name inside))) ≡ (do
            new ← (do inside ← m; ok (push_back empty (block block_name inside)))
            ok (actions +++ new))
      made (ok w) = refl
      made (err e) = refl

  act-Appends :
      (skipped : Bool) (fields : StatementActions A) (block_name : Bytes) (blocks : Block A V D)
      → Appends (act skipped fields block_name blocks)
  act-Appends true fields block_name blocks actions = nothing actions
  act-Appends false fields block_name blocks actions = go (first_action fields)
    where
      go :
          (a : Option A)
          → elim a [
            | some a ↦ ok (push_back actions (given a))
            | none ↦ build_block_of push_value blocks block_name (last_action fields) actions
          ]
            ≡ (do
              new ← elim a [
                | some a ↦ ok (push_back empty (given a))
                | none ↦ build_block_of push_value blocks block_name (last_action fields) empty
              ]
              ok (actions +++ new))
      go (some a) = refl
      go none = block-Appends blocks block_name (last_action fields) actions

  abbrev paired : Option (List D) → Result (Actions A V) → Result (Actions A V × Option (List D))
  paired decls m = m >>= λ xs. ok (xs, decls)

  -- What a statement makes, put behind the actions before it.
  abbrev pub behind :
      Actions A V → Result (Actions A V × Option (List D)) → Result (Actions A V × Option (List D))
  behind actions m = m >>= λ r. ok (actions +++ r.0, r.1)

  paired-behind :
      (f : Actions A V → Result (Actions A V))
      → Appends f
      → (actions : Actions A V) (decls : Option (List D))
      → paired decls (f actions) ≡ behind actions (paired decls (f empty))
  paired-behind f h actions decls = ap (paired decls) (h actions) ∙ go (f empty)
    where
      go :
          (m : Result (Actions A V))
          → paired decls (m >>= λ new. ok (actions +++ new)) ≡ behind actions (paired decls m)
      go (ok new) = refl
      go (err e) = refl

  -- A statement appends to the actions, and what it appends, the declarations it takes and the
  -- error it ends in are those it has with no actions before it.
  pub build_statement-behind :
      (s : Statement A V D) (actions : Actions A V) (decl_list : Option (List D))
      → build_statement push_value s actions decl_list
        ≡ behind actions (build_statement push_value s empty decl_list)
  unfolding build_statement
  build_statement-behind null_statement actions decl_list =
      ap (λ xs. ok (xs, decl_list)) (sym (+++-empty actions))
  build_statement-behind (statement declarations timing skipped fields block_name blocks) actions
        decl_list =
      go (take_declarations declarations decl_list)
    where
      f : Actions A V → Result (Actions A V)
      f = push_timing push_value timing

      g : Actions A V → Result (Actions A V)
      g = act skipped fields block_name blocks

      body : Appends (λ actions. f actions >>= g)
      body =
          chained f g (push_timing-Appends push_value timing)
            (act-Appends skipped fields block_name blocks)

      go :
          (m : Result (Option (List D)))
          → (m >>= λ decls. f actions >>= λ xs. paired decls (g xs))
            ≡ behind actions (m >>= λ decls. f empty >>= λ xs. paired decls (g xs))
      go (err e) = refl
      go (ok decls) =
          >>=_assoc (f actions) g _
          ∙ paired-behind (λ xs. f xs >>= g) body actions decls
          ∙ ap (behind actions) (sym (>>=_assoc (f empty) g _))

  -- Each statement of a block by itself, one behind the other.
  abbrev pub parts : Statements A V D → Result (Actions A V)
  parts last = ok empty
  parts (before s ss) =
      build_statement push_value s empty none >>= λ r. parts ss >>= λ rest. ok (r.0 +++ rest)

  -- The actions of a block are those of its statements, each built by itself, in the order of the
  -- statements and behind the actions before the block; the first error ends it.
  pub build_statements-parts :
      (ss : Statements A V D) (actions : Actions A V)
      → build_statements push_value ss actions ≡ (parts ss >>= λ new. ok (actions +++ new))
  unfolding build_statements
  build_statements-parts last actions = ap ok (sym (+++-empty actions))
  build_statements-parts (before s ss) actions =
      ap (λ m. m >>= λ r. build_statements push_value ss r.0)
        (build_statement-behind s actions none)
      ∙ go (build_statement push_value s empty none) (λ xs. build_statements-parts ss xs)
    where
      joined :
          (m : Result (Actions A V)) (new : Actions A V)
          → (m >>= λ rest. ok ((actions +++ new) +++ rest))
            ≡ ((m >>= λ rest. ok (new +++ rest)) >>= λ xs. ok (actions +++ xs))
      joined (ok rest) new = ap ok (+++_assoc actions new rest)
      joined (err e) new = refl

      go :
          (m : Result (Actions A V × Option (List D)))
          → ((xs : Actions A V)
              → build_statements push_value ss xs ≡ (parts ss >>= λ new. ok (xs +++ new)))
          → (behind actions m >>= λ r. build_statements push_value ss r.0)
            ≡ ((m >>= λ r. parts ss >>= λ rest. ok (r.0 +++ rest)) >>= λ new. ok (actions +++ new))
      go (err e) ih = refl
      go (ok (new, decls)) ih = ih (actions +++ new) ∙ joined (parts ss) new
