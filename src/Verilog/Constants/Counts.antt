-- ===== src/Verilog/Constants/Counts.antt =====
-- Which counts of a replication are accepted.
use hif_frontend.Common.{
  and_both, sym, text_eq-eq, ◌≡◌, refl, ap, ◌∙◌, ◌↔◌, inl, inr, Bool, true, false, not, ◌&&◌, ◌||◌,
  Option, none, some, List, [], ◌∷◌, ◌++◌, arith, Bytes, codes, ◌==◌, if◌then◌else◌, All,
  Bool-cases, text_eq,
}
use mathlib.Core.Path.{subst}
use hif_frontend.Common.Outcome.{Result, ok, err, fatal, ◌>>◌}
use hif_frontend.Verilog.Constants.{Declaration, Symbol, is_data}
use hif_frontend.Verilog.Constants.Replication.{
  check_declaration, dollars_replaced, fix_system_name, is_run_time_name, is_run_time_call,
  count_loop, Call, symbolic_operand, check_replication_count,
}

-- A declaration whose value no run changes: a genvar, or no signal, port or variable.
abbrev is_fixed_declaration : Option Declaration → Bool
is_fixed_declaration none = true
is_fixed_declaration (some decl) = decl.is_genvar || not (is_data decl.class)

-- A symbol that a count may have.
abbrev pub is_static : Symbol → Bool
is_static symbol =
    not (is_run_time_call symbol.call_name)
    && (symbol.is_library_instance || is_fixed_declaration symbol.declaration)

abbrev Unless : Bool → Result (Unit {0}) → Type 0
Unless true r = r ≡ ok tt
Unless false r = (e : _) × (r ≡ err e)

data_step :
    (d : Option Declaration) (all_static : Bool) (rest : Result (Unit {0}))
    → Unless all_static rest
    → Unless (is_fixed_declaration d && all_static) (check_declaration d >> rest)
data_step none all_static rest h = h
data_step (some decl) all_static rest h = go decl.is_genvar (is_data decl.class)
  where
    go :
        (g moving : Bool)
        → Unless ((g || not moving) && all_static) (
            (if g
              then ok tt
              else if moving
              then err (fatal "Replication count is not a constant expression: it reads")
              else ok tt)
            >> rest)
    go true moving = h
    go false true = (fatal "Replication count is not a constant expression: it reads", refl)
    go false false = h

count_step :
    (name : Option Bytes) (b : Bool) (d : Option Declaration) (symbols : List Symbol)
    (all_static : Bool)
    → Unless all_static (count_loop symbols)
    → Unless
        (is_static (record { call_name = name; is_library_instance = b; declaration = d })
          && all_static)
        (count_loop
          (record { call_name = name; is_library_instance = b; declaration = d } ∷ symbols))
unfolding count_loop
count_step name b d symbols all_static h = elim (Bool-cases (is_run_time_call name)) [
  | inl e ↦
      rw e
        (fatal "Replication count is not a constant expression: it calls the system function", refl)
  | inr e ↦ rw e (go b)
]
  where
    go :
        (b : Bool)
        → Unless
            ((b || is_fixed_declaration d) && all_static)
            (if b then count_loop symbols else (check_declaration d >> count_loop symbols))
    go true = h
    go false = data_step d all_static (count_loop symbols) h

abbrev pub all_static : List Symbol → Bool
all_static [] = true
all_static (symbol ∷ symbols) = is_static symbol && all_static symbols

count_loop_lem : (symbols : List Symbol) → Unless (all_static symbols) (count_loop symbols)
unfolding count_loop
count_loop_lem [] = refl
count_loop_lem (symbol ∷ symbols) =
    count_step symbol.call_name symbol.is_library_instance symbol.declaration symbols
      (all_static symbols) (count_loop_lem symbols)

Unless-iff : (b : Bool) (r : Result (Unit {0})) → Unless b r → (r ≡ ok tt) ↔ (b ≡ true)
Unless-iff true r h = (λ _. refl, λ _. h)
Unless-iff false r (e, h) = (λ h'. cc, λ h'. cc)

-- The names that the rename gives.
dollars_replaced-eq :
    (s t : Bytes)
    → All (λ c. (c == b'_') ≡ false) t
    → All (λ c. (c == b'$') ≡ false) t
    → text_eq (dollars_replaced s) t ≡ text_eq s t
unfolding text_eq
dollars_replaced-eq [] [] h k = refl
dollars_replaced-eq [] (b ∷ t) h k = refl
dollars_replaced-eq (a ∷ s) [] h k = refl
dollars_replaced-eq (a ∷ s) (b ∷ t) (h, hs) (k, ks) =
    rw (dollars_replaced-eq s t hs ks) (go (text_eq s t))
  where
    go : (x : Bool) → ((if a == b'$' then b'_' else a) == b && x) ≡ (a == b && x)
    go x = ground arith

system_name :
    (n : Bytes) → is_run_time_name (fix_system_name (b'$' ∷ n)) ≡ not (text_eq n (codes "clog2"))
unfolding fix_system_name is_run_time_name text_eq
system_name n = ap not (
    dollars_replaced-eq n (codes "clog2") (refl, (refl, (refl, (refl, (refl, tt)))))
      (refl, (refl, (refl, (refl, (refl, tt))))))

-- A call `$n` of a system function, renamed, and declared as a function.
abbrev pub system_call : Bytes → Declaration → Symbol
system_call n decl = record {
  call_name = some (fix_system_name (b'$' ∷ n));
  is_library_instance = false;
  declaration = some decl;
}

static_call :
    (n : Bytes) (decl : Declaration) (symbols : List Symbol)
    → is_data decl.class ≡ false
    → all_static (system_call n decl ∷ symbols) ≡ (text_eq n (codes "clog2") && all_static symbols)
static_call n decl symbols k =
    rw (system_name n, k) (go (text_eq n (codes "clog2")) decl.is_genvar (all_static symbols))
  where
    go : (a b c : Bool) → (not (not a) && (b || true) && c) ≡ (a && c)
    go a b c = ground arith

static_calls :
    (before : List Symbol) (n : Bytes) (decl : Declaration) (symbols : List Symbol)
    → is_data decl.class ≡ false
    → all_static (before ++ (system_call n decl ∷ symbols))
      ≡ (text_eq n (codes "clog2") && all_static (before ++ symbols))
static_calls [] n decl symbols k = static_call n decl symbols k
static_calls (symbol ∷ before) n decl symbols k =
    rw (static_calls before n decl symbols k)
      (go (is_static symbol) (text_eq n (codes "clog2")) (all_static (before ++ symbols)))
  where
    go : (a b c : Bool) → (a && (b && c)) ≡ (b && (a && c))
    go a b c = ground arith

named :
    (n : Bytes) (b : Bool)
    → ((text_eq n (codes "clog2") && b) ≡ true) ↔ ((n ≡ codes "clog2") × (b ≡ true))
unfolding text_eq
named n b = (
  λ h.
      let (e, e') = and_both (text_eq n (codes "clog2")) b h in
      (text_eq-eq n (codes "clog2") e, e'),
  λ (e, e'). rw (e, e') refl,
)

module _ {C V : Type 0} (collect_symbols : V → List Symbol) where
  -- A count that is no constant is accepted exactly when each of its symbols is neither a call whose
  -- name starts with `_system_`, other than `_system_clog2`, nor a signal, a port or a variable that
  -- is no genvar; an instance of a library and a symbol without declaration are accepted.
  pub check_replication_count_lem :
      (call : Call C V) (v : V)
      → call.times ≡ some (some (symbolic_operand v))
      → (check_replication_count collect_symbols call ≡ ok tt)
        ↔ (all_static (collect_symbols v) ≡ true)
  unfolding check_replication_count
  check_replication_count_lem call v h = rw h (
      Unless-iff (all_static (collect_symbols v)) (count_loop (collect_symbols v))
        (count_loop_lem (collect_symbols v)))

  -- A count that calls the system function `$n` somewhere, as `W + $clog2(N)` does, is accepted
  -- exactly when `n` is `clog2` and the symbols before and after the call are accepted, where `$n` is
  -- declared and is no signal, port or variable.
  pub check_replication_count-fix_system_name :
      (call : Call C V) (v : V) (n : Bytes) (decl : Declaration) (before symbols : List Symbol)
      → call.times ≡ some (some (symbolic_operand v))
      → collect_symbols v ≡ before ++ (system_call n decl ∷ symbols)
      → is_data decl.class ≡ false
      → (check_replication_count collect_symbols call ≡ ok tt)
        ↔ ((n ≡ codes "clog2") × (all_static (before ++ symbols) ≡ true))
  check_replication_count-fix_system_name call v n decl before symbols h e k =
      let (forth, back) = check_replication_count_lem call v h in
      let (split, join) = named n (all_static (before ++ symbols)) in
      let same = static_calls before n decl symbols k in
      (
        λ x. split (sym same ∙ (subst (λ l. all_static l ≡ true) e (forth x))),
        λ x. back (subst (λ l. all_static l ≡ true) (sym e) (same ∙ join x)),
      )
