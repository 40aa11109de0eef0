-- ===== src/Verilog/Cones/Graph/Cleared.antt =====
-- What forgetting constant drivers leaves of the sources.
use mathlib.Core.Path.{subst}
use hif_frontend.Common.{
  ℕ, ◌≡◌, ◌≢◌, refl, sym, ap, ◌∙◌, Bool, true, false, not, ◌&&◌, ◌||◌, ◌⊎◌, inl, inr, Option, none,
  some, List, [], ◌∷◌, ◌==◌, ==_iff, arith, Bool-cases,
}
use hif_frontend.Common.Sets.{member}
use hif_frontend.Verilog.Cones.Tree.{Tree}
use hif_frontend.Verilog.Cones.Info.{InfoStruct, calculate_required_decl_type}
use hif_frontend.Verilog.Cones.Graph.{Visit, is_undriven, clear_continuous, finish}
use hif_frontend.Verilog.Cones.Graph.Visited.{
  is_source, makes_edge, declaration_of, makes_edges, is_fed,
}

-- Every target of a continuous assign stands in an assign.
abbrev pub Assigned : Tree → (ℕ → InfoStruct) → Type 0
Assigned tree infos =
    (d symb : ℕ)
    → member symb (infos d).lhs_continuous_using ≡ true
    → tree.parent_assign symb ≢ none

-- `s` is a source of an assign to `d`.
abbrev pub feeds : Tree → (ℕ → InfoStruct) → (d s : ℕ) → Bool
feeds tree infos d s = is_fed tree d infos (infos d).lhs_continuous_using s

abbrev pub Cleared : (infos infos' : ℕ → InfoStruct) → Type 0
Cleared infos infos' = (d : ℕ) → (infos' d ≡ infos d) ⊎ (infos' d ≡ clear_continuous (infos d))

pub Cleared-trans :
    (infos infos' infos'' : ℕ → InfoStruct)
    → Cleared infos infos'
    → Cleared infos' infos''
    → Cleared infos infos''
Cleared-trans infos infos' infos'' h h' d = elim (h d) [
  | inl e ↦ elim (h' d) [ inl e' ↦ inl (e' ∙ e) | inr e' ↦ inr (e' ∙ ap clear_continuous e) ]
  | inr e ↦ elim (h' d) [ inl e' ↦ inr (e' ∙ e) | inr e' ↦ inr (e' ∙ ap clear_continuous e) ]
]

pub finish-Cleared : (decl : ℕ) (v : Visit) → Cleared (v.analysis.infos) ((finish decl v).1.infos)
finish-Cleared decl v d = elim (Bool-cases (v.has_only_constant_drivers)) [
  | inl e ↦ elim (Bool-cases (d == decl)) [
    | inl e' ↦ inr (rw (e, e') refl)
    | inr e' ↦ inl (rw (e, e') refl)
  ]
  | inr e ↦ inl (rw e refl)
]

pub finish_other :
    (decl : ℕ) (v : Visit) (d : ℕ)
    → (d == decl) ≡ false
    → (finish decl v).1.infos d ≡ v.analysis.infos d
finish_other decl v d h = elim (Bool-cases (v.has_only_constant_drivers)) [
  | inl e ↦ rw (e, h) refl
  | inr e ↦ rw e refl
]

either :
    (a b a' b' : Bool)
    → (a ≡ true → a' ≡ true)
    → (b ≡ true → b' ≡ true)
    → (a || b) ≡ true
    → (a' || b') ≡ true
either a b a' b' f g h = ground arith

one_of_three :
    (a b b' c : Bool) → (b ≡ true → b' ≡ true) → (a && b && c) ≡ true → (a && b' && c) ≡ true
one_of_three a b b' c f h = ground arith

module _ (tree : Tree) where
  -- The same of one struct.
  abbrev source : InfoStruct → (s : ℕ) → Bool
  source i s =
      (tree.is_signal s || tree.is_port s)
      && not (tree.is_signal s && is_undriven (calculate_required_decl_type tree i s))

  clear_source : (i : InfoStruct) (s : ℕ) → source (clear_continuous i) s ≡ true → source i s ≡ true
  clear_source i s h = ground arith

  pub Cleared-source :
      (infos infos' : ℕ → InfoStruct) (s : ℕ)
      → Cleared infos infos'
      → is_source tree infos' s ≡ true
      → is_source tree infos s ≡ true
  Cleared-source infos infos' s cleared h = elim (cleared s) [
    | inl e ↦ subst (λ i. source i s ≡ true) e h
    | inr e ↦ clear_source (infos s) s (subst (λ i. source i s ≡ true) e h)
  ]

  module _ (infos infos' : ℕ → InfoStruct) (d s : ℕ)
      (keeps : is_source tree infos s ≡ true → is_source tree infos' s ≡ true) where
    makes_edge_source :
        (o : Option ℕ) → makes_edge tree infos d o s ≡ true → makes_edge tree infos' d o s ≡ true
    makes_edge_source none h = cc
    makes_edge_source (some t) h = elim (Bool-cases (s == t)) [
      | inl e ↦
          one_of_three (s == t) (is_source tree infos t) (is_source tree infos' t) (not (t == d))
            (subst (λ x. is_source tree infos x ≡ true → is_source tree infos' x ≡ true)
              ((==_iff s t).0 e) keeps)
            h
      | inr e ↦ cc (rw e at h)
    ]

    makes_edges_source :
        (symbols : List ℕ)
        → makes_edges tree d infos symbols s ≡ true
        → makes_edges tree d infos' symbols s ≡ true
    makes_edges_source [] h = h
    makes_edges_source (symb ∷ symbols) h =
        ground (arith, makes_edge_source (declaration_of tree symb), makes_edges_source symbols)

    pub is_fed_source :
        (symbs : List ℕ) → is_fed tree d infos symbs s ≡ true → is_fed tree d infos' symbs s ≡ true
    is_fed_source [] h = h
    is_fed_source (symb ∷ symbs) h = go (tree.parent_assign symb) refl (is_fed_source symbs)
      where
        go :
            (o : Option ℕ)
            → tree.parent_assign symb ≡ o
            → (is_fed tree d infos symbs s ≡ true → is_fed tree d infos' symbs s ≡ true)
            → is_fed tree d infos' (symb ∷ symbs) s ≡ true
        go none e rest = rw (e, is_fed) (rest (rw (e, is_fed) at h))
        go (some ass) e rest =
            rw (e, is_fed)
              (either (makes_edges tree d infos (tree.symbols_of ass) s)
                (is_fed tree d infos symbs s) (makes_edges tree d infos' (tree.symbols_of ass) s)
                (is_fed tree d infos' symbs s) (makes_edges_source (tree.symbols_of ass)) rest
                (rw (e, is_fed) at h))

  -- From the analysis after one visit to the one before.
  pub feeds_before :
      (infos infos' : ℕ → InfoStruct) (d s : ℕ)
      → Cleared infos infos'
      → feeds tree infos' d s ≡ true
      → feeds tree infos d s ≡ true
  feeds_before infos infos' d s cleared h = elim (cleared d) [
    | inl e ↦
        is_fed_source infos' infos d s (Cleared-source infos infos' s cleared)
          (infos d).lhs_continuous_using
          (subst (λ i. is_fed tree d infos' i.lhs_continuous_using s ≡ true) e h)
    | inr e ↦ cc (subst (λ i. is_fed tree d infos' i.lhs_continuous_using s ≡ true) e h)
  ]

  pub feeds_after :
      (infos infos' : ℕ → InfoStruct) (d s : ℕ)
      → infos' d ≡ infos d
      → is_source tree infos' s ≡ true
      → feeds tree infos d s ≡ true
      → feeds tree infos' d s ≡ true
  feeds_after infos infos' d s e h h' =
      subst (λ i. is_fed tree d infos' i.lhs_continuous_using s ≡ true) (sym e)
        (is_fed_source infos infos' d s (λ _. h) (infos d).lhs_continuous_using h')

  pub Assigned-after :
      (infos infos' : ℕ → InfoStruct)
      → Cleared infos infos'
      → Assigned tree infos
      → Assigned tree infos'
  Assigned-after infos infos' cleared h d symb there = elim (cleared d) [
    | inl e ↦ h d symb (subst (λ i. member symb i.lhs_continuous_using ≡ true) e there)
    | inr e ↦ cc (subst (λ i. member symb i.lhs_continuous_using ≡ true) e there)
  ]
