-- ===== src/Verilog/Cones/Graph/Visited.antt =====
-- The edges that the visit of one declaration adds.
use hif_frontend.Common.{
  ℕ, ◌≡◌, ◌≢◌, refl, ◌∙◌, Bool, true, false, not, ◌&&◌, ◌||◌, ◌⊎◌, inl, inr, Option, none, some,
  List, [], ◌∷◌, if◌then◌else◌, ◌==◌, arith, Bool-cases,
}
use mathlib.Core.Path.{subst}
use hif_frontend.Common.Sets.{member, insert, member-assign-insert}
use hif_frontend.Verilog.Cones.Tree.{Tree}
use hif_frontend.Verilog.Cones.Info.{InfoStruct, Analysis, calculate_required_decl_type}
use hif_frontend.Verilog.Cones.Graph.{
  Visit, is_undriven, visit_source, visit_declared, visit_symbol, visit_symbols, visit_targets,
}
use hif_frontend.Verilog.Cones.Graph.Edges.{add_edge-GoodGraph, Added}

-- A declaration that may be a source: a port, or a signal that is written or must stay a signal.
abbrev pub is_source : Tree → (ℕ → InfoStruct) → (inner_decl : ℕ) → Bool
is_source tree infos s =
    (tree.is_signal s || tree.is_port s)
    && not (tree.is_signal s && is_undriven (calculate_required_decl_type tree (infos s) s))

-- `s` becomes a source of `decl` for the declaration of a symbol, if it has one.
abbrev pub makes_edge : Tree → (ℕ → InfoStruct) → (decl : ℕ) → Option ℕ → (s : ℕ) → Bool
makes_edge tree infos decl none s = false
makes_edge tree infos decl (some t) s = s == t && is_source tree infos t && not (t == decl)

-- The declaration of a symbol that is an identifier.
abbrev pub declaration_of : Tree → (symb : ℕ) → Option ℕ
declaration_of tree symb =
    if tree.is_identifier symb then tree.identifier_declaration symb else none

-- Every identifier among the symbols of an assign has a declaration.
abbrev pub Resolved : Tree → Type 0
Resolved tree =
    (ass s : ℕ)
    → member s (tree.symbols_of ass) ≡ true
    → tree.is_identifier s ≡ true
    → tree.identifier_declaration s ≢ none

module _ (tree : Tree) (decl : ℕ) where
  abbrev Visits : (before after : Visit) → (ℕ → Bool) → Type 0
  Visits before after sources =
      (Added (before.graph) (after.graph) decl sources)
      × (after.analysis.infos ≡ before.analysis.infos)

  Visits-nothing :
      (v v' : Visit) (sources : ℕ → Bool)
      → v'.graph ≡ v.graph
      → v'.analysis.infos ≡ v.analysis.infos
      → ((s : ℕ) → sources s ≡ false)
      → Visits v v' sources
  Visits-nothing v v' sources e e' h =
      (((λ good. rw e good), λ d s. rw (e, h s) (ground arith)), e')

  seen_infos :
      (b : Bool) (t : ℕ) (a : Analysis)
      → (if b then record a { decls = insert t (a.decls) } else a).infos ≡ a.infos
  seen_infos true t a = refl
  seen_infos false t a = refl

  visit_source-Visits :
      (t : ℕ) (v : Visit)
      → (tree.is_signal t || tree.is_port t) ≡ true
      → Visits v (visit_source tree decl t v) (makes_edge tree (v.analysis.infos) decl (some t))
  visit_source-Visits t v h =
      elim (Bool-cases (
        tree.is_signal t
        && is_undriven (calculate_required_decl_type tree (v.analysis.infos t) t))) [
          | inl e ↦
              Visits-nothing v (visit_source tree decl t v)
                (makes_edge tree (v.analysis.infos) decl (some t)) (rw e refl)
                (rw e (seen_infos (tree.is_signal t) t (v.analysis))) (λ s. no_edge s (inl e))
          | inr e ↦ elim (Bool-cases (t == decl)) [
            | inl e' ↦
                Visits-nothing v (visit_source tree decl t v)
                  (makes_edge tree (v.analysis.infos) decl (some t)) (rw (e, e') refl)
                  (rw (e, e') (seen_infos (tree.is_signal t) t (v.analysis)))
                  (λ s. no_edge s (inr e'))
            | inr e' ↦ (
              (
                (λ good. rw (e, e') (add_edge-GoodGraph decl t (v.graph) e' good)),
                λ d s.
                    rw (e, e')
                      (rw (member-assign-insert s d decl t (v.graph.first)) (rw h (ground arith))),
              ),
              rw (e, e') (seen_infos (tree.is_signal t) t (v.analysis)),
            )
          ]
        ]
    where
      no_edge :
          (s : ℕ)
          → ((tree.is_signal t
                && is_undriven (calculate_required_decl_type tree (v.analysis.infos t) t))
              ≡ true)
            ⊎ ((t == decl) ≡ true)
          → makes_edge tree (v.analysis.infos) decl (some t) s ≡ false
      no_edge s (inl e) = rw e (ground arith)
      no_edge s (inr e) = rw e (ground arith)

  Visits-trans :
      (v v' v'' : Visit) (first_sources more : ℕ → Bool)
      → Visits v v' first_sources
      → Visits v' v'' more
      → Visits v v'' (λ s. first_sources s || more s)
  Visits-trans v v' v'' first_sources more ((good, e), i) ((good', e'), i') =
      (((λ g. good' (good g)), λ d s. e' d s ∙ rw (e d s) (ground arith)), i' ∙ i)

  neither : (a b c : Bool) → (a || b) ≡ c → (not a && not b) ≡ not c
  neither a b c h = ground arith

  visit_declared-Visits :
      (t : ℕ) (v : Visit)
      → Visits v (visit_declared tree decl t v) (makes_edge tree (v.analysis.infos) decl (some t))
  visit_declared-Visits t v = elim (Bool-cases (tree.is_signal t || tree.is_port t)) [
    | inl h ↦ rw (neither (tree.is_signal t) (tree.is_port t) true h) (visit_source-Visits t v h)
    | inr h ↦
        let skipped = neither (tree.is_signal t) (tree.is_port t) false h in
        Visits-nothing v (visit_declared tree decl t v)
          (makes_edge tree (v.analysis.infos) decl (some t)) (rw skipped refl) (rw skipped refl)
          (λ s. rw h (ground arith))
  ]

  visit_symbol-Visits :
      (symb : ℕ) (v : Visit)
      → (tree.is_identifier symb ≡ true → tree.identifier_declaration symb ≢ none)
      → (v' : Visit) × (visit_symbol tree decl symb v ≡ some v')
        × Visits v v' (makes_edge tree (v.analysis.infos) decl (declaration_of tree symb))
  visit_symbol-Visits symb v h = go (tree.is_identifier symb) (tree.identifier_declaration symb) h
    where
      go :
          (b : Bool) (o : Option ℕ)
          → (b ≡ true → o ≢ none)
          → (v' : Visit) × ((if b
                then elim o [ none ↦ none | some t ↦ some (visit_declared tree decl t v) ]
                else some (record v { has_only_constant_drivers = false }))
              ≡ some v')
            × Visits v v' (makes_edge tree (v.analysis.infos) decl (if b then o else none))
      go true none h = absurd (h refl refl)
      go true (some t) h = (visit_declared tree decl t v, refl, visit_declared-Visits t v)
      go false o h =
          let v' : Visit = record v { has_only_constant_drivers = false } in
          (v', refl, Visits-nothing v v' (λ s. false) refl refl (λ s. refl))

  -- Some symbol of the list makes `s` a source.
  abbrev pub makes_edges : (ℕ → InfoStruct) → List ℕ → (s : ℕ) → Bool
  makes_edges infos [] s = false
  makes_edges infos (symb ∷ symbols) s =
      makes_edge tree infos decl (declaration_of tree symb) s || makes_edges infos symbols s

  visit_symbols-Visits :
      (infos : ℕ → InfoStruct) (symbols : List ℕ) (v : Visit)
      → v.analysis.infos ≡ infos
      → ((s : ℕ)
          → member s symbols ≡ true
          → tree.is_identifier s ≡ true
          → tree.identifier_declaration s ≢ none)
      → (v' : Visit) × (visit_symbols tree decl symbols v ≡ some v')
        × Visits v v' (makes_edges infos symbols)
  unfolding visit_symbols
  visit_symbols-Visits infos [] v e h =
      (v, refl, Visits-nothing v v (λ s. false) refl refl (λ s. refl))
  visit_symbols-Visits infos (symb ∷ symbols) v e h =
      let o : Option ℕ = declaration_of tree symb in
      let (v1, e1, visits1) = visit_symbol-Visits symb v (h symb (ground arith)) in
      let head : Visits v v1 (makes_edge tree infos decl o) =
        subst (λ i. Visits v v1 (makes_edge tree i decl o)) e visits1 in
      let (v', e', visits) =
        visit_symbols-Visits infos symbols v1 (head.1 ∙ e)
          (λ x there. h x (ground (arith, there))) in
      (
        v',
        rw (e1, visit_symbols) e',
        Visits-trans v v1 v' (makes_edge tree infos decl o) (makes_edges infos symbols) head visits,
      )

  -- Some assign to a reference of the list has a symbol that makes `s` a source.
  abbrev pub is_fed : (ℕ → InfoStruct) → List ℕ → (s : ℕ) → Bool
  is_fed infos [] s = false
  is_fed infos (symb ∷ symbs) s = elim (tree.parent_assign symb) [
    | none ↦ is_fed infos symbs s
    | some ass ↦ makes_edges infos (tree.symbols_of ass) s || is_fed infos symbs s
  ]

  pub visit_targets-Visits :
      (infos : ℕ → InfoStruct) (symbs : List ℕ) (v : Visit)
      → Resolved tree
      → v.analysis.infos ≡ infos
      → ((symb : ℕ) → member symb symbs ≡ true → tree.parent_assign symb ≢ none)
      → (v' : Visit) × (visit_targets tree decl symbs v ≡ some v')
        × Visits v v' (is_fed infos symbs)
  unfolding visit_targets
  visit_targets-Visits infos [] v resolved e h =
      (v, refl, Visits-nothing v v (λ s. false) refl refl (λ s. refl))
  visit_targets-Visits infos (symb ∷ symbs) v resolved e h =
      go (tree.parent_assign symb) refl (λ v e.
        visit_targets-Visits infos symbs v resolved e (λ x there. h x (ground (arith, there))))
    where
      go :
          (o : Option ℕ)
          → tree.parent_assign symb ≡ o
          → ((v : Visit)
              → v.analysis.infos ≡ infos
              → (v' : Visit) × (visit_targets tree decl symbs v ≡ some v')
                × Visits v v' (is_fed infos symbs))
          → (v' : Visit) × (visit_targets tree decl (symb ∷ symbs) v ≡ some v')
            × Visits v v' (is_fed infos (symb ∷ symbs))
      go none e' rest = absurd (h symb (ground arith) e')
      go (some ass) e' rest =
          let (v1, e1, head) =
            visit_symbols-Visits infos (tree.symbols_of ass) v e (resolved ass) in
          let (v', eq, visits) = rest v1 (head.1 ∙ e) in
          (
            v',
            rw (e', visit_targets) (rw e1 eq),
            rw (e', is_fed)
                (Visits-trans v v1 v' (makes_edges infos (tree.symbols_of ass)) (is_fed infos symbs)
                  head visits),
          )
