-- ===== src/Verilog/Cones/Info/Fill.antt =====
-- What `fillInfoMap` records.
use hif_frontend.Common.{
  ℕ, ◌≡◌, refl, ◌∙◌, ap, Bool, true, false, not, ◌&&◌, ◌||◌, inl, inr, List, [], ◌∷◌, if◌then◌else◌,
  ◌==◌, ==_iff, arith, Bool-cases,
}
use hif_frontend.Common.Sets.{member, member-insert}
use hif_frontend.Verilog.Cones.Tree.{Tree}
use hif_frontend.Verilog.Cones.Info.{
  InfoStruct, Using, port, sensitivity, bind, wait, rhs_continuous, lhs_continuous,
  lhs_non_blocking, lhs_blocking, read, lhs_call, add_using, using_of, Analysis, fill_symbol,
  fill_symbols, RefMap, fill_info_map, nearest_assign_using,
}
use hif_frontend.Verilog.Cones.Info.Used.{same_using, used, using_of-used}

abbrev pub using_set : Using → InfoStruct → List ℕ
using_set port i = i.port_using
using_set sensitivity i = i.sensitivity_using
using_set bind i = i.bind_using
using_set wait i = i.wait_using
using_set rhs_continuous i = i.rhs_continuous_using
using_set lhs_continuous i = i.lhs_continuous_using
using_set lhs_non_blocking i = i.lhs_non_blocking_using
using_set lhs_blocking i = i.lhs_blocking_using
using_set read i = i.read_using
using_set lhs_call i = i.lhs_call_using

add_using-member :
    (v u : Using) (r symb : ℕ) (i : InfoStruct)
    → member r (using_set u (add_using v symb i))
      ≡ ((r == symb && same_using v u) || member r (using_set u i))
add_using-member v u r symb i = ground (arith, member-insert r symb (using_set u i))

-- The targets outside continuous assigns.
abbrev pub is_procedural : Using → Bool
is_procedural lhs_non_blocking = true
is_procedural lhs_blocking = true
is_procedural _ = false

-- `r` is a listed reference to the signal or port `d` and is used as `u`.
abbrev pub recorded : Tree → (nonblocking : ℕ → Bool) → RefMap → (d r : ℕ) → Using → Bool
recorded tree nonblocking [] d r u = false
recorded tree nonblocking ((decl, symbs) ∷ refs) d r u =
    ((tree.is_signal decl || tree.is_port decl)
      && d == decl
      && member r symbs
      && used tree nonblocking r u)
    || recorded tree nonblocking refs d r u

-- The same by the class that the routine gives.
abbrev classed : Tree → (nonblocking : ℕ → Bool) → RefMap → (d r : ℕ) → Using → Bool
classed tree nonblocking [] d r u = false
classed tree nonblocking ((decl, symbs) ∷ refs) d r u =
    ((tree.is_signal decl || tree.is_port decl)
      && d == decl
      && member r symbs
      && same_using (using_of tree nonblocking r) u)
    || classed tree nonblocking refs d r u

classed-recorded :
    (tree : Tree) (nonblocking : ℕ → Bool) (refs : RefMap) (d r : ℕ) (u : Using)
    → classed tree nonblocking refs d r u ≡ recorded tree nonblocking refs d r u
classed-recorded tree nonblocking [] d r u = refl
classed-recorded tree nonblocking ((decl, symbs) ∷ refs) d r u =
    rw (using_of-used tree nonblocking r u, classed-recorded tree nonblocking refs d r u) refl

bools :
    (D M E C C' X : Bool)
    → (E ≡ true → C ≡ C')
    → ((D && M && C) || ((D && E && C') || X)) ≡ ((D && (E || M) && C) || X)
bools D M E C C' X h = ground arith

module _ (tree : Tree) where
  same_class :
      (nb nb' : ℕ → Bool) (r : ℕ) (u : Using)
      → is_procedural u ≡ false
      → same_using (nearest_assign_using tree nb r) u
        ≡ same_using (nearest_assign_using tree nb' r) u
  same_class nb nb' r u h = ground arith

  -- The class `u` means the same for the two states of the properties.
  abbrev Agree : (nb nb' : ℕ → Bool) → Using → Type 0
  Agree nb nb' u = (r : ℕ) → same_using (using_of tree nb r) u ≡ same_using (using_of tree nb' r) u

  agree : (nb nb' : ℕ → Bool) (u : Using) → is_procedural u ≡ false → Agree nb nb' u
  agree nb nb' u h r = ground (arith, same_class nb nb' r u h)

  fill_symbol-Agree :
      (remove_it : Bool) (decl symb : ℕ) (s : Analysis) (nb : ℕ → Bool) (u : Using)
      → (remove_it && is_procedural u) ≡ false
      → Agree (s.nonblocking) nb u
      → Agree ((fill_symbol tree remove_it decl symb s).nonblocking) nb u
  fill_symbol-Agree true decl symb s nb u h agrees =
      agree ((fill_symbol tree true decl symb s).nonblocking) nb u h
  fill_symbol-Agree false decl symb s nb u h agrees = agrees

  fill_symbol-member :
      (remove_it : Bool) (decl symb d r : ℕ) (s : Analysis) (u : Using)
      → member r (using_set u ((fill_symbol tree remove_it decl symb s).infos d)) ≡ (
          (d == decl && r == symb && same_using (using_of tree (s.nonblocking) symb) u)
          || member r (using_set u (s.infos d)))
  fill_symbol-member remove_it decl symb d r s u = elim (Bool-cases (d == decl)) [
    | inl e ↦ rw e (add_using-member (using_of tree (s.nonblocking) symb) u r symb (s.infos d))
    | inr e ↦ rw e refl
  ]

  fill_symbols-member :
      (remove_it : Bool) (decl : ℕ) (symbs : List ℕ) (d r : ℕ) (s : Analysis) (nb : ℕ → Bool)
      (u : Using)
      → (remove_it && is_procedural u) ≡ false
      → Agree (s.nonblocking) nb u
      → (Agree ((fill_symbols tree remove_it decl symbs s).nonblocking) nb u)
        × (member r (using_set u ((fill_symbols tree remove_it decl symbs s).infos d)) ≡ (
            (d == decl && member r symbs && same_using (using_of tree nb r) u)
            || member r (using_set u (s.infos d))))
  unfolding fill_symbols
  fill_symbols-member remove_it decl [] d r s nb u h agrees = (agrees, ground arith)
  fill_symbols-member remove_it decl (symb ∷ symbs) d r s nb u h agrees =
      let (agrees', e) =
        fill_symbols-member remove_it decl symbs d r (fill_symbol tree remove_it decl symb s) nb u h
          (fill_symbol-Agree remove_it decl symb s nb u h agrees) in
      (agrees', e ∙ joined)
    where
      joined :
          ((d == decl && member r symbs && same_using (using_of tree nb r) u)
            || member r (using_set u ((fill_symbol tree remove_it decl symb s).infos d)))
          ≡ ((d == decl && member r (symb ∷ symbs) && same_using (using_of tree nb r) u)
              || member r (using_set u (s.infos d)))
      joined =
          rw (fill_symbol-member remove_it decl symb d r s u, agrees symb)
            (bools (d == decl) (member r symbs) (r == symb) (same_using (using_of tree nb r) u)
              (same_using (using_of tree nb symb) u) (member r (using_set u (s.infos d)))
              (λ e. ap (λ x. same_using (using_of tree nb x) u) ((==_iff r symb).0 e)))

  -- One declaration, which is skipped or not.
  fill_round-member :
      (skipped remove_it : Bool) (decl : ℕ) (symbs : List ℕ) (d r : ℕ) (s : Analysis)
      (nb : ℕ → Bool) (u : Using)
      → (remove_it && is_procedural u) ≡ false
      → Agree (s.nonblocking) nb u
      → (Agree ((if skipped then s else fill_symbols tree remove_it decl symbs s).nonblocking) nb u)
        × (member r (
              using_set u
                ((if skipped then s else fill_symbols tree remove_it decl symbs s).infos d))
            ≡ ((not skipped && d == decl && member r symbs && same_using (using_of tree nb r) u)
                || member r (using_set u (s.infos d))))
  fill_round-member true remove_it decl symbs d r s nb u h agrees = (agrees, refl)
  fill_round-member false remove_it decl symbs d r s nb u h agrees =
      fill_symbols-member remove_it decl symbs d r s nb u h agrees

  fill_info_map-recorded :
      (remove_it : Bool) (refs : RefMap) (s : Analysis) (nb : ℕ → Bool) (u : Using)
      → (remove_it && is_procedural u) ≡ false
      → Agree (s.nonblocking) nb u
      → (d r : ℕ)
      → member r (using_set u ((fill_info_map tree remove_it refs s).infos d))
        ≡ (classed tree nb refs d r u || member r (using_set u (s.infos d)))
  unfolding fill_info_map
  fill_info_map-recorded remove_it [] s nb u h agrees d r = refl
  fill_info_map-recorded remove_it ((decl, symbs) ∷ refs) s nb u h agrees d r =
      let skipped : Bool = not (tree.is_signal decl) && not (tree.is_port decl) in
      let s1 : Analysis = if skipped then s else fill_symbols tree remove_it decl symbs s in
      let (agrees1, e) = fill_round-member skipped remove_it decl symbs d r s nb u h agrees in
      fill_info_map-recorded remove_it refs s1 nb u h agrees1 d r
      ∙ ap (λ x. classed tree nb refs d r u || x) e
      ∙ merge (tree.is_signal decl) (tree.is_port decl) (d == decl) (member r symbs)
          (same_using (using_of tree nb r) u) (classed tree nb refs d r u)
          (member r (using_set u (s.infos d)))
    where
      merge :
          (a b D M C R X : Bool)
          → (R || ((not (not a && not b) && D && M && C) || X))
            ≡ ((((a || b) && D && M && C) || R) || X)
      merge a b D M C R X = ground arith

-- A reference is in a set of a declaration after the call exactly if it was there before, or the
-- declaration is a signal or a port, the map lists the reference for it, and the reference is used
-- in that way, as the conditions of each way say: the binding of a port, the sensitivity list, an
-- actual of a port, a wait, an argument for an output, and the sides of the assigns. The properties
-- are those before the call. If the call removes the
-- property of the non-blocking assigns, the statement is about the eight sets other than the two of
-- the targets of procedural assigns.
pub fill_info_map-member :
    (tree : Tree) (remove_it : Bool) (refs : RefMap) (s : Analysis) (u : Using)
    → (remove_it && is_procedural u) ≡ false
    → (d r : ℕ)
    → member r (using_set u ((fill_info_map tree remove_it refs s).infos d))
      ≡ (recorded tree (s.nonblocking) refs d r u || member r (using_set u (s.infos d)))
fill_info_map-member tree remove_it refs s u h d r =
    fill_info_map-recorded tree remove_it refs s (s.nonblocking) u h (λ x. refl) d r
    ∙ ap (λ x. x || member r (using_set u (s.infos d)))
        (classed-recorded tree (s.nonblocking) refs d r u)
