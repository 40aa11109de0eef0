-- ===== src/Verilog/Cones/Graph/Filled.antt =====
-- After `fillInfoMap` every target of a continuous assign stands in an assign.
use hif_frontend.Common.{
  ℕ, ◌≡◌, ◌≢◌, Bool, true, false, ◌&&◌, ◌||◌, inl, inr, none, [], ◌∷◌, ◌==◌, arith, Bool-cases,
}
use hif_frontend.Common.Sets.{member}
use hif_frontend.Verilog.Cones.Tree.{Tree}
use hif_frontend.Verilog.Cones.Info.{Analysis, RefMap, fill_info_map, lhs_continuous}
use hif_frontend.Verilog.Cones.Info.Used.{used}
use hif_frontend.Verilog.Cones.Info.Fill.{recorded, fill_info_map-member}
use hif_frontend.Verilog.Cones.Graph.Cleared.{Assigned}

lhs_continuous-assign :
    (tree : Tree) (nonblocking : ℕ → Bool) (r : ℕ)
    → used tree nonblocking r lhs_continuous ≡ true
    → tree.parent_assign r ≢ none
lhs_continuous-assign tree nonblocking r h e = ground (arith)

recorded-assign :
    (tree : Tree) (nonblocking : ℕ → Bool) (refs : RefMap) (d r : ℕ)
    → recorded tree nonblocking refs d r lhs_continuous ≡ true
    → tree.parent_assign r ≢ none
recorded-assign tree nonblocking [] d r h = λ e. cc
recorded-assign tree nonblocking ((decl, symbs) ∷ refs) d r h =
    elim (Bool-cases (used tree nonblocking r lhs_continuous)) [
      | inl e ↦ lhs_continuous-assign tree nonblocking r e
      | inr e ↦ recorded-assign tree nonblocking refs d r (
          later (tree.is_signal decl || tree.is_port decl) (d == decl) (member r symbs)
            (used tree nonblocking r lhs_continuous)
            (recorded tree nonblocking refs d r lhs_continuous) e h)
    ]
  where
    later : (a b c u rest : Bool) → u ≡ false → ((a && b && c && u) || rest) ≡ true → rest ≡ true
    later a b c u rest e h = ground arith

pub fill_info_map-Assigned :
    (tree : Tree) (remove_it : Bool) (refs : RefMap) (s : Analysis)
    → Assigned tree (s.infos)
    → Assigned tree ((fill_info_map tree remove_it refs s).infos)
fill_info_map-Assigned tree remove_it refs s assigned d symb h =
    elim (Bool-cases (recorded tree (s.nonblocking) refs d symb lhs_continuous)) [
      | inl e ↦ recorded-assign tree (s.nonblocking) refs d symb e
      | inr e ↦ assigned d symb (
          was
            (rw
              (fill_info_map-member tree remove_it refs s lhs_continuous (no_matter remove_it) d
                symb)
              at h)
            e)
    ]
  where
    no_matter : (b : Bool) → (b && false) ≡ false
    no_matter b = ground arith

    was : {a b : Bool} → (a || b) ≡ true → a ≡ false → b ≡ true
    was h e = ground arith
