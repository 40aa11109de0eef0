-- ===== src/Verilog/Cones/Sensitivities/Map.antt =====
-- The nodes that `fixSensitivities` finds for the cones are those of the calls alone.
use hif_frontend.Common.{
  ℕ, ◌≡◌, refl, ◌&&◌, Option, none, some, List, [], ◌∷◌, inl, inr, Bool-cases,
}
use hif_frontend.Common.Sets.{NodeMap, is_empty}
use hif_frontend.Verilog.Cones.Tree.{Tree}
use hif_frontend.Verilog.Cones.Sources.{calculate_parent_nodes, calculate_all}
use hif_frontend.Verilog.Cones.Sensitivities.{
  Lists, Sensitivities, sensitivity_loop, wait_loop, fix_cone, fix_sensitivities,
}

module _ (tree : Tree) (lists : Lists) (parent_map : NodeMap) (fuel : ℕ) where
  -- If there is a result, its map is this one.
  abbrev HasMap : Option NodeMap → Option Sensitivities → Type 0
  HasMap m none = Unit {0}
  HasMap m (some s) = m ≡ some (s.sens_map)

  then_map :
      {B : Type 0} (m : NodeMap) (o : Option B) (next : B → Option Sensitivities)
      → ((b : B) → HasMap (some m) (next b))
      → HasMap (some m) (elim o [ none ↦ none | some b ↦ next b ])
  then_map m none next h = record {}
  then_map m (some b) next h = h b

  fix_cone-HasMap :
      (decl : ℕ) (s : Sensitivities)
      → HasMap
          (calculate_parent_nodes parent_map fuel decl (s.sens_map))
          (fix_cone tree lists parent_map fuel decl s)
  unfolding fix_cone
  fix_cone-HasMap decl s = go (calculate_parent_nodes parent_map fuel decl (s.sens_map)) refl
    where
      Goal : Type 0
      Goal =
          HasMap (calculate_parent_nodes parent_map fuel decl (s.sens_map))
            (fix_cone tree lists parent_map fuel decl s)

      go :
          (o : Option NodeMap) → calculate_parent_nodes parent_map fuel decl (s.sens_map) ≡ o → Goal
      go none e = rw (e, fix_cone) (record {})
      go (some m) e =
          rw (e, fix_cone)
            (elim (Bool-cases
              (is_empty (s.sensitivity.using decl) && is_empty (s.wait_using decl))) [
                | inl e' ↦ rw e' refl
                | inr e' ↦ rw e' (
                    then_map m
                      (sensitivity_loop tree lists decl (m decl) (s.sensitivity.using decl)
                        (s.sensitivity))
                      _
                      (λ after.
                        then_map m
                          (wait_loop tree lists fuel decl (m decl) (s.wait_using decl)
                            (record after { using = s.wait_using }))
                          _ (λ waited. refl)))
              ])

  -- The map of the whole is that of the calls of `calculateParentNodes`, one for each cone.
  fix_sensitivities-calculate_all :
      (decls : List ℕ) (s : Sensitivities)
      → HasMap
          (calculate_all parent_map fuel decls (s.sens_map))
          (fix_sensitivities tree lists parent_map fuel decls s)
  unfolding fix_sensitivities calculate_all
  fix_sensitivities-calculate_all [] s = refl
  fix_sensitivities-calculate_all (decl ∷ decls) s =
      go (fix_cone tree lists parent_map fuel decl s) refl (fix_cone-HasMap decl s)
        (fix_sensitivities-calculate_all decls)
    where
      go :
          (o : Option Sensitivities)
          → fix_cone tree lists parent_map fuel decl s ≡ o
          → HasMap (calculate_parent_nodes parent_map fuel decl (s.sens_map)) o
          → ((t : Sensitivities)
              → HasMap
                  (calculate_all parent_map fuel decls (t.sens_map))
                  (fix_sensitivities tree lists parent_map fuel decls t))
          → HasMap
              (calculate_all parent_map fuel (decl ∷ decls) (s.sens_map))
              (fix_sensitivities tree lists parent_map fuel (decl ∷ decls) s)
      go none e h rest = rw (e, fix_sensitivities) (record {})
      go (some t) e h rest = rw (e, fix_sensitivities, h, calculate_all) (rest t)
