-- ===== src/Verilog/Actions/Edges.antt =====
-- What a `Wait` is sensitive to.
use hif_frontend.Common.{
  ◌≡◌, refl, sym, ◌∙◌, Bool, true, false, not, ◌&&◌, List, [], ◌∷◌, ◌++◌, map, append-nil,
  append_assoc, if◌then◌else◌, keep,
}
use hif_frontend.Verilog.Actions.{Watched, Sensitivity}
use hif_frontend.Verilog.Actions.Watching.{fix_sensitivity, fixed_sensitivity}

module _ {V : Type 0} where
  abbrev pub without_pos : Watched V → Watched V
  without_pos v = record v { sensitive_pos = false }

  abbrev pub without_neg : Watched V → Watched V
  without_neg v = record v { sensitive_neg = false }

  abbrev pub is_falling : Watched V → Bool
  is_falling v = not v.sensitive_pos && v.sensitive_neg

  abbrev pub is_any : Watched V → Bool
  is_any v = not v.sensitive_pos && not v.sensitive_neg

  abbrev parted : List (Watched V) → Sensitivity V → Sensitivity V
  parted vs s = record {
    any = s.any ++ keep is_any vs;
    rising = s.rising ++ map without_pos (keep (λ v. v.sensitive_pos) vs);
    falling = s.falling ++ map without_neg (keep is_falling vs);
  }

  Sensitivity_eq :
      {s t : Sensitivity V} → s.any ≡ t.any → s.rising ≡ t.rising → s.falling ≡ t.falling → s ≡ t
  Sensitivity_eq a r f i = record { any = a i; rising = r i; falling = f i }

  -- One value goes to its list, whatever the lists are.
  placed :
      (vs : List (Watched V)) (v : Watched V) (s : Sensitivity V)
      → parted vs (
          if v.sensitive_pos
          then record s { rising = s.rising ++ record v { sensitive_pos = false } ∷ [] }
          else if v.sensitive_neg
          then record s { falling = s.falling ++ record v { sensitive_neg = false } ∷ [] }
          else record s { any = s.any ++ v ∷ [] })
        ≡ parted (v ∷ vs) s
  placed vs v s = go v.value v.sensitive_pos v.sensitive_neg
    where
      go :
          (value : V) (p n : Bool)
          → let v : Watched V = record { value = value; sensitive_pos = p; sensitive_neg = n } in
            parted vs (
              if p
              then record s { rising = s.rising ++ record v { sensitive_pos = false } ∷ [] }
              else if n
              then record s { falling = s.falling ++ record v { sensitive_neg = false } ∷ [] }
              else record s { any = s.any ++ v ∷ [] })
            ≡ parted (v ∷ vs) s
      go value true n = Sensitivity_eq refl (append_assoc s.rising _ _) refl
      go value false true = Sensitivity_eq refl refl (append_assoc s.falling _ _)
      go value false false = Sensitivity_eq (append_assoc s.any _ _) refl refl

  fix_sensitivity-parted :
      (vs : List (Watched V)) (s : Sensitivity V) → fix_sensitivity vs s ≡ parted vs s
  unfolding fix_sensitivity
  fix_sensitivity-parted [] s =
      Sensitivity_eq (sym (append-nil s.any)) (sym (append-nil s.rising))
        (sym (append-nil s.falling))
  fix_sensitivity-parted (v ∷ vs) s = fix_sensitivity-parted vs _ ∙ placed vs v s

  -- The loop parts the values by their edge: each goes to one list, in its order, and loses the
  -- property of the edge; a value with both edges counts as rising.
  pub fixed_sensitivity_lem :
      (vs : List (Watched V))
      → fixed_sensitivity vs ≡ record {
        any = keep is_any vs;
        rising = map without_pos (keep (λ v. v.sensitive_pos) vs);
        falling = map without_neg (keep is_falling vs);
      }
  unfolding fixed_sensitivity
  fixed_sensitivity_lem vs = fix_sensitivity-parted vs _
