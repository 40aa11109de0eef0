-- ===== src/Verilog/Initial/Tests.antt =====
-- A module with initial processes, and the instance of the theorem at it.
use hif_frontend.Common.{
  ℕ, ◌≡◌, refl, Bool, not, List, [], ◌∷◌, ◌++◌, if◌then◌else◌, length, all, ◌==◌, Bytes, codes,
  true, false,
}
use hif_frontend.Common.Sets.{is_empty}
use hif_frontend.Verilog.Initial.{
  StateTable, pf_hdl, pf_initial, collect_initial_processes, actions_of, fix_initial_processes,
}
use hif_frontend.Verilog.Initial.Parts.{other_processes, before_all}
use hif_frontend.Verilog.Initial.Conserved.{moved_all, fix_initial_processes_lem}

-- The action 9 is a wrong one.
abbrev is_nine : ℕ → Bool
is_nine a = a == 9

abbrev fresh : Bytes → Bytes
fresh s = s ++ codes "_0"

abbrev processes : List (StateTable ℕ)
processes =
    record { name = codes "p"; flavour = pf_hdl; dont_initialize = false; actions = 1 ∷ [] }
    ∷ record {
      name = codes "i";
      flavour = pf_initial;
      dont_initialize = false;
      actions = 2 ∷ 9 ∷ 3 ∷ [];
    }
    ∷ record { name = codes "j"; flavour = pf_initial; dont_initialize = false; actions = 4 ∷ [] }
    ∷ []

initial_actions :
    actions_of (collect_initial_processes (fix_initial_processes is_nine 0 fresh processes))
    ≡ 2 ∷ 4 ∷ []
unfolding fix_initial_processes
initial_actions = refl

fix_initial_processes_example :
    let result = fix_initial_processes is_nine 0 fresh processes in
    let initials = collect_initial_processes processes in
    (actions_of (collect_initial_processes result) ≡ before_all is_nine initials)
    × (all (λ a. not (is_nine a)) (actions_of (collect_initial_processes result)) ≡ true)
    × (length (collect_initial_processes result) ≡ (if is_empty initials then 0 else 1))
    × (other_processes result ≡ other_processes processes ++ moved_all is_nine 0 fresh initials)
fix_initial_processes_example = fix_initial_processes_lem is_nine 0 fresh processes
