-- ===== src/Verilog/ModuleItems/Tests.antt =====
-- The declarations `reg [..] q = 1; reg r;` in a unit with the port `q`.
use hif_frontend.Common.{ℕ, ◌≡◌, refl, true, none, some, List, [], ◌∷◌, Bytes, codes, text_eq}
use hif_frontend.Common.Outcome.{ok}
use hif_frontend.Verilog.ModuleItems.{
  Declared, ItemDeclaration, Contents, declaration_list, manage_module_item_declarations,
}
use hif_frontend.Verilog.ModuleItems.Conserved.{Sorts, manage_module_item_declarations_lem}

abbrev q : Declared ℕ
q = record { name = codes "q"; is_signal = true; value = some 1 }

abbrev r : Declared ℕ
r = record { name = codes "r"; is_signal = true; value = none }

abbrev registers : ItemDeclaration ℕ ℕ
registers = record {
  event_declaration = none;
  function_declaration = none;
  genvar_declaration = none;
  integer_declaration = none;
  net_declaration = none;
  real_declaration = none;
  realtime_declaration = none;
  reg_declaration = some (q ∷ r ∷ []);
  branch_declaration = none;
  task_declaration = none;
  time_declaration = none;
  generate_declaration = none;
}

abbrev no_contents : Contents ℕ ℕ
no_contents = record { generates = []; declarations = []; assigns = [] }

manage_module_item_declarations_example :
    (ds : List (Declared ℕ)) × (assigns : List (Bytes × ℕ)) × (manage_module_item_declarations none
        (some (codes "q" ∷ [], no_contents))
        registers
      ≡ ok (record { generates = []; declarations = ds; assigns = assigns }))
    × Sorts (codes "q" ∷ []) (q ∷ r ∷ []) ds assigns
unfolding text_eq declaration_list
manage_module_item_declarations_example =
    manage_module_item_declarations_lem (codes "q" ∷ []) none no_contents registers (q ∷ r ∷ [])
      refl
