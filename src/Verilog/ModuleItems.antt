-- ===== src/Verilog/ModuleItems.antt =====
-- `_manageModuleItemDeclarations` of src/verilog2hif/verilog_parser_extension.cpp: where the
-- declarations of a module item go.
pub mod Conserved
mod Tests
use hif_frontend.Common.{
  Bool, true, false, not, ◌&&◌, ◌||◌, Option, none, some, List, [], ◌∷◌, ◌++◌, Bytes, if◌then◌else◌,
  text_eq,
}
use hif_frontend.Common.Outcome.{Result, ok, err, fatal}

-- A declaration: its name, whether it is a signal, and its value.
pub record Declared (V : Type 0) : Type 0 where
  pub name : Bytes
  pub is_signal : Bool
  pub value : Option V

-- `module_or_generate_item_declaration_t`, with `none` for `nullptr`.
pub record ItemDeclaration (V G : Type 0) : Type 0 where
  pub event_declaration : Option (List (Declared V))
  pub function_declaration : Option (Declared V)
  pub genvar_declaration : Option (List (Declared V))
  pub integer_declaration : Option (List (Declared V))
  pub net_declaration : Option (List (Declared V))
  pub real_declaration : Option (List (Declared V))
  pub realtime_declaration : Option (List (Declared V))
  pub reg_declaration : Option (List (Declared V))
  pub branch_declaration : Option (List (Declared V))
  pub task_declaration : Option (Declared V)
  pub time_declaration : Option (List (Declared V))
  pub generate_declaration : Option (List G)

-- The contents: the generates, the declarations, and the assignments of the global action, by the name
-- of their target.
pub record Contents (V G : Type 0) : Type 0 where
  pub generates : List G
  pub declarations : List (Declared V)
  pub assigns : List (Bytes × V)

abbrev pub or_else : {A : Type 0} → Option A → Option A → Option A
or_else (some a) other = some a
or_else none other = other

abbrev pub singleton : {A : Type 0} → Option A → Option (List A)
singleton none = none
singleton (some a) = some (a ∷ [])

-- The ladder over the fields but the last.
unfoldable pub declaration_list : {V G : Type 0} → ItemDeclaration V G → Option (List (Declared V))
declaration_list decls = or_else decls.event_declaration (
    or_else (singleton decls.function_declaration) (
      or_else decls.genvar_declaration (
        or_else decls.integer_declaration (
          or_else decls.net_declaration (
            or_else decls.real_declaration (
              or_else decls.realtime_declaration (
                or_else decls.reg_declaration (
                  or_else decls.branch_declaration
                    (or_else (singleton decls.task_declaration) decls.time_declaration)))))))))

-- A port has the name; without an entity there are no ports.
abbrev pub is_port : Bytes → List Bytes → Bool
is_port name [] = false
is_port name (port ∷ ports) = text_eq name port || is_port name ports

abbrev pub assign_value : {V : Type 0} → Declared V → List (Bytes × V)
assign_value decl = elim decl.value [
  | none ↦ []
  | some v ↦ if decl.is_signal then (decl.name, v) ∷ [] else []
]

unfoldable pub declare_loop :
    {V G : Type 0} → List Bytes → List (Declared V) → Contents V G → Contents V G
declare_loop ports [] contents = contents
declare_loop ports (decl ∷ decls) contents =
    if is_port decl.name ports
    then declare_loop ports decls (record {
      generates = contents.generates;
      declarations = contents.declarations;
      assigns = contents.assigns ++ assign_value decl;
    })
    else declare_loop ports decls (record {
      generates = contents.generates;
      declarations = contents.declarations ++ (decl ∷ []);
      assigns = contents.assigns;
    })

abbrev pub add_generates : {V G : Type 0} → Option (List G) → Contents V G → Contents V G
add_generates none contents = contents
add_generates (some generates) contents = record {
  generates = contents.generates ++ generates;
  declarations = contents.declarations;
  assigns = contents.assigns;
}

abbrev pub declare_or_generate :
    {V G : Type 0}
    → List Bytes
    → Option (List (Declared V))
    → Option (List G)
    → Contents V G
    → Contents V G
declare_or_generate ports none generates contents = add_generates generates contents
declare_or_generate ports (some decls) generates contents = declare_loop ports decls contents

-- The contents of the unit, or the ones given, with the ports of the entity of the unit. The declaration
-- is that of a release build, which goes on where no field is set.
unfoldable pub manage_module_item_declarations :
    {V G : Type 0}
    → Option (Contents V G)
    → (design_unit : Option (List Bytes × Contents V G)) → ItemDeclaration V G
    → Result (Contents V G)
unfolding declaration_list declare_loop
manage_module_item_declarations none none decls = err (fatal "Wrong parameters")
manage_module_item_declarations (some contents) none decls =
    ok (declare_or_generate [] (declaration_list decls) decls.generate_declaration contents)
manage_module_item_declarations given (some (ports, contents)) decls =
    ok (declare_or_generate ports (declaration_list decls) decls.generate_declaration contents)
