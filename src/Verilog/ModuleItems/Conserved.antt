-- ===== src/Verilog/ModuleItems/Conserved.antt =====
-- No declaration of a module item is lost, other than those that repeat a port.
use hif_frontend.Common.{
  ◌≡◌, refl, ap, ◌∙◌, ◌⊎◌, Bool, true, false, not, Option, none, some, List, [], ◌∷◌, ◌++◌,
  append-nil, append_assoc, Bytes, if◌then◌else◌, Bool-cases, inl, inr, keep, text_eq, text_eq-eq,
  text_eq_refl,
}
use hif_frontend.Common.Outcome.{ok}
use hif_frontend.Verilog.ModuleItems.{
  Declared, ItemDeclaration, Contents, declaration_list, is_port, assign_value, declare_loop,
  manage_module_item_declarations,
}

-- A port has the name.
abbrev pub IsPort : Bytes → List Bytes → Type 0
IsPort name [] = ⊥
IsPort name (port ∷ ports) = (name ≡ port) ⊎ IsPort name ports

is_port-IsPort : (name : Bytes) (ports : List Bytes) → is_port name ports ≡ true → IsPort name ports
is_port-IsPort name [] h = cc
is_port-IsPort name (port ∷ ports) h = elim (Bool-cases (text_eq name port)) [
  | inl e ↦ inl (text_eq-eq name port e)
  | inr e ↦ inr (is_port-IsPort name ports (rw e at h))
]

not_port : (name : Bytes) (ports : List Bytes) → is_port name ports ≡ false → IsPort name ports → ⊥
not_port name [] h o = absurd o
not_port name (port ∷ ports) h (inl e) = let k = text_eq_refl name in cc (rw (← e, k) at h)
not_port name (port ∷ ports) h (inr o) = elim (Bool-cases (text_eq name port)) [
  | inl e ↦ cc (rw e at h)
  | inr e ↦ not_port name ports (rw e at h) o
]

-- What the declarations of an item leave: the declarations that are kept, and the assignments.
pub data Sorts {V : Type 0} (ports : List Bytes)
    : List (Declared V) → List (Declared V) → List (Bytes × V) → Type 0 where
  none_left : Sorts ports [] [] []
  -- A name that no port has.
  kept :
      (decl : Declared V) (decls ds : List (Declared V)) (assigns : List (Bytes × V))
      → (IsPort decl.name ports → ⊥)
      → Sorts ports decls ds assigns
      → Sorts ports (decl ∷ decls) (decl ∷ ds) assigns
  -- A signal with a value, of the name of a port.
  assigned :
      (decl : Declared V) (v : V) (decls ds : List (Declared V)) (assigns : List (Bytes × V))
      → IsPort decl.name ports
      → decl.is_signal ≡ true
      → decl.value ≡ some v
      → Sorts ports decls ds assigns
      → Sorts ports (decl ∷ decls) ds ((decl.name, v) ∷ assigns)
  -- Any other declaration of the name of a port.
  dropped :
      (decl : Declared V) (decls ds : List (Declared V)) (assigns : List (Bytes × V))
      → IsPort decl.name ports
      → (decl.is_signal ≡ false) ⊎ (decl.value ≡ none)
      → Sorts ports decls ds assigns
      → Sorts ports (decl ∷ decls) ds assigns

module _ {V : Type 0} (ports : List Bytes) where
  abbrev is_new : Declared V → Bool
  is_new decl = not (is_port decl.name ports)

  -- The assignments that the loop makes, in order.
  abbrev port_assigns : List (Declared V) → List (Bytes × V)
  port_assigns [] = []
  port_assigns (decl ∷ decls) =
      (if is_port decl.name ports then assign_value decl else []) ++ port_assigns decls

  port_step :
      (decl : Declared V) (decls ds : List (Declared V)) (assigns : List (Bytes × V))
      → IsPort decl.name ports
      → Sorts ports decls ds assigns
      → Sorts ports (decl ∷ decls) ds (assign_value decl ++ assigns)
  port_step decl decls ds assigns m rest = go decl.value decl.is_signal refl refl
    where
      go :
          (o : Option V) (b : Bool)
          → decl.value ≡ o
          → decl.is_signal ≡ b
          → Sorts ports
              (decl ∷ decls)
              ds
              (elim o [ none ↦ [] | some v ↦ if b then (decl.name, v) ∷ [] else [] ] ++ assigns)
      go none b e s = dropped decl decls ds assigns m (inr e) rest
      go (some v) true e s = assigned decl v decls ds assigns m s e rest
      go (some v) false e s = dropped decl decls ds assigns m (inl s) rest

  sorted : (decls : List (Declared V)) → Sorts ports decls (keep is_new decls) (port_assigns decls)
  sorted [] = none_left
  sorted (decl ∷ decls) = elim (Bool-cases (is_port decl.name ports)) [
    | inl e ↦ rw e (
        port_step decl decls (keep is_new decls) (port_assigns decls)
          (is_port-IsPort decl.name ports e) (sorted decls))
    | inr e ↦ rw e (
        kept decl decls (keep is_new decls) (port_assigns decls) (not_port decl.name ports e)
          (sorted decls))
  ]

module _ {V G : Type 0} (ports : List Bytes) where
  -- The contents with more declarations and assignments.
  abbrev pub extended : List (Declared V) → List (Bytes × V) → Contents V G → Contents V G
  extended ds assigns contents = record {
    generates = contents.generates;
    declarations = contents.declarations ++ ds;
    assigns = contents.assigns ++ assigns;
  }

  -- The contents from their parts, for equations on them.
  abbrev parts : List G → List (Declared V) → List (Bytes × V) → Contents V G
  parts generates declarations assigns = record {
    generates = generates;
    declarations = declarations;
    assigns = assigns;
  }

  declare_loop-parts :
      (decls : List (Declared V)) (g : List G) (ds : List (Declared V))
      (as_so_far : List (Bytes × V))
      → declare_loop ports decls (parts g ds as_so_far)
        ≡ parts g (ds ++ keep (is_new ports) decls) (as_so_far ++ port_assigns ports decls)
  unfolding declare_loop
  declare_loop-parts [] g ds a = rw (append-nil ds, append-nil a) refl
  declare_loop-parts (decl ∷ decls) g ds a = elim (Bool-cases (is_port decl.name ports)) [
    | inl e ↦ rw e (
        declare_loop-parts decls g ds (a ++ assign_value decl)
        ∙ ap (parts g (ds ++ keep (is_new ports) decls))
            (append_assoc a (assign_value decl) (port_assigns ports decls)))
    | inr e ↦ rw e (
        declare_loop-parts decls g (ds ++ (decl ∷ [])) a
        ∙ ap (λ x. parts g x (a ++ port_assigns ports decls))
            (append_assoc ds (decl ∷ []) (keep (is_new ports) decls)))
  ]

  -- In a unit with an entity, the declarations of an item that has some go, in their order, behind the
  -- declarations of the contents, other than those with the name of a port. Of the latter, each signal
  -- that has a value leaves an assignment of the value behind the assignments, in their order, and
  -- the others leave nothing.
  pub manage_module_item_declarations_lem :
      (given : Option (Contents V G)) (contents : Contents V G) (item : ItemDeclaration V G)
      (decls : List (Declared V))
      → declaration_list item ≡ some decls
      → (ds : List (Declared V)) × (assigns : List (Bytes × V)) × (manage_module_item_declarations
            given
            (some (ports, contents))
            item
          ≡ ok (extended ds assigns contents))
        × Sorts ports decls ds assigns
  unfolding manage_module_item_declarations
  manage_module_item_declarations_lem given contents item decls h =
      (keep (is_new ports) decls, port_assigns ports decls, go given, sorted ports decls)
    where
      go :
          (given : Option (Contents V G))
          → manage_module_item_declarations given (some (ports, contents)) item
            ≡ ok (extended (keep (is_new ports) decls) (port_assigns ports decls) contents)
      go none = rw h (
          ap ok
            (declare_loop-parts decls contents.generates contents.declarations contents.assigns))
      go (some c) = rw h (
          ap ok
            (declare_loop-parts decls contents.generates contents.declarations contents.assigns))
