-- ===== src/Vhdl/Operators/Standard/Added.antt =====
-- What the visitor declares in each library.
use hif_frontend.Common.{
  ℕ, suc, ◌≡◌, refl, sym, ap, ◌∙◌, Bool, true, false, List, [], ◌∷◌, ◌++◌, append-nil, append_assoc,
  Bytes, text_eq, if◌then◌else◌, all,
}
use hif_frontend.Common.Outcome.{Error, Result, ok, err}
use hif_frontend.Hif.{HifType}
use hif_frontend.Vhdl.Operators.{Row, Function, parse_operator}
use hif_frontend.Vhdl.Operators.Tables.{rows_of, rows_of_all}
use hif_frontend.Vhdl.Operators.Tables.NumericStd.{numeric_std}
use hif_frontend.Vhdl.Operators.Tables.StdLogicArith.{std_logic_arith}
use hif_frontend.Vhdl.Operators.Tables.StdLogic.{std_logic_1164, std_logic_arith_ex}
use hif_frontend.Vhdl.Operators.Tables.NumericBit.{numeric_bit}
use hif_frontend.Vhdl.Operators.Tables.StdLogicSigned.{std_logic_signed, std_logic_unsigned}
use hif_frontend.Vhdl.Operators.Standard.{
  Declaration, overload, LibraryDef, Visitor, insert_operator, insert_operators,
  add_standard_operator_overloads,
}

-- The set and the address after a table.
abbrev pub after : List Row → Visitor → Visitor
after [] visitor = visitor
after (row ∷ rows) visitor =
    after rows (record { operators = visitor.next ∷ visitor.operators; next = suc visitor.next })

module _ {R : Type 0} (integer : HifType R) where
  abbrev parses : Row → Bool
  parses row = elim (parse_operator integer row) [ ok sub ↦ true | err e ↦ false ]

  abbrev Parses : List Row → Type 0
  Parses rows = all parses rows ≡ true

  numeric_std_lem : Parses numeric_std
  unfolding parse_operator text_eq
  numeric_std_lem = refl

  std_logic_arith_lem : Parses std_logic_arith
  unfolding parse_operator text_eq
  std_logic_arith_lem = refl

  std_logic_1164_lem : Parses std_logic_1164
  unfolding parse_operator text_eq
  std_logic_1164_lem = refl

  std_logic_arith_ex_lem : Parses std_logic_arith_ex
  unfolding parse_operator text_eq
  std_logic_arith_ex_lem = refl

  numeric_bit_lem : Parses numeric_bit
  unfolding parse_operator text_eq
  numeric_bit_lem = refl

  std_logic_signed_lem : Parses std_logic_signed
  unfolding parse_operator text_eq
  std_logic_signed_lem = refl

  std_logic_unsigned_lem : Parses std_logic_unsigned
  unfolding parse_operator text_eq
  std_logic_unsigned_lem = refl

  rows_of_lem : (name : Bytes) → Parses (rows_of name)
  rows_of_lem =
      rows_of_all Parses numeric_std_lem std_logic_arith_lem std_logic_1164_lem
        std_logic_arith_ex_lem numeric_bit_lem std_logic_signed_lem std_logic_unsigned_lem refl

  module _ {D : Type 0} where
    -- The overloads that a table gives, at addresses from `start` on.
    pub data Overloads : List Row → ℕ → List (Declaration D R) → Type 0 where
      none : {start : ℕ} → Overloads [] start []
      next :
          {row : Row} {rows : List Row} {start : ℕ} {sub : Function R} {ds : List (Declaration D R)}
          → parse_operator integer row ≡ ok sub
          → Overloads rows (suc start) ds
          → Overloads (row ∷ rows) start (overload start sub ∷ ds)

    insert_operators_cons :
        (row : Row) (rows : List Row) (visitor : Visitor) (ld : LibraryDef D R) (sub : Function R)
        → parse_operator integer row ≡ ok sub
        → insert_operators integer (row ∷ rows) visitor ld
          ≡ insert_operators integer rows
              (record { operators = visitor.next ∷ visitor.operators; next = suc visitor.next })
              (record ld { declarations = ld.declarations ++ overload visitor.next sub ∷ [] })
    unfolding insert_operators insert_operator
    insert_operators_cons row rows visitor ld sub e = rw e refl

    insert_operators_nil :
        (visitor : Visitor) (ld : LibraryDef D R)
        → insert_operators integer [] visitor ld
          ≡ ok (visitor, record ld { declarations = ld.declarations ++ [] })
    unfolding insert_operators
    insert_operators_nil visitor ld =
        ap (λ ds. ok (visitor, record ld { declarations = ds })) (sym (append-nil ld.declarations))

    pub insert_operators_lem :
        (rows : List Row) (visitor : Visitor) (ld : LibraryDef D R)
        → Parses rows
        → (new : List (Declaration D R)) × (insert_operators integer rows visitor ld
            ≡ ok (after rows visitor, record ld { declarations = ld.declarations ++ new }))
          × Overloads rows visitor.next new
    insert_operators_lem [] visitor ld h = ([], insert_operators_nil visitor ld, none)
    insert_operators_lem (row ∷ rows) visitor ld h =
        let (sub, e, hs) = row_parses (parse_operator integer row) refl h in
        let (new, es, os) =
          insert_operators_lem rows
            (record { operators = visitor.next ∷ visitor.operators; next = suc visitor.next })
            (record ld { declarations = ld.declarations ++ overload visitor.next sub ∷ [] }) hs in
        (
          overload visitor.next sub ∷ new,
          insert_operators_cons row rows visitor ld sub e
              ∙ es
              ∙ ap (λ ds. ok (after (row ∷ rows) visitor, record ld { declarations = ds }))
                  (append_assoc ld.declarations (overload visitor.next sub ∷ []) new),
          next e os,
        )
      where
        fails :
            (m : Result (Function R)) (x : Error) (b : Bool)
            → m ≡ err x
            → (if (elim m [ ok sub ↦ true | err e ↦ false ]) then b else false) ≡ true
            → ⊥
        fails m x b e h = cc (rw e at h)

        row_parses :
            (m : Result (Function R))
            → parse_operator integer row ≡ m
            → all parses (row ∷ rows) ≡ true
            → (sub : Function R) × (parse_operator integer row ≡ ok sub) × (all parses rows ≡ true)
        row_parses (ok sub) e h = (sub, e, rw (parses, e) at h)
        row_parses (err x) e h = absurd (fails (parse_operator integer row) x _ e h)

    -- A library gets, behind its own declarations, exactly the overloads that the table of its name
    -- lists, in their order and at new addresses; a library that is not standard, or that has
    -- another name than the seven, gets none. No table has an operator or a type that
    -- `_parseOperator` refuses.
    pub add_standard_operator_overloads_lem :
        (visitor : Visitor) (ld : LibraryDef D R)
        → (rows : List Row) × (new : List (Declaration D R)) × (rows
            ≡ (if ld.is_standard then rows_of ld.name else []))
          × (add_standard_operator_overloads integer visitor ld
              ≡ ok (after rows visitor, record ld { declarations = ld.declarations ++ new }))
          × Overloads rows visitor.next new
    add_standard_operator_overloads_lem visitor ld = go ld.name ld.is_standard ld.declarations
      where
        go :
            (name : Bytes) (is_standard : Bool) (declarations : List (Declaration D R))
            → let ld : LibraryDef D R = record {
              name = name;
              is_standard = is_standard;
              declarations = declarations;
            } in
              (rows : List Row) × (new : List (Declaration D R)) × (rows
                ≡ (if is_standard then rows_of name else []))
              × (add_standard_operator_overloads integer visitor ld
                  ≡ ok (after rows visitor, record ld { declarations = declarations ++ new }))
              × Overloads rows visitor.next new
        go name true declarations =
            let ld : LibraryDef D R = record {
              name = name;
              is_standard = true;
              declarations = declarations;
            } in
            let (new, es, os) = insert_operators_lem (rows_of name) visitor ld (rows_of_lem name) in
            (rows_of name, new, refl, unfold add_standard_operator_overloads in es, os)
        go name false declarations = (
          [],
          [],
          refl,
          unfold add_standard_operator_overloads in rw (append-nil declarations) refl,
          none,
        )
