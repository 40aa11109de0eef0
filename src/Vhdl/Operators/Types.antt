-- ===== src/Vhdl/Operators/Types.antt =====
-- The template parameters of an overload.
use hif_frontend.Common.{
  ◌≡◌, refl, sym, ap, ◌∙◌, inl, inr, true, false, none, some, List, [], ◌∷◌, ◌++◌, append-nil,
  append_assoc, Bytes, codes, text_eq, text_eq_refl, if◌then◌else◌, Bool-cases,
}
use hif_frontend.Common.Outcome.{Result, ok, ◌>>=◌, >>=-eq-ok}
use hif_frontend.Hif.{Value, identifier, Range, bounds, HifType, bitvector, unsigned, signed}
use hif_frontend.Vhdl.Operators.{
  Row, Function, Parameter, operator_name, span_at, add_template, make_type, make_param,
  make_return_type, parse_operator,
}

module _ {R : Type 0} where
  abbrev value_names : Value R → List Bytes
  value_names (identifier name) = name ∷ []
  value_names _ = []

  abbrev range_names : Range R → List Bytes
  range_names (bounds left direction right) = value_names left ++ value_names right
  range_names _ = []

  -- The names that a type's span refers to.
  abbrev pub type_names : HifType R → List Bytes
  type_names (bitvector logic resolved span) = range_names span
  type_names (unsigned (some span)) = range_names span
  type_names (signed (some span)) = range_names span
  type_names _ = []

  abbrev pub parameter_names : List (Parameter R) → List Bytes
  parameter_names [] = []
  parameter_names (p ∷ ps) = type_names p.type ++ parameter_names ps

  parameter_names-append :
      (ps qs : List (Parameter R))
      → parameter_names (ps ++ qs) ≡ parameter_names ps ++ parameter_names qs
  parameter_names-append [] qs = refl
  parameter_names-append (p ∷ ps) qs = simp (parameter_names-append ps qs, append_assoc)

module _ {R : Type 0} (integer : HifType R) (plain : type_names integer ≡ []) where
  -- `make_type` adds the names that the type it returns refers to.
  abbrev Makes : Function R → Bytes → Result (Function R × HifType R) → Type 0
  Makes sub place m =
      (sub' : Function R) (t : HifType R)
      → m ≡ ok (sub', t)
      → (sub'.template_parameters ≡ sub.template_parameters ++ type_names t)
        × (sub'.parameters ≡ sub.parameters)
        × (place ≡ codes "0" → type_names t ≡ [])

  scalar :
      (sub : Function R) (place : Bytes) (t : HifType R)
      → type_names t ≡ []
      → Makes sub place (ok (sub, t))
  scalar sub place t e sub' t' h = (cc (append-nil sub.template_parameters), cc, λ _. cc)

  ok-injective :
      {s s' : Function R} {t t' : HifType R}
      → ◌≡◌ {A = Result (Function R × HifType R)} (ok (s, t)) (ok (s', t'))
      → (s' ≡ s) × (t' ≡ t)
  ok-injective h = (cc, cc)

  template :
      (sub : Function R) (place : Bytes)
      → ((add_template integer place sub).template_parameters
          ≡ sub.template_parameters ++ range_names (span_at integer place))
        × ((add_template integer place sub).parameters ≡ sub.parameters)
        × (place ≡ codes "0" → range_names (span_at integer place) ≡ [])
  unfolding add_template span_at
  template sub place = elim (Bool-cases (text_eq place (codes "0"))) [
    | inl z ↦ (rw z (sym (append-nil sub.template_parameters)), rw z refl, λ _. rw z refl)
    | inr z ↦ (rw z refl, rw z refl, λ e. absurd (zero_place e z))
  ]
    where
      zero_place : place ≡ codes "0" → text_eq place (codes "0") ≡ false → ⊥
      zero_place e z = cc (text_eq_refl place, ap (text_eq place) e)

  vector :
      (sub : Function R) (place : Bytes) (f : Range R → HifType R)
      → ((span : Range R) → type_names (f span) ≡ range_names span)
      → Makes sub place (ok (add_template integer place sub, f (span_at integer place)))
  vector sub place f e sub' t h =
      let (names, same, none_at) = template sub place in
      let (p, q) = ok-injective h in
      (cc (e (span_at integer place)), cc, λ z. cc (none_at z, e (span_at integer place)))

  rung :
      (sub : Function R) (place type word : Bytes) {x y : Result (Function R × HifType R)}
      → Makes sub place x
      → Makes sub place y
      → Makes sub place (if text_eq type word then x else y)
  rung sub place type word {x} {y} h k = elim (Bool-cases (text_eq type word)) [
    | inl e ↦ rw e h
    | inr e ↦ rw e k
  ]

  make_type-Makes :
      (sub : Function R) (type place : Bytes) → Makes sub place (make_type integer sub type place)
  unfolding make_type
  make_type-Makes sub type place =
      rung sub place type (codes "signed")
        (vector sub place (λ span. signed (some span)) (λ _. refl))
        (rung sub place type (codes "unsigned")
          (vector sub place (λ span. unsigned (some span)) (λ _. refl))
          (rung sub place type (codes "integer") (scalar sub place integer plain) (
            rung sub place type (codes "natural") (scalar sub place integer plain) (
              rung sub place type (codes "std_logic_vector")
                (vector sub place (λ span. bitvector true true span) (λ _. refl))
                (rung sub place type (codes "std_ulogic_vector")
                  (vector sub place (λ span. bitvector true false span) (λ _. refl))
                  (rung sub place type (codes "std_logic") (scalar sub place _ refl) (
                    rung sub place type (codes "std_ulogic") (scalar sub place _ refl) (
                      rung sub place type (codes "boolean") (scalar sub place _ refl) (
                        rung sub place type (codes "ux01") (scalar sub place _ refl)
                          (λ sub' t h. absurd (cc)))))))))))

  -- A function whose template parameters are the names that its parameters refer to.
  abbrev IsClosed : Function R → Type 0
  IsClosed sub = sub.template_parameters ≡ parameter_names sub.parameters

  make_param-IsClosed :
      (sub sub' : Function R) (place type : Bytes)
      → IsClosed sub
      → make_param integer sub place type ≡ ok sub'
      → IsClosed sub'
  unfolding make_param
  make_param-IsClosed sub sub' place type c h =
      let ((s, t), e, f) = >>=-eq-ok (make_type integer sub type place) _ h in
      let (names, same, _) = make_type-Makes sub type place s t e in
      let p : Parameter R = record { name = codes "param" ++ place; type = t } in
      cc (parameter_names-append s.parameters (p ∷ []), append-nil (type_names t))

  typed :
      (sub s sub' : Function R) (t : HifType R)
      → IsClosed sub
      → s.template_parameters ≡ sub.template_parameters ++ type_names t
      → s.parameters ≡ sub.parameters
      → type_names t ≡ []
      → ok (record s { type = some t }) ≡ ok sub'
      → IsClosed sub' × ((t : HifType R) × (sub'.type ≡ some t) × (type_names t ≡ []))
  typed sub s sub' t c names same none_at f =
      let closed : IsClosed s =
        names
        ∙ ap (λ (xs : List Bytes). sub.template_parameters ++ xs) none_at
        ∙ append-nil sub.template_parameters
        ∙ c
        ∙ ap parameter_names (sym same) in
      (cc (f, closed), (t, cc f, none_at))

  make_return_type-IsClosed :
      (sub sub' : Function R) (type : Bytes)
      → IsClosed sub
      → make_return_type integer sub type ≡ ok sub'
      → IsClosed sub' × ((t : HifType R) × (sub'.type ≡ some t) × (type_names t ≡ []))
  unfolding make_return_type
  make_return_type-IsClosed sub sub' type c h =
      let ((s, t), e, f) = >>=-eq-ok (make_type integer sub type (codes "0")) _ h in
      let (names, same, none_at) = make_type-Makes sub type (codes "0") s t e in
      typed sub s sub' t c names same (none_at refl) f

  -- The template parameters of an overload are the names that the types of its parameters refer to,
  -- each once and in their order, so that a call determines them; its result is typed, by a type that
  -- refers to none. (The integer type of the library has no span with names.)
  pub parse_operator_lem :
      (row : Row) (sub : Function R)
      → parse_operator integer row ≡ ok sub
      → (sub.template_parameters ≡ parameter_names sub.parameters)
        × ((t : HifType R) × (sub.type ≡ some t) × (type_names t ≡ []))
  unfolding parse_operator
  parse_operator_lem row sub h =
      let (name, e, f) = >>=-eq-ok (operator_name row.op) _ h in
      let start : Function R = record {
        name = name;
        template_parameters = [];
        parameters = [];
        type = none;
      } in
      let (s, e1, f1) = >>=-eq-ok (make_param integer start (codes "1") row.param1) _ f in
      let c1 = make_param-IsClosed start s (codes "1") row.param1 refl e1 in
      go s row.param3 row.param3 c1 f1
    where
      go :
          (s : Function R) (p param3 : Bytes)
          → IsClosed s
          → elim p [
            | [] ↦ make_return_type integer s row.param2
            | _ ↦ (do
              s ← make_param integer s (codes "2") row.param2
              make_return_type integer s param3)
          ]
            ≡ ok sub
          → IsClosed sub × ((t : HifType R) × (sub.type ≡ some t) × (type_names t ≡ []))
      go s [] param3 c f = make_return_type-IsClosed s sub row.param2 c f
      go s (x ∷ xs) param3 c f =
          let (s2, e2, f2) = >>=-eq-ok (make_param integer s (codes "2") row.param2) _ f in
          make_return_type-IsClosed s2 sub param3
            (make_param-IsClosed s s2 (codes "2") row.param2 c e2) f2
