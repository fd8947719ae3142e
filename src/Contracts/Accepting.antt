-- ===== src/Contracts/Accepting.antt =====
-- What a contract that internal/contracts/validate.go accepts gives.
use api_x.Base.{
  ℕ, ◌+◌, Text, str, is_blank, Bool, true, false, ◌&&◌, not, Option, none, some, List, [], ◌∷◌,
  ◌++◌, any, ◌≡◌, refl, arith, All, Bool-cases, inl, inr, is_empty,
}
use api_x.Base.Maps.{Assoc, lookup, insert, lookup-insert}
use api_x.Base.Strings.{text_eq, trim_space, to_upper}
use api_x.Contracts.{
  is_some, check_endpoint, seen_with, must_be_current, Contract, Diagnostic, Endpoint, Message,
  Operation, Parameter, Patterns, add, at_index, at_least_one, check_auth, check_parameters,
  check_path_params, check_responses, defines, duplicates, is_path_param, is_required, key_of,
  must_be_one_of, must_be_true, one_of, unsupported_method, valid_json_types, valid_methods,
  valid_param_in, validate, validate_endpoints, validate_operations,
}

append_none : {A : Type 0} (xs ys : List A) → xs ++ ys ≡ [] → (xs ≡ []) × (ys ≡ [])
append_none [] ys h = (refl, h)
append_none (x ∷ xs) ys h = absurd (ground arith)

add_none :
    (b : Bool) (p : Text) (m : Message) (rest : List Diagnostic)
    → add b p m ++ rest ≡ []
    → (b ≡ false) × (rest ≡ [])
unfolding add
add_none b p m rest h = ground arith

-- No two endpoints have the same path.
abbrev pub Distinct : List Endpoint → Type 0
Distinct [] = Unit
Distinct (ep ∷ eps) = All (λ e. text_eq ep.path e.path ≡ false) eps × Distinct eps

-- A required path parameter of a name stands among the parameters.
abbrev pub defines_required : Text → List Parameter → Bool
defines_required name ps = any (λ p. is_path_param p && p.required && text_eq p.name name) ps

-- Every operation of an endpoint defines every parameter in its path as a required path parameter.
abbrev pub Defined : Patterns → Endpoint → Type 0
Defined pat ep =
    All (λ o. All (λ name. defines_required name o.1.parameters ≡ true) (pat.path_params ep.path))
      ep.operations

either_required :
    (p : Parameter) (name : Text) (ps : List Parameter)
    → (is_path_param p && not p.required) ≡ false
    → defines (p ∷ ps) name ≡ true
    → (defines ps name ≡ true → defines_required name ps ≡ true)
    → defines_required name (p ∷ ps) ≡ true
either_required p name ps e d later = grind (arith, later)

required_ones :
    (op_path name : Text) (i : ℕ) (seen : List Text) (ps : List Parameter)
    → check_parameters op_path i seen ps ≡ []
    → defines ps name ≡ true
    → defines_required name ps ≡ true
unfolding check_parameters
required_ones op_path name i seen [] h d = ground arith
required_ones op_path name i seen (p ∷ ps) h d =
    let (e1, h1) =
      add_none (is_blank (trim_space p.name))
        (at_index (op_path ++ str ".parameters") i ++ str ".name") is_required _ h in
    let (e2, h2) =
      add_none (not (one_of valid_param_in p.location))
        (at_index (op_path ++ str ".parameters") i ++ str ".in") must_be_one_of _ h1 in
    let (e3, h3) =
      add_none (not (one_of valid_json_types p.schema_type))
        (at_index (op_path ++ str ".parameters") i ++ str ".schema.type") must_be_one_of _ h2 in
    let (e4, h4) =
      add_none (one_of seen (key_of p)) (at_index (op_path ++ str ".parameters") i) duplicates _
        h3 in
    let (e5, h5) =
      add_none _ (at_index (op_path ++ str ".parameters") i ++ str ".required") must_be_true _ h4 in
    either_required p name ps e5 d (required_ones op_path name (i + 1) (key_of p ∷ seen) ps h5)

path_params_defined :
    (op_path : Text) (ps : List Parameter) (names : List Text)
    → ((name : Text) → defines ps name ≡ true → defines_required name ps ≡ true)
    → check_path_params op_path ps names ≡ []
    → All (λ name. defines_required name ps ≡ true) names
unfolding check_path_params
path_params_defined op_path ps [] required h = tt
path_params_defined op_path ps (name ∷ names) required h =
    ground (arith, required name, path_params_defined op_path ps names required)

not_some : {A : Type 0} (o : Option A) → is_some o ≡ false → o ≡ none
not_some none h = refl
not_some (some a) h = absurd (ground arith)

seen_fresh :
    (path : Text) (i : ℕ) (seen : Assoc ℕ)
    → lookup path seen ≡ none
    → seen_with path i seen ≡ insert path i seen
seen_fresh path i seen h = rw (h)

fresh_split :
    (path : Text) (i : ℕ) (seen : Assoc ℕ) (eps : List Endpoint)
    → All (λ e. lookup e.path (insert path i seen) ≡ none) eps
    → All (λ e. text_eq path e.path ≡ false) eps × All (λ e. lookup e.path seen ≡ none) eps
fresh_split path i seen [] h = (tt, tt)
fresh_split path i seen (e ∷ eps) (h, hs) =
    let (ne, old) = fresh_split path i seen eps hs in
    (
      (ground (arith, lookup-insert path e.path i seen), ne),
      (ground (arith, lookup-insert path e.path i seen), old),
    )

module _ (pat : Patterns) where
  operations_defined :
      (base path : Text) (ops : Assoc Operation)
      → validate_operations pat base path ops ≡ []
      → All
          (λ o. All (λ name. defines_required name o.1.parameters ≡ true) (pat.path_params path))
          ops
  unfolding validate_operations
  operations_defined base path [] h = tt
  operations_defined base path ((method, op) ∷ rest) h =
      let op_path = base ++ str ".operations." ++ method in
      let h3 =
        (add_none (is_empty op.responses) (base ++ str ".operations." ++ method ++ str ".responses")
          at_least_one _
          (add_none
            (not (is_blank (to_upper (trim_space method)))
              && not (one_of valid_methods (to_upper (trim_space method))))
            (base ++ str ".operations." ++ method) unsupported_method _
            (add_none (is_blank (to_upper (trim_space method)))
              (base ++ str ".operations." ++ method) is_required _ h).1).1).1 in
      let h4 = (append_none (check_responses pat op_path op.responses) _ h3).1 in
      let (params, h5) = append_none (check_parameters op_path 0 [] op.parameters) _ h4 in
      let (names, h6) =
        append_none (check_path_params op_path op.parameters (pat.path_params path)) _ h5 in
      let (auth, later) = append_none (check_auth op_path 0 op.auth) _ h6 in
      (
        path_params_defined op_path op.parameters (pat.path_params path)
            (λ name. required_ones op_path name 0 [] op.parameters params) names,
        operations_defined base path rest later,
      )

  endpoint_sound :
      (base : Text) (seen : Assoc ℕ) (ep : Endpoint)
      → check_endpoint pat base seen ep ≡ []
      → (lookup ep.path seen ≡ none) × Defined pat ep
  unfolding check_endpoint
  endpoint_sound base seen ep h =
      let h1 = (add_none _ _ _ _ h).1 in
      let (fresh, h2) = add_none _ _ _ _ h1 in
      let ops = (add_none _ _ _ _ h2).1 in
      (not_some (lookup ep.path seen) fresh, operations_defined base ep.path ep.operations ops)

  endpoints_sound :
      (i : ℕ) (seen : Assoc ℕ) (eps : List Endpoint)
      → validate_endpoints pat i seen eps ≡ []
      → All (λ e. lookup e.path seen ≡ none) eps × Distinct eps × All (Defined pat) eps
  unfolding validate_endpoints
  endpoints_sound i seen [] h = (tt, tt, tt)
  endpoints_sound i seen (ep ∷ eps) h = elim (Bool-cases (is_blank (trim_space ep.path))) [
    | inl blank ↦ absurd (ground arith)
    | inr named ↦
        let base = at_index (str "endpoints") i in
        let (here, later) =
          append_none (check_endpoint pat base seen ep)
            (validate_endpoints pat (i + 1) (seen_with ep.path i seen) eps) (rw (named) at h) in
        let (fresh, ops) = endpoint_sound base seen ep here in
        let (unseen, rest, defined) =
          endpoints_sound (i + 1) (seen_with ep.path i seen) eps later in
        let (ne, old) =
          fresh_split ep.path i seen eps (rw (seen_fresh ep.path i seen fresh) at unseen) in
        ((fresh, old), (ne, rest), (ops, defined))
  ]

  -- In an accepted contract no two endpoints have the same path, and every operation defines every
  -- parameter in the path of its endpoint as a required path parameter.
  pub accepted_contract :
      (c : Contract) → validate pat c ≡ [] → Distinct c.endpoints × All (Defined pat) c.endpoints
  unfolding validate
  accepted_contract c h =
      let h5 =
        (add_none (is_empty c.endpoints) (str "endpoints") at_least_one _
          (add_none (is_blank (trim_space c.version)) (str "info.version") is_required _
            (add_none (is_blank (trim_space c.title)) (str "info.title") is_required _
              (add_none
                (not (is_blank (trim_space c.schema_version))
                  && not (text_eq c.schema_version (str "apix.contract/v1")))
                (str "schema_version") must_be_current _
                (add_none (is_blank (trim_space c.schema_version)) (str "schema_version")
                  is_required _ h).1).1).1).1).1 in
      let (unseen, rest, defined) = endpoints_sound 0 [] c.endpoints h5 in (rest, defined)
