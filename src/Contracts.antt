-- ===== src/Contracts.antt =====
-- internal/contracts: model.go and validate.go, the checks of an API contract. The fields that no check
-- reads are left out, and so is the sorting of the diagnostics, which `Validate` ends with. The two
-- regular expressions are parameters.
pub mod Accepting
mod Examples
use api_x.Base.{
  ℕ, ◌+◌, Text, str, is_blank, Bool, true, false, ◌&&◌, not, Option, none, some, List, [], ◌∷◌,
  ◌++◌, any, is_empty, if◌then◌else◌,
}
use api_x.Base.Maps.{Assoc, lookup, insert}
use api_x.Base.Strings.{text_eq, has_prefix, trim_space, to_upper, itoa}

pub record Parameter : Type 0 where
  pub name : Text
  pub location : Text  -- `In`
  pub required : Bool
  pub schema_type : Text

-- A response is known by its description, and an authentication by its type.
pub record Operation : Type 0 where
  pub parameters : List Parameter
  pub responses : Assoc Text
  pub auth : List Text

pub record Endpoint : Type 0 where
  pub path : Text
  pub operations : Assoc Operation

pub record Contract : Type 0 where
  pub schema_version : Text
  pub title : Text
  pub version : Text
  pub endpoints : List Endpoint

-- The names that `pathParamPattern` finds in a path, and the test of `statusCodeRegex`.
pub record Patterns : Type 0 where
  pub path_params : Text → List Text
  pub is_status_code : Text → Bool

pub data Message : Type 0 where
  is_required must_be_current at_least_one must_start_with_slash duplicates unsupported_method :
      Message
  bad_status_code must_be_one_of must_be_true missing_path_parameter : Message

pub record Diagnostic : Type 0 where
  pub path : Text
  pub message : Message

unfoldable pub add : Bool → Text → Message → List Diagnostic
add test path message = if test then record { path = path; message = message } ∷ [] else []

abbrev pub one_of : List Text → Text → Bool
one_of words s = any (λ w. text_eq w s) words

abbrev pub valid_methods : List Text
valid_methods =
    str "GET"
    ∷ str "POST"
    ∷ str "PUT"
    ∷ str "PATCH"
    ∷ str "DELETE"
    ∷ str "HEAD"
    ∷ str "OPTIONS"
    ∷ []

abbrev pub valid_param_in : List Text
valid_param_in = str "path" ∷ str "query" ∷ str "header" ∷ str "cookie" ∷ []

abbrev pub valid_json_types : List Text
valid_json_types =
    str "string" ∷ str "integer" ∷ str "number" ∷ str "boolean" ∷ str "object" ∷ str "array" ∷ []

abbrev pub valid_auth_types : List Text
valid_auth_types = str "none" ∷ str "apiKey" ∷ str "http" ∷ str "oauth2" ∷ str "mtls" ∷ []

abbrev pub at_index : Text → ℕ → Text
at_index base i = base ++ str "[" ++ itoa i ++ str "]"

-- The loop over the responses, in the order of the range loop.
unfoldable pub check_responses : Patterns → Text → Assoc Text → List Diagnostic
unfolding text_eq trim_space add
check_responses pat op_path [] = []
check_responses pat op_path ((code, description) ∷ rest) =
    let resp_path = op_path ++ str ".responses." ++ code in
    add (not (text_eq code (str "default")) && not (pat.is_status_code code)) resp_path
      bad_status_code
    ++ add (is_blank (trim_space description)) (resp_path ++ str ".description") is_required
    ++ check_responses pat op_path rest

abbrev pub is_path_param : Parameter → Bool
is_path_param p = text_eq p.location (str "path")

abbrev pub key_of : Parameter → Text
key_of p = p.location ++ str ":" ++ p.name

-- The loop over the parameters, with those seen before.
unfoldable pub check_parameters : Text → ℕ → List Text → List Parameter → List Diagnostic
unfolding text_eq trim_space itoa add
check_parameters op_path i seen [] = []
check_parameters op_path i seen (p ∷ ps) =
    let param_path = at_index (op_path ++ str ".parameters") i in
    add (is_blank (trim_space p.name)) (param_path ++ str ".name") is_required
    ++ (add (not (one_of valid_param_in p.location)) (param_path ++ str ".in") must_be_one_of
        ++ (add (not (one_of valid_json_types p.schema_type)) (param_path ++ str ".schema.type")
              must_be_one_of
            ++ (add (one_of seen (key_of p)) param_path duplicates
                ++ (add (is_path_param p && not p.required) (param_path ++ str ".required")
                      must_be_true
                    ++ check_parameters op_path (i + 1) (key_of p ∷ seen) ps))))

-- Whether an operation defines a path parameter, and the loop over those in the path.
abbrev pub defines : List Parameter → Text → Bool
defines ps name = any (λ p. is_path_param p && text_eq p.name name) ps

unfoldable pub check_path_params : Text → List Parameter → List Text → List Diagnostic
unfolding text_eq add
check_path_params op_path ps [] = []
check_path_params op_path ps (name ∷ names) =
    add (not (defines ps name)) (op_path ++ str ".parameters") missing_path_parameter
    ++ check_path_params op_path ps names

unfoldable pub check_auth : Text → ℕ → List Text → List Diagnostic
unfolding text_eq itoa add
check_auth op_path i [] = []
check_auth op_path i (a ∷ rest) =
    add (not (one_of valid_auth_types a)) (at_index (op_path ++ str ".auth") i ++ str ".type")
      must_be_one_of
    ++ check_auth op_path (i + 1) rest

-- `validateOperations`, over the operations in the order of the range loop
unfoldable pub validate_operations : Patterns → Text → Text → Assoc Operation → List Diagnostic
unfolding add check_responses check_parameters check_path_params check_auth trim_space to_upper
validate_operations pat base path [] = []
validate_operations pat base path ((method, op) ∷ rest) =
    let op_path = base ++ str ".operations." ++ method in
    let normalized = to_upper (trim_space method) in
    let method_ok = add (is_blank normalized) op_path is_required in
    let supported =
      add (not (is_blank normalized) && not (one_of valid_methods normalized)) op_path
        unsupported_method in
    method_ok
    ++ (supported
        ++ (add (is_empty op.responses) (op_path ++ str ".responses") at_least_one
            ++ (check_responses pat op_path op.responses
                ++ (check_parameters op_path 0 [] op.parameters
                    ++ (check_path_params op_path op.parameters (pat.path_params path)
                        ++ (check_auth op_path 0 op.auth
                            ++ validate_operations pat base path rest))))))

abbrev pub is_some : {A : Type 0} → Option A → Bool
is_some none = false
is_some (some a) = true

-- The checks of an endpoint with a path.
unfoldable pub check_endpoint : Patterns → Text → Assoc ℕ → Endpoint → List Diagnostic
unfolding add validate_operations lookup has_prefix
check_endpoint pat base seen ep =
    add (not (has_prefix ep.path (str "/"))) (base ++ str ".path") must_start_with_slash
    ++ (add (is_some (lookup ep.path seen)) (base ++ str ".path") duplicates
        ++ (add (is_empty ep.operations) (base ++ str ".operations") at_least_one
            ++ validate_operations pat base ep.path ep.operations))

abbrev pub seen_with : Text → ℕ → Assoc ℕ → Assoc ℕ
seen_with path i seen = if is_some (lookup path seen) then seen else insert path i seen

-- The loop over the endpoints, with the first index of every path seen before.
unfoldable pub validate_endpoints : Patterns → ℕ → Assoc ℕ → List Endpoint → List Diagnostic
unfolding check_endpoint trim_space itoa lookup insert
validate_endpoints pat i seen [] = []
validate_endpoints pat i seen (ep ∷ eps) =
    let base = at_index (str "endpoints") i in
    let skipped = validate_endpoints pat (i + 1) seen eps in
    let later = validate_endpoints pat (i + 1) (seen_with ep.path i seen) eps in
    if is_blank (trim_space ep.path)
    then record { path = base ++ str ".path"; message = is_required } ∷ skipped
    else check_endpoint pat base seen ep ++ later

-- `Validate`, up to the sorting
unfoldable pub validate : Patterns → Contract → List Diagnostic
unfolding add validate_endpoints trim_space text_eq
validate pat c =
    let no_version = is_blank (trim_space c.schema_version) in
    add no_version (str "schema_version") is_required
    ++ (add (not no_version && not (text_eq c.schema_version (str "apix.contract/v1")))
          (str "schema_version") must_be_current
        ++ (add (is_blank (trim_space c.title)) (str "info.title") is_required
            ++ (add (is_blank (trim_space c.version)) (str "info.version") is_required
                ++ (add (is_empty c.endpoints) (str "endpoints") at_least_one
                    ++ validate_endpoints pat 0 [] c.endpoints))))
