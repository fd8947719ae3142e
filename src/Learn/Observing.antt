-- ===== src/Learn/Observing.antt =====
-- internal/learn/openapi.go: what is seen of the traffic, endpoint by endpoint, and the operations that
-- are proposed for it. encoding/json and the query of a URL are section parameters, as are
-- strconv.ParseInt and ParseFloat. Statuses are told apart by their decimal text.
pub mod Endpoints
use api_x.Base.{
  ℕ, zero, suc, ◌+◌, Text, str, is_blank, Bool, true, false, ◌&&◌, ◌||◌, not, Option, none, some,
  List, [], ◌∷◌, ◌++◌, any, is_empty, length, ◌==◌, if◌then◌else◌,
}
use api_x.Base.Int.{ℤ, pos, negsuc}
use api_x.Base.Strings.{text_eq, trim_space, to_lower, equal_fold, itoa}
use api_x.Base.Maps.{Assoc, keys, lookup, insert}
use api_x.Base.Sort.{sort_strings}
use api_x.Learn.Values.{Value, null}
use api_x.Learn.Schema.{Schema, infer_schema_from_samples}
use api_x.Learn.PathPattern.{PathParameter, UrlLib, normalize_path}

pub record Observation : Type 0 where
  pub method : Text
  pub url : Text
  pub request_headers : Assoc Text
  pub request_body : Text
  pub response_status : ℤ
  pub response_body : Text

-- `endpointAggregate`
pub record EndpointAggregate : Type 0 where
  pub method : Text
  pub path : Text
  pub path_params : List PathParameter
  pub query_value_samples : Assoc (List Text)
  pub observed_count : ℕ
  pub auth_observed : Bool
  pub request_body_samples : List Value
  pub response_body_samples : Assoc (List Value)

-- What the code calls.
pub record LearnLib : Type 0 where
  pub url : UrlLib
  pub query_of : Text → Option (Assoc (List Text))
  pub unmarshal : Text → Option Value
  pub parse_int : Text → Bool
  pub parse_float : Text → Bool

-- `hasAuthorizationHeader`
unfoldable pub has_authorization_header : Assoc Text → Bool
unfolding equal_fold trim_space
has_authorization_header =
    any
      (λ (h : Text × Text). equal_fold h.0 (str "authorization") && not (is_blank (trim_space h.1)))

abbrev pub or_nil {ℓ} : {A : Type ℓ} → Option (List A) → List A
or_nil none = []
or_nil (some vs) = vs

-- `m[key] = append(m[key], values...)`
abbrev pub append_to {ℓ} : {A : Type ℓ} → Text → List A → Assoc (List A) → Assoc (List A)
append_to key values m = insert key (or_nil (lookup key m) ++ values) m

abbrev add_query : Assoc (List Text) → Assoc (List Text) → Assoc (List Text)
add_query [] samples = samples
add_query ((key, values) ∷ query) samples = add_query query (append_to key values samples)

-- `collectQuerySamples`
abbrev pub collect_query_samples :
    Option (Assoc (List Text)) → Assoc (List Text) → Assoc (List Text)
collect_query_samples none samples = samples
collect_query_samples (some query) samples = add_query query samples

abbrev status_or_200 : ℤ → ℕ
status_or_200 (pos zero) = 200
status_or_200 (pos (suc n)) = suc n
status_or_200 (negsuc n) = 200

abbrev pub if_not_nil : Option Value → Option Value
if_not_nil (some null) = none
if_not_nil o = o

abbrev pub list_of_option {ℓ} : {A : Type ℓ} → Option A → List A
list_of_option none = []
list_of_option (some a) = a ∷ []

abbrev add_response : ℤ → Option Value → Assoc (List Value) → Assoc (List Value)
add_response status none samples = samples
add_response status (some v) samples = append_to (itoa (status_or_200 status)) (v ∷ []) samples

pub record Parameter : Type 0 where
  pub name : Text
  pub location : Text  -- in
  pub required : Bool
  pub kind : Text
  pub format : Text

abbrev path_parameters : List PathParameter → List Parameter
path_parameters [] = []
path_parameters (p ∷ ps) =
    record {
      name = p.name;
      location = str "path";
      required = true;
      kind = p.kind;
      format = p.format;
    }
    ∷ path_parameters ps

pub record Operation : Type 0 where
  pub observed : ℕ  -- in the summary
  pub parameters : List Parameter
  pub request_body : Option Schema
  pub responses : Assoc (Option Schema)
  pub secured : Bool

abbrev pub schema_if_any : List Value → Option Schema
schema_if_any [] = none
schema_if_any (v ∷ vs) = some (infer_schema_from_samples (v ∷ vs))

abbrev response_schemas : Assoc (List Value) → Assoc (Option Schema)
response_schemas [] = []
response_schemas ((status, samples) ∷ rest) =
    (status, schema_if_any samples) ∷ response_schemas rest

-- `buildResponses`, a map from statuses
unfoldable pub build_responses : Assoc (List Value) → Assoc (Option Schema)
unfolding infer_schema_from_samples
build_responses samples =
    if is_empty samples then (str "default", none) ∷ [] else response_schemas samples

module _ (lib : LearnLib) where
  -- `parseJSONBody`, with `none` for nil
  unfoldable pub parse_json_body : Text → Option Value
  unfolding trim_space
  parse_json_body raw =
      let trimmed = trim_space raw in
      if is_blank trimmed then none else if_not_nil (lib.unmarshal trimmed)

  abbrev pub method_of : Observation → Text
  method_of obs = to_lower (trim_space obs.method)

  -- The key of the endpoint of an observation.
  unfoldable pub key_of : Observation → Text
  unfolding normalize_path trim_space to_lower
  key_of obs = method_of obs ++ b' ' ∷ (normalize_path lib.url obs.url).0

  abbrev new_aggregate : Observation → EndpointAggregate
  new_aggregate obs = record {
    method = method_of obs;
    path = (normalize_path lib.url obs.url).0;
    path_params = (normalize_path lib.url obs.url).1;
    query_value_samples = [];
    observed_count = 0;
    auth_observed = false;
    request_body_samples = [];
    response_body_samples = [];
  }

  abbrev or_new : Option EndpointAggregate → Observation → EndpointAggregate
  or_new none obs = new_aggregate obs
  or_new (some agg) obs = agg

  -- One observation is added to the aggregate of its endpoint, which is made if it is missing.
  unfoldable pub add_observation : Observation → Option EndpointAggregate → EndpointAggregate
  unfolding has_authorization_header parse_json_body normalize_path
  add_observation obs o =
      let agg = or_new o obs in
      record agg {
        observed_count = agg.observed_count + 1;
        auth_observed = agg.auth_observed || has_authorization_header obs.request_headers;
        query_value_samples = collect_query_samples (lib.query_of obs.url) agg.query_value_samples;
        request_body_samples =
            agg.request_body_samples ++ list_of_option (parse_json_body obs.request_body);
        response_body_samples =
            add_response obs.response_status (parse_json_body obs.response_body)
              agg.response_body_samples;
      }

  -- The first loop of `BuildOpenAPISpec`.
  unfoldable pub aggregate : List Observation → Assoc EndpointAggregate → Assoc EndpointAggregate
  unfolding key_of add_observation lookup insert
  aggregate [] m = m
  aggregate (obs ∷ rest) m = aggregate rest (
      if is_blank (method_of obs)
      then m
      else insert (key_of obs) (add_observation obs (lookup (key_of obs) m)) m)

  -- `inferScalarSchema`, the type of a query parameter
  unfoldable pub infer_scalar_schema : List Text → Text
  unfolding trim_space text_eq
  infer_scalar_schema [] = str "string"
  infer_scalar_schema (v ∷ vs) =
      let fails = λ (test : Text → Bool). any (λ s. not (test (trim_space s))) (v ∷ vs) in
      if not (fails lib.parse_int)
      then str "integer"
      else if not (fails lib.parse_float)
      then str "number"
      else if not (fails (λ s. text_eq s (str "true") || text_eq s (str "false")))
      then str "boolean"
      else str "string"

  abbrev query_parameters : Assoc (List Text) → List Text → List Parameter
  query_parameters samples [] = []
  query_parameters samples (key ∷ ks) =
      record {
        name = key;
        location = str "query";
        required = false;
        kind = infer_scalar_schema (or_nil (lookup key samples));
        format = [];
      }
      ∷ query_parameters samples ks

  -- `buildParameters`
  unfoldable pub build_parameters : EndpointAggregate → List Parameter
  unfolding infer_scalar_schema sort_strings lookup
  build_parameters agg =
      path_parameters agg.path_params
      ++ query_parameters agg.query_value_samples (sort_strings (keys agg.query_value_samples))

  -- The operation of an endpoint, in the second loop of `BuildOpenAPISpec`.
  unfoldable pub build_operation : EndpointAggregate → Operation
  unfolding build_parameters build_responses infer_schema_from_samples
  build_operation agg = record {
    observed = agg.observed_count;
    parameters = build_parameters agg;
    request_body = schema_if_any agg.request_body_samples;
    responses = build_responses agg.response_body_samples;
    secured = agg.auth_observed;
  }
