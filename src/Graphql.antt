-- ===== src/Graphql.antt =====
-- internal/graphql/metadata.go: the operation of a GraphQL request and the errors of its response. Decoding
-- and encoding JSON are arguments; encoding a decoded value does not fail. A map of headers comes in
-- the order of the range loop.
pub mod Extracting
mod Examples
use api_x.Base.{
  ℕ, Text, str, is_blank, Bool, true, false, ◌&&◌, ◌||◌, not, Option, none, some, List, [], ◌∷◌,
  ◌++◌, length, if◌then◌else◌, is_empty,
}
use api_x.Base.Maps.{Assoc, lookup}
use api_x.Base.Strings.{text_eq, to_lower, contains, trim_space}
use api_x.Learn.Values.{
  Value, Fields, null, boolean, integer, fraction, text, array, object, list_of, lookup_field,
}

pub record RequestMetadata : Type 0 where
  pub operation_name : Text
  pub query : Text
  pub variables_json : Text
  pub is_batch : Bool
  pub operation_count : ℕ

pub record ErrorMetadata : Type 0 where
  pub message : Text
  pub path_json : Text
  pub locations_json : Text
  pub extensions_json : Text
  pub raw_json : Text

-- `ResponseMetadata` is its list of errors.
pub record Metadata : Type 0 where
  pub request : Option RequestMetadata
  pub response : Option (List ErrorMetadata)

-- The loop of `headerValue`.
unfoldable pub scan_headers : Text → Assoc Text → Text
unfolding to_lower text_eq
scan_headers needle [] = []
scan_headers needle ((k, v) ∷ h) = if text_eq (to_lower k) needle then v else scan_headers needle h

-- `headerValue`
unfoldable pub header_value : Assoc Text → Text → Text
unfolding scan_headers
header_value headers name = elim (lookup name headers) [
  | none ↦ scan_headers (to_lower name) headers
  | some v ↦ v
]

-- `isGraphQLishContentType`
unfoldable pub is_graphqlish_content_type : Text → Bool
unfolding to_lower trim_space contains
is_graphqlish_content_type given =
    let ct = to_lower (trim_space given) in
    not (is_blank ct) && (contains ct (str "json") || contains ct (str "graphql"))

-- `asString`
unfoldable pub as_string : Option Value → Text
as_string (some (text s)) = s
as_string _ = []

abbrev has : Option Value → Bool
has none = false
has (some v) = true

-- `hasGraphQLFields`
unfoldable pub has_graphql_fields : Fields → Bool
unfolding lookup_field
has_graphql_fields obj =
    has (lookup_field (str "query") obj)
    || has (lookup_field (str "operationName") obj)
    || has (lookup_field (str "variables") obj)

module _ (unmarshal : Text → Option Value) (marshal : Value → Text) where
  -- `marshalJSON`
  unfoldable pub marshal_json : Option Value → Text
  marshal_json none = []
  marshal_json (some null) = []
  marshal_json (some v) = marshal v

  -- `parseOperation`, as the first operation of one
  unfoldable pub parse_operation : Fields → Option RequestMetadata
  unfolding has_graphql_fields as_string marshal_json
  parse_operation obj =
      if has_graphql_fields obj
      then some (record {
        operation_name = as_string (lookup_field (str "operationName") obj);
        query = as_string (lookup_field (str "query") obj);
        variables_json = marshal_json (lookup_field (str "variables") obj);
        is_batch = false;
        operation_count = 1;
      })
      else none

  abbrev onto : {A : Type 0} → Option A → List A → List A
  onto none xs = xs
  onto (some a) xs = a ∷ xs

  -- The loop over a batch.
  unfoldable pub parse_operations : List Value → List RequestMetadata
  unfolding parse_operation
  parse_operations [] = []
  parse_operations (object obj ∷ vs) = onto (parse_operation obj) (parse_operations vs)
  parse_operations (_ ∷ vs) = parse_operations vs

  abbrev pub first_of : List RequestMetadata → Option RequestMetadata
  first_of [] = none
  first_of (op ∷ ops) = some (record op { is_batch = true; operation_count = length (op ∷ ops) })

  abbrev pub operation_of : Option Value → Option RequestMetadata
  operation_of (some (object obj)) = parse_operation obj
  operation_of (some (array items)) = first_of (parse_operations (list_of items))
  operation_of _ = none

  -- The tests that both sides start with.
  unfoldable pub is_read : Assoc Text → Text → Bool
  unfolding is_graphqlish_content_type header_value
  is_read headers body =
      not (is_blank (trim_space body))
      && is_graphqlish_content_type (header_value headers (str "content-type"))

  -- `extractRequest`
  unfoldable pub extract_request : Assoc Text → Text → Option RequestMetadata
  unfolding is_read parse_operations
  extract_request headers body =
      if is_read headers body then operation_of (unmarshal body) else none

  abbrev error_of : Fields → ErrorMetadata
  error_of obj = record {
    message = as_string (lookup_field (str "message") obj);
    path_json = marshal_json (lookup_field (str "path") obj);
    locations_json = marshal_json (lookup_field (str "locations") obj);
    extensions_json = marshal_json (lookup_field (str "extensions") obj);
    raw_json = marshal_json (some (object obj));
  }

  abbrev errors_in : List Value → List ErrorMetadata
  errors_in [] = []
  errors_in (object obj ∷ vs) = error_of obj ∷ errors_in vs
  errors_in (_ ∷ vs) = errors_in vs

  -- `parseErrorsArray`
  unfoldable pub parse_errors_array : Option Value → List ErrorMetadata
  unfolding marshal_json as_string
  parse_errors_array (some (array items)) = errors_in (list_of items)
  parse_errors_array _ = []

  abbrev errors_of_batch : List Value → List ErrorMetadata
  errors_of_batch [] = []
  errors_of_batch (object obj ∷ vs) =
      parse_errors_array (lookup_field (str "errors") obj) ++ errors_of_batch vs
  errors_of_batch (_ ∷ vs) = errors_of_batch vs

  -- `collectErrors`
  unfoldable pub collect_errors : Value → List ErrorMetadata
  unfolding parse_errors_array
  collect_errors (object obj) = parse_errors_array (lookup_field (str "errors") obj)
  collect_errors (array items) = errors_of_batch (list_of items)
  collect_errors _ = []

  abbrev errors_or_none : List ErrorMetadata → Option (List ErrorMetadata)
  errors_or_none errs = if is_empty errs then none else some errs

  abbrev response_of : Option Value → Option (List ErrorMetadata)
  response_of none = none
  response_of (some v) = errors_or_none (collect_errors v)

  -- `extractResponse`
  unfoldable pub extract_response : Assoc Text → Text → Option (List ErrorMetadata)
  unfolding is_read collect_errors
  extract_response headers body =
      if is_read headers body then response_of (unmarshal body) else none

  abbrev metadata_of : Option RequestMetadata → Option (List ErrorMetadata) → Option Metadata
  metadata_of none none = none
  metadata_of req resp = some (record { request = req; response = resp })

  -- `Extract`
  unfoldable pub extract : Assoc Text → Text → Assoc Text → Text → Option Metadata
  unfolding extract_request extract_response
  extract req_headers req_body resp_headers resp_body =
      metadata_of (extract_request req_headers req_body) (extract_response resp_headers resp_body)
