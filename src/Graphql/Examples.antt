-- ===== src/Graphql/Examples.antt =====
-- GraphQL messages at concrete documents.
use api_x.Base.{ℕ, Text, str, true, Option, none, some, List, [], ◌∷◌, ◌≡◌, refl}
use api_x.Base.Strings.{text_eq}
use api_x.Learn.Values.{Value, null, text, array, object, item, nil, field, end}
use api_x.Graphql.{extract_request, extract_response}

-- Two operations, and an object that is none.
abbrev batch : Value
batch = array (
    item (object (field (str "other") null end)) (
      item (object (field (str "query") (text (str "{a}")) end))
        (item (object (field (str "query") (text (str "{b}")) end)) nil)))

reads :
    extract_request
      (λ body. some batch)
      (λ v. [])
      ((str "Content-Type", str "application/JSON") ∷ [])
      (str "x")
    ≡ some (record {
      operation_name = [];
      query = str "{a}";
      variables_json = [];
      is_batch = true;
      operation_count = 2;
    })
unfolding extract_request text_eq api_x.Base.Maps.lookup
reads = refl

no_errors :
    extract_response
      (λ body. some batch)
      (λ v. [])
      ((str "Content-Type", str "application/json") ∷ [])
      (str "x")
    ≡ none
unfolding extract_response text_eq api_x.Base.Maps.lookup api_x.Learn.Values.lookup_field
no_errors = refl
