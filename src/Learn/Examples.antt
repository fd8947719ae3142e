-- ===== src/Learn/Examples.antt =====
-- Learning from concrete traffic.
use api_x.Base.{
  Text, str, false, ◌&&◌, none, some, List, [], ◌∷◌, any, All, leb, not, length, ◌≡◌, ◌↔◌, refl,
  arith,
}
use api_x.Base.Int.{pos}
use api_x.Base.Maps.{lookup}
use api_x.Learn.Values.{Value, integer, object, end, field, HasNoNull}
use api_x.Learn.Schema.{Schema}
use api_x.Learn.Schema.Conforming.{Conforms}
use api_x.Learn.PathPattern.{UrlLib, Segment, number, uuid, literal, normalize_path, template_of}
use api_x.Learn.PathPattern.Templates.{HasNoBrace, Alike, literal_collides}
use api_x.Learn.PathPattern.Joined.{HasNoSlash, template-iff-Alike}
use api_x.Learn.Observing.{Observation, EndpointAggregate, LearnLib, aggregate, build_operation}
use api_x.Learn.Observing.Endpoints.{seen_at, bodies, proposal-Conforms}

-- The whole text is the path, without escapes; digits are a number.
abbrev urls : UrlLib
urls = record {
  escaped_path = λ url. some url;
  path_unescape = λ s. some s;
  parse_int = λ s. not (any (λ c. not (leb b'0' c)) s) && not (any (λ c. not (leb c b'9')) s);
  is_uuid = λ s. false;
}

-- Every document is one object.
abbrev lib : LearnLib
lib = record {
  url = urls;
  query_of = λ url. none;
  unmarshal = λ s. some (object (field (str "n") (integer (pos 1)) end));
  parse_int = λ s. false;
  parse_float = λ s. false;
}

two_numbers : (normalize_path urls (str "/users/7/posts/12")).0 ≡ str "/users/{id}/posts/{id2}"
unfolding normalize_path
two_numbers = refl

abbrev users : List Segment
users = literal (str "users") ∷ number ∷ []

abbrev posts : List Segment
posts = literal (str "users") ∷ uuid ∷ []

users_plain : All HasNoBrace users
users_plain = (λ e. absurd (omega (arith, e)), (tt, tt))

posts_plain : All HasNoBrace posts
posts_plain = (λ e. absurd (omega (arith, e)), (tt, tt))

users_whole : All HasNoSlash users
users_whole = (
  (
    λ e. omega arith,
    (λ e. omega arith, (λ e. omega arith, (λ e. omega arith, (λ e. omega arith, tt)))),
  ),
  (tt, tt),
)

template-iff-Alike_example : ((template_of users).0 ≡ (template_of posts).0) ↔ Alike users posts
template-iff-Alike_example =
    template-iff-Alike (literal (str "users")) (literal (str "users")) (number ∷ []) (uuid ∷ [])
      users_plain posts_plain users_whole users_whole

literal_collides_example :
    ((template_of (literal (str "{id}") ∷ [])).0 ≡ (template_of (number ∷ [])).0)
    × ((template_of (literal (str "{id}") ∷ [])).1 ≡ [])
    × ((template_of (number ∷ [])).1
        ≡ record { name = str "id"; kind = str "integer"; format = [] } ∷ [])
literal_collides_example = literal_collides [] tt

abbrev samples : List Value
samples = object (field (str "n") (integer (pos 1)) end) ∷ object end ∷ []

abbrev seen : Observation
seen = record {
  method = str "POST";
  url = str "/users/7";
  request_headers = [];
  request_body = str "{}";
  response_status = pos 200;
  response_body = [];
}

abbrev key : Text
key = str "post /users/{id}"

abbrev learnt : EndpointAggregate
learnt = record {
  method = str "post";
  path = str "/users/{id}";
  path_params = record { name = str "id"; kind = str "integer"; format = [] } ∷ [];
  query_value_samples = [];
  observed_count = 1;
  auth_observed = false;
  request_body_samples = object (field (str "n") (integer (pos 1)) end) ∷ [];
  response_body_samples = [];
}

learns : lookup key (aggregate lib (seen ∷ []) []) ≡ some learnt
unfolding aggregate
learns = refl

learnt_plain : All HasNoNull (bodies lib (seen_at lib key (seen ∷ [])))
unfolding aggregate HasNoNull
learnt_plain = ((tt, tt), tt)

proposal-Conforms_example :
    ((build_operation lib learnt).observed ≡ length (seen_at lib key (seen ∷ [])))
    × ((s : Schema)
        → (build_operation lib learnt).request_body ≡ some s
        → All (Conforms s) (bodies lib (seen_at lib key (seen ∷ []))))
proposal-Conforms_example = proposal-Conforms lib (seen ∷ []) key learnt learns learnt_plain
