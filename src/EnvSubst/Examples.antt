-- ===== src/EnvSubst/Examples.antt =====
-- The substitution of env_subst.go at concrete texts.
use api_x.Base.{
  ◌++◌, Bool-cases, inl, inr, Text, str, Option, none, some, [], ◌∷◌, if◌then◌else◌, ◌≡◌, refl,
}
use api_x.Base.Strings.{text_eq, text_eq_iff}
use api_x.Plugin.{ProxyRequest}
use api_x.EnvSubst.{is_secret_var, replace_all, replace_from, on_request}
use api_x.EnvSubst.Hiding.{SamePublic, secrets_stay, own_token_shown}

abbrev env : Text → Option Text
env name = if text_eq name (str "MY_API_KEY") then some (str "hidden") else none

abbrev bare : Text → Option Text
bare name = none

env-SamePublic : SamePublic env bare
unfolding is_secret_var
env-SamePublic name public = elim (Bool-cases (text_eq name (str "MY_API_KEY"))) [
  | inl own ↦
      let e = (text_eq_iff name (str "MY_API_KEY")).0 own in let public' = rw e at public in cc
  | inr other ↦ rw other refl
]

abbrev req : ProxyRequest
req = record {
  id = str "r1";
  method = str "POST";
  url = record {
    text = str "http://a/";
    host = str "a";
    hostname = str "a";
    path = str "/";
    query = [];
  };
  headers = (str "X-Key", str "{{MY_API_KEY}}" ∷ []) ∷ [];
  body = str "k={{MY_API_KEY}}";
  protocol = str "HTTP/1.1";
  raw = none;
  mocked_response = none;
}

secrets_stay_example : on_request env req ≡ on_request bare req
secrets_stay_example = secrets_stay env bare env-SamePublic req

abbrev with_token : Text → Option Text
with_token name = some (str "s3cret")

own_token_shown_example :
    replace_all with_token (str "{{APIX_AUTH_TOKEN}}" ++ str "!")
    ≡ str "s3cret" ++ replace_all with_token (str "!")
own_token_shown_example = own_token_shown with_token (str "s3cret") (str "!") refl

-- What is no name stays.
leaves : replace_all with_token (str "{{1}} {{A_1}}") ≡ str "{{1}} s3cret"
unfolding replace_from
leaves = refl
