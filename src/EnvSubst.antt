-- ===== src/EnvSubst.antt =====
-- internal/pluginrt/builtins/env_subst.go: environment variables in place of placeholders. The pattern
-- of a placeholder is a literal of the source, `\{\{([A-Za-z_][A-Za-z0-9_]*)\}\}`, whose leftmost
-- match is read off the text: a name cannot hold a brace. The environment is an argument, and reading
-- the body does not fail.
pub mod Hiding
mod Examples
use api_x.Base.{
  ℕ, zero, suc, ◌+◌, Text, str, is_blank, Bool, true, false, ◌&&◌, ◌||◌, Option, none, some, List,
  [], ◌∷◌, ◌++◌, any, length, ◌==◌, leb, if◌then◌else◌,
}
use api_x.Base.Strings.{to_upper, contains, has_prefix}
use api_x.Header.{Header}
use api_x.Plugin.{ProxyRequest, clone}

-- `secretPatterns`
abbrev pub secret_patterns : List Text
secret_patterns =
    str "API_KEY"
    ∷ str "API_SECRET"
    ∷ str "ACCESS_TOKEN"
    ∷ str "REFRESH_TOKEN"
    ∷ str "PRIVATE_KEY"
    ∷ str "SECRET_KEY"
    ∷ str "SIGNING_KEY"
    ∷ str "AWS_"
    ∷ str "AZURE_"
    ∷ str "GCP_"
    ∷ str "GITHUB_"
    ∷ str "GITLAB_"
    ∷ []

-- `isSecretVar`
unfoldable pub is_secret_var : Text → Bool
unfolding to_upper contains
is_secret_var name = any (λ p. contains (to_upper name) p) secret_patterns

abbrev is_word_start : ℕ → Bool
is_word_start c = (leb b'A' c && leb c b'Z') || (leb b'a' c && leb c b'z') || c == b'_'

abbrev is_word_byte : ℕ → Bool
is_word_byte c = is_word_start c || (leb b'0' c && leb c b'9')

abbrev onto_name : ℕ → Option Text → Option Text
onto_name c none = none
onto_name c (some name) = some (c ∷ name)

-- The rest of a name, up to two closing braces.
unfoldable pub name_rest : Text → Option Text
unfolding has_prefix
name_rest [] = none
name_rest (c ∷ s) =
    let more = name_rest s in
    if is_word_byte c
    then onto_name c more
    else if has_prefix (c ∷ s) (str "}}")
    then some []
    else none

abbrev name_of : Text → Option Text
name_of [] = none
name_of (c ∷ s) = if is_word_start c then onto_name c (name_rest s) else none

-- The name of the placeholder that starts here.
unfoldable pub placeholder : Text → Option Text
unfolding name_rest
placeholder (b ∷ c ∷ s) = if b == b'{' && c == b'{' then name_of s else none
placeholder _ = none

module _ (env : Text → Option Text) where
  abbrev or_match : Text → Option Text → Text
  or_match name none = str "{{" ++ name ++ str "}}"
  or_match name (some v) = v

  -- What a match is replaced by.
  unfoldable pub substitute : Text → Text
  unfolding is_secret_var
  substitute name = or_match name (if is_secret_var name then none else env name)

  -- `envPattern.ReplaceAllFunc`, with the number of bytes that still belong to the last match
  unfoldable pub replace_from : ℕ → Text → Text
  unfolding placeholder substitute
  replace_from skip [] = []
  replace_from (suc skip) (c ∷ s) = replace_from skip s
  replace_from zero (c ∷ s) = elim (placeholder (c ∷ s)) [
    | none ↦ c ∷ replace_from zero s
    | some name ↦ substitute name ++ replace_from (length name + 3) s
  ]

  abbrev pub replace_all : Text → Text
  replace_all = replace_from 0

  abbrev pub replace_values : List Text → List Text
  replace_values [] = []
  replace_values (v ∷ vs) = replace_all v ∷ replace_values vs

  abbrev pub replace_headers : Header → Header
  replace_headers [] = []
  replace_headers ((k, vs) ∷ h) = (k, replace_values vs) ∷ replace_headers h

  -- `OnRequest`; `OnResponse` does nothing
  unfoldable pub on_request : ProxyRequest → ProxyRequest
  unfolding replace_from clone
  on_request req = record (clone req (replace_all req.body)) {
    headers = replace_headers req.headers;
  }
