-- ===== src/EnvSubst/Hiding.antt =====
-- What env_subst.go lets out of the environment.
use api_x.Base.{
  ℕ, zero, suc, ◌+◌, Text, str, false, Option, some, List, [], ◌∷◌, ◌++◌, length, ◌≡◌, refl, ap,
  ◌∙◌, Bool-cases, Option-cases, inl, inr,
}
use api_x.Header.{Header}
use api_x.Plugin.{ProxyRequest}
use api_x.EnvSubst.{
  is_secret_var, placeholder, substitute, replace_from, replace_all, replace_values,
  replace_headers, on_request,
}

-- Two environments that differ in secret variables alone.
abbrev pub SamePublic : (Text → Option Text) → (Text → Option Text) → Type 0
SamePublic env env' = (name : Text) → is_secret_var name ≡ false → env name ≡ env' name

module _ (env env' : Text → Option Text) (same : SamePublic env env') where
  substitute_alike : (name : Text) → substitute env name ≡ substitute env' name
  unfolding substitute
  substitute_alike name = elim (Bool-cases (is_secret_var name)) [
    | inl secret ↦ rw secret refl
    | inr open_one ↦ rw (open_one, same name open_one) refl
  ]

  replace_alike : (skip : ℕ) (s : Text) → replace_from env skip s ≡ replace_from env' skip s
  unfolding replace_from
  replace_alike skip [] = refl
  replace_alike (suc skip) (c ∷ s) = replace_alike skip s
  replace_alike zero (c ∷ s) = elim (Option-cases (placeholder (c ∷ s))) [
    | inl plain ↦ rw (plain, replace_from) (ap (◌∷◌ c) (replace_alike zero s))
    | inr (name, e) ↦
        rw (e, replace_from)
          (ap (λ t. t ++ replace_from env (length name + 3) s) (substitute_alike name)
            ∙ ap (λ t. substitute env' name ++ t) (replace_alike (length name + 3) s))
  ]

  values_alike : (vs : List Text) → replace_values env vs ≡ replace_values env' vs
  values_alike [] = refl
  values_alike (v ∷ vs) = rw (replace_alike 0 v, values_alike vs) refl

  headers_alike : (h : Header) → replace_headers env h ≡ replace_headers env' h
  headers_alike [] = refl
  headers_alike ((k, vs) ∷ h) = rw (values_alike vs, headers_alike h) refl

  -- The request that goes on is the same in two environments that differ only in variables that count
  -- as secret: nothing of these shows in it.
  pub secrets_stay : (req : ProxyRequest) → on_request env req ≡ on_request env' req
  unfolding on_request
  secrets_stay req = rw (replace_alike 0 req.body, headers_alike req.headers) refl

substitute_public :
    (env : Text → Option Text) (name v : Text)
    → is_secret_var name ≡ false
    → env name ≡ some v
    → substitute env name ≡ v
unfolding substitute
substitute_public env name v public e = rw (public, e) refl

token_is_public : is_secret_var (str "APIX_AUTH_TOKEN") ≡ false
unfolding is_secret_var
token_is_public = refl

-- The proxy's own token does not count as secret: a body that starts by naming it is sent with it.
pub own_token_shown :
    (env : Text → Option Text) (token rest : Text)
    → env (str "APIX_AUTH_TOKEN") ≡ some token
    → replace_all env (str "{{APIX_AUTH_TOKEN}}" ++ rest) ≡ token ++ replace_all env rest
unfolding replace_from
own_token_shown env token rest e =
    ap (λ t. t ++ replace_all env rest)
      (substitute_public env (str "APIX_AUTH_TOKEN") token token_is_public e)
