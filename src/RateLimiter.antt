-- ===== src/RateLimiter.antt =====
-- internal/pluginrt/builtins/rate_limiter.go: rates for the requests that share a key. The rate of a
-- rule is a whole number of parts of a token in each nanosecond, where a token has `parts` parts.
-- `net.SplitHostPort` and `http.StatusText` are arguments; a URL is not nil.
pub mod Bounds
mod Examples
use api_x.Base.{
  ℕ, zero, suc, ◌+◌, ◌*◌, Text, str, is_blank, Bool, true, false, not, Option, none, some, List, [],
  ◌∷◌, ◌++◌, ◌==◌, if◌then◌else◌, length, drop,
}
use api_x.Base.Strings.{text_eq, has_prefix, contains, itoa}
use api_x.Base.Maps.{Assoc}
use api_x.Header
use api_x.Plugin.{ProxyRequest, ProxyResponse, RawRequest, clone}
use api_x.TokenBucket.{Bucket, draw}

pub record RateRule : Type 0 where
  pub key_source : Text
  pub match_path : Text
  pub rate : ℕ  -- in parts of a token for each nanosecond
  pub burst : ℕ  -- in tokens
  pub reject_with : ℕ

pub record RateLimiter : Type 0 where
  pub rules : List RateRule
  pub buckets : Assoc Bucket

-- `NewRateLimiter`
abbrev pub new_rate_limiter : List RateRule → RateLimiter
new_rate_limiter rules = record { rules = rules; buckets = [] }

abbrev or_unknown : Option Text → Text
or_unknown none = str "unknown"
or_unknown (some t) = t

abbrev blank_unknown : Text → Text
blank_unknown t = if is_blank t then str "unknown" else t

-- The rule's path filter lets the request in.
unfoldable pub concerns : RateRule → ProxyRequest → Bool
unfolding contains
concerns rule req = if is_blank rule.match_path then true else contains req.url.path rule.match_path

-- The bucket that `getBucket` makes.
abbrev pub fresh_bucket : ℕ → RateRule → ℕ → Bucket
fresh_bucket parts rule now = record {
  tokens = rule.burst * parts;
  capacity = rule.burst * parts;
  rate = rule.rate;
  last_time = now;
}

module _ (split : Text → Option Text) where
  abbrev host_of : Option RawRequest → Text
  host_of none = str "unknown"
  host_of (some raw) = or_unknown (split raw.remote_addr)

  -- `extractKey`
  unfoldable pub extract_key : RateRule → ProxyRequest → Text
  unfolding text_eq has_prefix Header.get
  extract_key rule req =
      if text_eq rule.key_source (str "global")
      then str "global"
      else if text_eq rule.key_source (str "ip")
      then host_of req.raw
      else if has_prefix rule.key_source (str "header:")
      then blank_unknown (Header.get req.headers (drop 7 rule.key_source))
      else if text_eq rule.key_source (str "path")
      then req.url.path
      else str "unknown"

  -- `fmt.Sprintf("%d:%s", i, extractKey(rule, req))`
  unfoldable pub bucket_key : ℕ → RateRule → ProxyRequest → Text
  unfolding extract_key itoa
  bucket_key i rule req = itoa i ++ b':' ∷ extract_key rule req

  -- `getBucket` and `allow` for a rule.
  unfoldable pub draw_for : ℕ → ℕ → RateRule → ProxyRequest → ℕ → Assoc Bucket → Assoc Bucket × Bool
  draw_for parts i rule req now =
      draw parts now (fresh_bucket parts rule now) (bucket_key i rule req)

module _ (status_text : ℕ → Text) where
  abbrev pub rejection : RateRule → ProxyResponse
  rejection rule =
      let status = if rule.reject_with == 0 then 429 else rule.reject_with in
      record {
        status_code = status;
        status = status_text status;
        headers = (str "Retry-After", str "1" ∷ []) ∷ [];
        body = str "rate limit exceeded";
      }

  abbrev pub reject : RateRule → ProxyRequest → ProxyRequest
  reject rule req = record (clone req req.body) { mocked_response = some (rejection rule) }

module _ (parts : ℕ) (split : Text → Option Text) (status_text : ℕ → Text) where
  -- The loop of `OnRequest` from the rule with the index `i` on. A request that a rule rejects has
  -- taken the tokens of the rules before it.
  unfoldable pub check_rules :
      ℕ → List RateRule → ProxyRequest → ℕ → Assoc Bucket → Assoc Bucket × Option ProxyRequest
  check_rules i [] req now m = (m, none)
  check_rules i (rule ∷ rules) req now m = elim (concerns rule req) [
    | false ↦ check_rules (i + 1) rules req now m
    | true ↦
        let (m', ok) = draw_for split parts i rule req now m in
        elim ok [
          | true ↦ check_rules (i + 1) rules req now m'
          | false ↦ (m', some (reject status_text rule req))
        ]
  ]

  -- `OnRequest`; `OnResponse` does nothing
  unfoldable pub on_request : ProxyRequest → ℕ → RateLimiter → RateLimiter × Option ProxyRequest
  unfolding check_rules
  on_request req now p =
      let (m, answer) = check_rules 0 p.rules req now p.buckets in
      (record p { buckets = m }, answer)
