-- ===== src/LatencyModifier.antt =====
-- internal/pluginrt/builtins/latency_modifier.go: delays of requests, and changes of the headers and
-- statuses of responses. Delays are not negative. `int63n` is rand.Int63n, with the index of the rule that
-- calls it; a context is done after a given time, and a timer that ends then wins. Maps come in
-- the order of the range loop, and reading a body does not fail.
pub mod Changing
mod Examples
use api_x.Base.{
  ℕ, ◌+◌, ◌-◌, Text, is_blank, Bool, true, false, ◌&&◌, ◌||◌, not, Option, none, some, List, [],
  ◌∷◌, leb, ltb, ◌==◌, if◌then◌else◌,
}
use api_x.Base.Maps.{Assoc}
use api_x.Base.Strings.{contains, equal_fold}
use api_x.Header
use api_x.Header.{Header}
use api_x.Plugin.{ProxyRequest, ProxyResponse, clone_response}

pub record LatencyRule : Type 0 where
  pub match_path : Text
  pub match_method : Text
  pub fixed_delay : ℕ
  pub jitter_max : ℕ
  pub add_headers : Assoc Text
  pub remove_headers : List Text
  pub status_remap : List (ℕ × ℕ)

-- `latencyRuleMatches`
unfoldable pub latency_rule_matches : LatencyRule → ProxyRequest → Bool
unfolding contains equal_fold
latency_rule_matches rule req =
    if not (is_blank rule.match_path) && not (contains req.url.path rule.match_path)
    then false
    else is_blank rule.match_method || equal_fold req.method rule.match_method

module _ (int63n : ℕ → ℕ → ℕ) where
  abbrev pub delay_of : ℕ → LatencyRule → ℕ
  delay_of i rule =
      rule.fixed_delay + (if ltb 0 rule.jitter_max then int63n i (rule.jitter_max + 1) else 0)

  -- `OnRequest`, from a rule on: whether the request goes on before the context is done
  unfoldable pub on_request : ℕ → List LatencyRule → ProxyRequest → ℕ → Bool
  unfolding latency_rule_matches
  on_request i [] req left = true
  on_request i (rule ∷ rules) req left =
      let slow = latency_rule_matches rule req in
      let delay = delay_of i rule in
      let rest = on_request (i + 1) rules req (if slow then left - delay else left) in
      if slow && not (leb delay left) then false else rest

-- The loop over `RemoveHeaders`: whether a header was removed, and the headers.
unfoldable pub remove_headers : List Text → Header → Bool × Header
unfolding Header.get Header.del
remove_headers [] h = (false, h)
remove_headers (k ∷ ks) h =
    let missing = is_blank (Header.get h k) in
    let (more, h') = remove_headers ks (if missing then h else Header.del h k) in
    (not missing || more, h')

-- The loop over `AddHeaders`.
unfoldable pub add_headers : Assoc Text → Header → Bool × Header
unfolding Header.set
add_headers [] h = (false, h)
add_headers ((k, v) ∷ kvs) h = (true, (add_headers kvs (Header.set h k v)).1)

unfoldable pub remap_status : List (ℕ × ℕ) → ℕ → Option ℕ
remap_status [] code = none
remap_status ((from, to) ∷ m) code = if from == code then some to else remap_status m code

abbrev with_status : Option ℕ → ProxyResponse → Bool × ProxyResponse
with_status none resp = (false, resp)
with_status (some code) resp = (true, record resp { status_code = code })

-- One rule: whether it changed the response, and the response.
unfoldable pub apply_rule : LatencyRule → ProxyResponse → Bool × ProxyResponse
unfolding remove_headers add_headers remap_status
apply_rule rule resp =
    let (removed, h) = remove_headers rule.remove_headers resp.headers in
    let (added, h') = add_headers rule.add_headers h in
    let (mapped, resp') =
      with_status (remap_status rule.status_remap resp.status_code)
        (record resp { headers = h' }) in
    (removed || added || mapped, resp')

unfoldable pub apply_rules : List LatencyRule → ProxyRequest → ProxyResponse → Bool × ProxyResponse
unfolding apply_rule latency_rule_matches
apply_rules [] req resp = (false, resp)
apply_rules (rule ∷ rules) req resp =
    let (changed, resp') =
      if latency_rule_matches rule req then apply_rule rule resp else (false, resp) in
    let (more, last) = apply_rules rules req resp' in (changed || more, last)

-- `OnResponse`
unfoldable pub on_response : List LatencyRule → ProxyRequest → ProxyResponse → Option ProxyResponse
unfolding apply_rules clone_response
on_response rules req resp =
    let (modified, last) = apply_rules rules req (clone_response resp resp.body) in
    if modified then some last else none
