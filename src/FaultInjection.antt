-- ===== src/FaultInjection.antt =====
-- internal/pluginrt/builtins/fault_injection.go: aborts, delays and headers that rules inject. Each
-- rule comes with whether its percentage and the draw of a random number, both in float64, spare the
-- request. `http.StatusText` is an argument, and reading a body does not fail.
pub mod Faults
mod Examples
use api_x.Base.{
  ℕ, Text, str, is_blank, Bool, true, false, ◌&&◌, ◌||◌, not, Option, none, some, List, [], ◌∷◌,
  ◌==◌, if◌then◌else◌,
}
use api_x.Base.Strings.{text_eq, contains, equal_fold}
use api_x.Header
use api_x.Plugin.{ProxyRequest, ProxyResponse, clone}

pub record FaultRule : Type 0 where
  pub match_path : Text
  pub match_method : Text
  pub fault_type : Text
  pub abort_status : ℕ
  pub delay_duration : ℕ
  pub header_name : Text
  pub header_value : Text

-- `matchesRule`
unfoldable pub matches_rule : FaultRule → ProxyRequest → Bool
unfolding contains equal_fold
matches_rule rule req =
    (if is_blank rule.match_path then true else contains req.url.path rule.match_path)
    && (if is_blank rule.match_method then true else equal_fold req.method rule.match_method)

module _ (status_text : ℕ → Text) where
  abbrev pub aborted : FaultRule → ProxyResponse
  aborted rule =
      let status = if rule.abort_status == 0 then 503 else rule.abort_status in
      record {
        status_code = status;
        status = status_text status;
        headers = [];
        body = str "fault injected";
      }

  -- The `switch` of the loop on the clone and the flag `modified`, without the sleep.
  unfoldable pub inject : FaultRule → ProxyRequest × Bool → ProxyRequest × Bool
  unfolding text_eq clone Header.set
  inject rule (req, modified) =
      if text_eq rule.fault_type (str "abort")
      then (record req { mocked_response = some (aborted rule) }, true)
      else if text_eq rule.fault_type (str "delay")
      then (req, true)
      else if text_eq rule.fault_type (str "header") && not (is_blank rule.header_name)
      then (
        record (clone req req.body) {
          headers = Header.set req.headers rule.header_name rule.header_value;
        },
        true,
      )
      else (req, modified)

  -- The loop of `OnRequest`; the rules are tested on the original request.
  unfoldable pub inject_all :
      List (FaultRule × Bool) → ProxyRequest → ProxyRequest × Bool → ProxyRequest × Bool
  unfolding matches_rule inject
  inject_all [] req s = s
  inject_all ((rule, spared) ∷ rules) req s =
      inject_all rules req (if matches_rule rule req && not spared then inject rule s else s)

  abbrev pub some_if : ProxyRequest × Bool → Option ProxyRequest
  some_if (req, modified) = if modified then some req else none

  -- `OnRequest`; `OnResponse` does nothing
  unfoldable pub on_request : List (FaultRule × Bool) → ProxyRequest → Option ProxyRequest
  unfolding inject_all clone
  on_request rules req = some_if (inject_all rules req (clone req req.body, false))
