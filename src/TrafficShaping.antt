-- ===== src/TrafficShaping.antt =====
-- internal/pluginrt/builtins/traffic_shaping.go: a limit on the requests in flight. Throttled reading
-- only delays the body, so a throttled response is the response here, marked by its rate. `inflight` is
-- read and written under the mutex. `http.StatusText` is an argument.
pub mod Slots
mod Examples
use api_x.Base.{
  ℕ, ◌+◌, ◌-◌, Text, str, is_blank, Bool, true, false, Option, none, some, List, [], ◌∷◌, ◌==◌, leb,
  ltb, if◌then◌else◌,
}
use api_x.Base.Strings.{contains}
use api_x.Header
use api_x.Plugin.{ProxyRequest, ProxyResponse, clone}

pub record TrafficShaping : Type 0 where
  pub max_concurrent : ℕ  -- 0 where the configured number is not positive
  pub bandwidth_bps : ℕ
  pub match_path : Text
  pub reject_with : ℕ
  pub inflight : ℕ

-- `matchesPath`
unfoldable pub matches_path : TrafficShaping → ProxyRequest → Bool
unfolding contains
matches_path p req = if is_blank p.match_path then true else contains req.url.path p.match_path

-- `rejectStatus`
abbrev pub reject_status : TrafficShaping → ℕ
reject_status p = if p.reject_with == 0 then 503 else p.reject_with

module _ (status_text : ℕ → Text) where
  unfoldable pub rejected : TrafficShaping → ProxyRequest → ProxyRequest
  unfolding clone Header.set
  rejected p req = record (clone req req.body) {
    mocked_response = some (record {
      status_code = reject_status p;
      status = status_text (reject_status p);
      headers = Header.set [] (str "Content-Type") (str "text/plain");
      body = str "too many concurrent requests";
    });
  }

  -- `OnRequest`
  unfoldable pub on_request : ProxyRequest → TrafficShaping → TrafficShaping × Option ProxyRequest
  on_request req p =
      if matches_path p req
      then (if ltb 0 p.max_concurrent
          then (if leb p.max_concurrent p.inflight
              then (p, some (rejected p req))
              else (record p { inflight = p.inflight + 1 }, none))
          else (p, none))
      else (p, none)

-- A response with the rate at which its body is read, if that is limited.
pub record Throttled : Type 0 where
  pub response : ProxyResponse
  pub bytes_per_sec : ℕ

-- `OnResponse`
unfoldable pub on_response :
    ProxyRequest → ProxyResponse → TrafficShaping → TrafficShaping × Option Throttled
on_response req resp p =
    if matches_path p req
    then (
      (if ltb 0 p.max_concurrent then record p { inflight = p.inflight - 1 } else p),
      if ltb 0 p.bandwidth_bps
          then some (record { response = resp; bytes_per_sec = p.bandwidth_bps })
          else none,
    )
    else (p, none)
