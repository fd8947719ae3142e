-- ===== src/CircuitBreaker.antt =====
-- internal/pluginrt/builtins/circuit_breaker.go: a circuit breaker for each host.
-- `now` is the reading of the monotonic clock in nanoseconds, so `time.Since(b.openedAt)` is
-- `now - opened_at`. The counters stay below the thresholds (`IsValid`), so they never wrap.
pub mod Invariant
pub mod Runs
pub mod Hosts
mod Examples
use api_x.Base.{
  ℕ, ◌+◌, ◌-◌, Text, str, Bool, true, false, Option, none, some, List, [], ◌++◌, any, is_empty, ltb,
  leb, if◌then◌else◌,
}
use api_x.Base.Int.{ℤ, positive_or}
use api_x.Base.Strings.{text_eq}
use api_x.Base.Maps.{Assoc, lookup, insert}
use api_x.Header
use api_x.Plugin.{ProxyRequest, ProxyResponse, clone}

pub data CbState : Type 0 where
  closed open_circuit half_open : CbState

pub record Breaker : Type 0 where
  pub state : CbState
  pub failures : ℕ
  pub successes : ℕ
  pub opened_at : ℕ
  pub half_open_pending : Bool

-- `&breaker{}`
abbrev pub new_breaker : Breaker
new_breaker = record {
  state = closed;
  failures = 0;
  successes = 0;
  opened_at = 0;
  half_open_pending = false;
}

pub record CircuitBreaker : Type 0 where
  pub failure_threshold : ℤ
  pub success_threshold : ℤ
  pub open_timeout : ℤ
  pub match_hosts : List Text
  pub breakers : Assoc Breaker

-- `failureThreshold()`, `successThreshold()` and `openTimeout()`: the configured value or a default
abbrev pub failure_limit : CircuitBreaker → ℕ
failure_limit p = positive_or 5 p.failure_threshold

abbrev pub success_limit : CircuitBreaker → ℕ
success_limit p = positive_or 2 p.success_threshold

abbrev pub open_duration : CircuitBreaker → ℕ
open_duration p = positive_or 30_000_000_000 p.open_timeout

unfoldable pub matches_host : CircuitBreaker → Text → Bool
matches_host p host =
    if is_empty p.match_hosts then true else any (λ h. text_eq h host) p.match_hosts

abbrev or_new : Option Breaker → Breaker
or_new none = new_breaker
or_new (some b) = b

-- `getBreaker`; the new breaker is stored when its caller writes it back
unfoldable pub get_breaker : CircuitBreaker → Text → Breaker
unfolding lookup
get_breaker p host = or_new (lookup host p.breakers)

abbrev set_breaker : CircuitBreaker → Text → Breaker → CircuitBreaker
set_breaker p host b = record p { breakers = insert host b p.breakers }

unfoldable pub blocked_503 : ProxyRequest → ProxyRequest
unfolding clone Header.set
blocked_503 req = record (clone req req.body) {
  mocked_response = some (record {
    status_code = 503;
    status = str "Service Unavailable";
    headers = Header.set [] (str "Content-Type") (str "text/plain");
    body = str "circuit breaker open for host " ++ req.url.hostname;
  });
}

-- The `switch` of `OnRequest`; `true` when the request is answered with a 503.
unfoldable pub request_step : CbState → ℕ → ℕ → Breaker → Breaker × Bool
request_step open_circuit timeout now b =
    if leb timeout (now - b.opened_at)
    then (record b { state = half_open; successes = 0; half_open_pending = true }, false)
    else (b, true)
request_step half_open timeout now b =
    if b.half_open_pending then (b, true) else (record b { half_open_pending = true }, false)
request_step closed timeout now b = (b, false)

unfoldable pub on_request : CircuitBreaker → ℕ → ProxyRequest → CircuitBreaker × Option ProxyRequest
unfolding matches_host get_breaker request_step blocked_503 insert
on_request p now req =
    let host = req.url.hostname in
    let b = get_breaker p host in
    let (b', blocked) = request_step b.state (open_duration p) now b in
    if matches_host p host
    then (set_breaker p host b', if blocked then some (blocked_503 req) else none)
    else (p, none)

-- The `switch` of `OnResponse`, with the thresholds and the failure test as arguments.
unfoldable pub response_step : CbState → ℕ → ℕ → ℕ → Bool → Breaker → Breaker
response_step closed fl sl now is_failure b =
    if is_failure
    then (if leb fl (b.failures + 1)
        then record b { state = open_circuit; opened_at = now; failures = 0 }
        else record b { failures = b.failures + 1 })
    else record b { failures = 0 }
response_step half_open fl sl now is_failure b =
    if is_failure
    then record b {
      state = open_circuit;
      opened_at = now;
      successes = 0;
      half_open_pending = false;
    }
    else if leb sl (b.successes + 1)
    then record b { state = closed; successes = 0; failures = 0; half_open_pending = false }
    else record b { successes = b.successes + 1; half_open_pending = false }
response_step open_circuit fl sl now is_failure b = b

-- `OnResponse` returns `nil, nil` on every path: only the state changes.
unfoldable pub on_response : CircuitBreaker → ℕ → ProxyRequest → ProxyResponse → CircuitBreaker
unfolding matches_host get_breaker response_step insert
on_response p now req resp =
    let host = req.url.hostname in
    let b = get_breaker p host in
    let b' =
      response_step b.state (failure_limit p) (success_limit p) now (leb 500 resp.status_code) b in
    if matches_host p host then set_breaker p host b' else p
