-- ===== src/CircuitBreaker/Examples.antt =====
-- Runs of circuit_breaker.go at concrete inputs, and the theorems applied to them.
use api_x.Base.{ℕ, ◌≡◌, refl, true, none, [], ◌∷◌, str}
use api_x.Base.Int.{pos, negsuc}
use api_x.Base.Strings.{text_eq}
use api_x.Base.Maps.{lookup}
use api_x.Plugin.{ProxyRequest, ProxyResponse}
use api_x.CircuitBreaker.{
  open_circuit, half_open, Breaker, new_breaker, CircuitBreaker, matches_host, get_breaker,
}
use api_x.CircuitBreaker.Invariant.{HoldsValid}
use api_x.CircuitBreaker.Hosts.{on_resp, play, play-refines-run, run_of, calls_for}

-- The thresholds are left at their defaults, 5 and 2, and the timeout is 100.
abbrev plugin : CircuitBreaker
plugin = record {
  failure_threshold = pos 0;
  success_threshold = negsuc 3;
  open_timeout = pos 100;
  match_hosts = [];
  breakers = [];
}

abbrev req_to : ProxyRequest
req_to = record {
  id = str "r1";
  method = str "GET";
  url = record {
    text = str "http://a/x";
    host = str "a:80";
    hostname = str "a";
    path = str "/x";
    query = [];
  };
  headers = [];
  body = [];
  protocol = str "HTTP/1.1";
  raw = none;
  mocked_response = none;
}

abbrev resp_of : ℕ → ProxyResponse
resp_of code = record { status_code = code; status = []; headers = []; body = [] }

-- Five failures open the circuit of host a.
opens :
    (get_breaker
      (play plugin (
        on_resp 1 req_to (resp_of 500)
        ∷ on_resp 2 req_to (resp_of 502)
        ∷ on_resp 3 req_to (resp_of 500)
        ∷ on_resp 4 req_to (resp_of 599)
        ∷ on_resp 5 req_to (resp_of 500)
        ∷ []))
      (str "a")).state
    ≡ open_circuit
unfolding play get_breaker text_eq
opens = refl

plugin-HoldsValid : HoldsValid plugin
unfolding lookup
plugin-HoldsValid host b e = cc

play-refines-run_example :
    get_breaker (play plugin (on_resp 1 req_to (resp_of 500) ∷ [])) (str "a")
    ≡ run_of plugin
        (get_breaker plugin (str "a"))
        (calls_for (str "a") (on_resp 1 req_to (resp_of 500) ∷ []))
unfolding matches_host
play-refines-run_example =
    play-refines-run (on_resp 1 req_to (resp_of 500) ∷ []) plugin (str "a") refl

abbrev tripped : Breaker
tripped = record new_breaker { state = open_circuit; opened_at = 9 }

abbrev probing : Breaker
probing = record new_breaker { state = half_open; half_open_pending = true }
