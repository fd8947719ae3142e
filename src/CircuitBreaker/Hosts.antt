-- ===== src/CircuitBreaker/Hosts.antt =====
-- The plugin is one breaker for each host: a host's breaker sees exactly the calls for that host.
use api_x.Base.{
  ℕ, Text, ◌≡◌, refl, true, List, [], ◌∷◌, arith, leb, if◌then◌else◌, Bool-cases, inl, inr,
}
use api_x.Base.Strings.{text_eq, text_eq_iff}
use api_x.Base.Maps.{insert, lookup-insert}
use api_x.Plugin.{ProxyRequest, ProxyResponse}
use api_x.CircuitBreaker.{
  Breaker, CircuitBreaker, failure_limit, success_limit, open_duration, matches_host, get_breaker,
  request_step, on_request, on_response,
}
use api_x.CircuitBreaker.Runs.{Call, request, response, step, run}

-- A hook call of the plugin runtime.
pub data Hook : Type 0 where
  on_req : ℕ → ProxyRequest → Hook
  on_resp : ℕ → ProxyRequest → ProxyResponse → Hook

unfoldable pub hook : CircuitBreaker → Hook → CircuitBreaker
unfolding on_request on_response
hook p (on_req now req) = (on_request p now req).0
hook p (on_resp now req resp) = on_response p now req resp

unfoldable pub play : CircuitBreaker → List Hook → CircuitBreaker
unfolding hook
play p [] = p
play p (h ∷ hs) = play (hook p h) hs

abbrev pub host_of : Hook → Text
host_of (on_req now req) = req.url.hostname
host_of (on_resp now req resp) = req.url.hostname

abbrev pub call_of : Hook → Call
call_of (on_req now req) = request now
call_of (on_resp now req resp) = response now (leb 500 resp.status_code)

-- The calls for one host, in order.
abbrev pub calls_for : Text → List Hook → List Call
calls_for host [] = []
calls_for host (h ∷ hs) =
    let rest = calls_for host hs in if text_eq (host_of h) host then call_of h ∷ rest else rest

-- The configuration of the plugin, which no hook changes.
record SameConfig (p q : CircuitBreaker) : Type 0 where
  failure : p.failure_threshold ≡ q.failure_threshold
  success : p.success_threshold ≡ q.success_threshold
  timeout : p.open_timeout ≡ q.open_timeout
  hosts : p.match_hosts ≡ q.match_hosts

hook-SameConfig : (p : CircuitBreaker) (h : Hook) → SameConfig (hook p h) p
unfolding hook
hook-SameConfig p (on_req now req) = ground arith
hook-SameConfig p (on_resp now req resp) = ground arith

abbrev step_of : CircuitBreaker → Breaker → Call → Breaker
step_of p = step (failure_limit p) (success_limit p) (open_duration p)

abbrev pub run_of : CircuitBreaker → Breaker → List Call → Breaker
run_of p = run (failure_limit p) (success_limit p) (open_duration p)

run_of-hook :
    (p : CircuitBreaker) (h : Hook) (b : Breaker) (cs : List Call)
    → run_of (hook p h) b cs ≡ run_of p b cs
run_of-hook p h b cs =
    let same = hook-SameConfig p h in cc (same.failure, same.success, same.timeout)

pub matches_host-hook :
    (p : CircuitBreaker) (h : Hook) (host : Text)
    → matches_host (hook p h) host ≡ matches_host p host
unfolding matches_host
matches_host-hook p h host = let same = hook-SameConfig p h in rw same.hosts

get_breaker-insert :
    (p : CircuitBreaker) (k host : Text) (b : Breaker)
    → get_breaker (record p { breakers = insert k b p.breakers }) host
      ≡ (if text_eq k host then b else get_breaker p host)
unfolding get_breaker
get_breaker-insert p k host b = ground (arith, lookup-insert k host b p.breakers)

pub get_breaker-hook :
    (p : CircuitBreaker) (h : Hook) (host : Text)
    → matches_host p host ≡ true
    → get_breaker (hook p h) host ≡ (
        if text_eq (host_of h) host
        then step_of p (get_breaker p host) (call_of h)
        else get_breaker p host)
unfolding hook step
get_breaker-hook p (on_req now req) host m =
    let k = req.url.hostname in
    let b = (request_step (get_breaker p k).state (open_duration p) now (get_breaker p k)).0 in
    ground (arith, text_eq_iff k host, get_breaker-insert p k host b)
get_breaker-hook p (on_resp now req resp) host m =
    let k = req.url.hostname in
    let b = step_of p (get_breaker p k) (response now (leb 500 resp.status_code)) in
    ground (arith, text_eq_iff k host, get_breaker-insert p k host b)

-- After any hook calls, the breaker of a protected host is its breaker from before, run on the calls
-- for that host alone.
pub play-refines-run :
    (hs : List Hook) (p : CircuitBreaker) (host : Text)
    → matches_host p host ≡ true
    → get_breaker (play p hs) host ≡ run_of p (get_breaker p host) (calls_for host hs)
unfolding play run
play-refines-run [] p host m = refl
play-refines-run (h ∷ hs) p host m =
    rw
      (
        play-refines-run hs (hook p h) host (rw matches_host-hook m),
        run_of-hook,
        get_breaker-hook p h host m,
      )
      (elim (Bool-cases (text_eq (host_of h) host)) [ inl e ↦ rw e | inr e ↦ rw e ])
