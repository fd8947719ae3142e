-- ===== src/CircuitBreaker/Invariant.antt =====
-- What holds of every breaker between two calls, whatever the plugin was called with.
use api_x.Base.{ℕ, ◌<◌, Text, ◌≡◌, ◌≢◌, Bool, true, some, arith, Option-cases, Bool-cases, inl, inr}
use api_x.Base.Int.{positive_or_pos}
use api_x.Base.Maps.{lookup, insert, lookup-insert}
use api_x.Plugin.{ProxyRequest, ProxyResponse}
use api_x.CircuitBreaker.{
  closed, half_open, Breaker, CircuitBreaker, failure_limit, success_limit, matches_host,
  get_breaker, request_step, on_request, response_step, on_response,
}

-- `fl` and `sl` are the thresholds in force.
pub record IsValid (fl sl : ℕ) (b : Breaker) : Type 0 where
  pub failures_below : b.failures < fl
  pub successes_below : b.successes < sl
  pub failures_when_closed : b.state ≢ closed → b.failures ≡ 0
  pub successes_when_probing : b.state ≢ half_open → b.successes ≡ 0
  pub pending_when_probing : b.half_open_pending ≡ true → b.state ≡ half_open

pub request_step-IsValid :
    (fl sl timeout now : ℕ) (b : Breaker)
    → 0 < sl
    → IsValid fl sl b
    → IsValid fl sl (request_step b.state timeout now b).0
unfolding request_step
request_step-IsValid fl sl timeout now b h v = ground arith

pub response_step-IsValid :
    (fl sl now : ℕ) (is_failure : Bool) (b : Breaker)
    → 0 < fl
    → 0 < sl
    → IsValid fl sl b
    → IsValid fl sl (response_step b.state fl sl now is_failure b)
unfolding response_step
response_step-IsValid fl sl now is_failure b hf hs v = ground arith

failure_limit_pos : (p : CircuitBreaker) → 0 < failure_limit p
failure_limit_pos p = positive_or_pos 5 p.failure_threshold (omega arith)

success_limit_pos : (p : CircuitBreaker) → 0 < success_limit p
success_limit_pos p = positive_or_pos 2 p.success_threshold (omega arith)

-- Every breaker that the plugin holds is valid at the plugin's thresholds.
abbrev pub HoldsValid : CircuitBreaker → Type 0
HoldsValid p =
    (host : Text) (b : Breaker)
    → lookup host p.breakers ≡ some b
    → IsValid (failure_limit p) (success_limit p) b

pub get_breaker-IsValid :
    (p : CircuitBreaker) (host : Text)
    → HoldsValid p
    → IsValid (failure_limit p) (success_limit p) (get_breaker p host)
unfolding get_breaker
get_breaker-IsValid p host h = elim (Option-cases (lookup host p.breakers)) [
  | inl e ↦ rw (e, get_breaker) (ground (arith, failure_limit_pos p, success_limit_pos p))
  | inr (b, e) ↦ rw (e, get_breaker) (h host b e)
]

insert-HoldsValid :
    (p : CircuitBreaker) (host : Text) (b : Breaker)
    → HoldsValid p
    → IsValid (failure_limit p) (success_limit p) b
    → HoldsValid (record p { breakers = insert host b p.breakers })
insert-HoldsValid p host b h v host' b' e =
    ground (arith, lookup-insert host host' b p.breakers, h host' b')

-- Every request keeps every breaker of the plugin valid.
pub on_request-HoldsValid :
    (p : CircuitBreaker) (now : ℕ) (req : ProxyRequest)
    → HoldsValid p
    → HoldsValid (on_request p now req).0
unfolding on_request
on_request-HoldsValid p now req h = elim (Bool-cases (matches_host p req.url.hostname)) [
  | inl e ↦
      rw (e, on_request)
        (insert-HoldsValid p req.url.hostname _ h
          (request_step-IsValid _ _ _ now _ (success_limit_pos p) (get_breaker-IsValid p _ h)))
  | inr e ↦ rw (e, on_request) h
]

-- Every response keeps every breaker of the plugin valid.
pub on_response-HoldsValid :
    (p : CircuitBreaker) (now : ℕ) (req : ProxyRequest) (resp : ProxyResponse)
    → HoldsValid p
    → HoldsValid (on_response p now req resp)
unfolding on_response
on_response-HoldsValid p now req resp h = elim (Bool-cases (matches_host p req.url.hostname)) [
  | inl e ↦
      rw (e, on_response)
        (insert-HoldsValid p req.url.hostname _ h (
          response_step-IsValid _ _ now _ _ (failure_limit_pos p) (success_limit_pos p)
            (get_breaker-IsValid p _ h)))
  | inr e ↦ rw (e, on_response) h
]
