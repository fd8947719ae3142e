-- ===== src/CircuitBreaker/Runs.antt =====
-- One breaker over a sequence of calls: when it opens, what it lets through, when it recovers.
use api_x.Base.{
  ℕ, zero, suc, ◌+◌, ◌-◌, ◌≤◌, ◌<◌, ◌≡◌, refl, ◌≢◌, Bool, true, false, not, List, [], ◌∷◌, ◌++◌,
  arith, if◌then◌else◌, length, All,
}
use api_x.CircuitBreaker.{
  CbState, closed, open_circuit, half_open, Breaker, request_step, response_step,
}

-- A call for the breaker's host: a request, or a response that is a failure or not.
pub data Call : Type 0 where
  request : ℕ → Call
  response : ℕ → Bool → Call

module _ (fl sl timeout : ℕ) where
  unfoldable pub step : Breaker → Call → Breaker
  unfolding request_step response_step
  step b (request now) = (request_step b.state timeout now b).0
  step b (response now is_failure) = response_step b.state fl sl now is_failure b

  -- A call that is a request the breaker lets through to the upstream.
  unfoldable pub admits : Breaker → Call → Bool
  unfolding request_step
  admits b (request now) = not (request_step b.state timeout now b).1
  admits b (response now is_failure) = false

  unfoldable pub run : Breaker → List Call → Breaker
  run b [] = b
  run b (c ∷ cs) = run (step b c) cs

  -- The number of requests that a run lets through.
  unfoldable pub admitted : Breaker → List Call → ℕ
  unfolding admits step
  admitted b [] = 0
  admitted b (c ∷ cs) = let rest = admitted (step b c) cs in if admits b c then suc rest else rest

abbrev pub is_request : Call → Bool
is_request (request now) = true
is_request (response now is_failure) = false

abbrev is_closed : CbState → Bool
is_closed closed = true
is_closed _ = false

-- The failures of a sequence of calls, if it holds no success; requests do not count.
abbrev failures_in : List Call → ℕ
failures_in [] = 0
failures_in (request now ∷ cs) = failures_in cs
failures_in (response now is_failure ∷ cs) = suc (failures_in cs)

abbrev pub IsFailing : Call → Type 0
IsFailing (request now) = Unit
IsFailing (response now is_failure) = is_failure ≡ true

module _ (fl sl timeout : ℕ) where
  -- While the failures stay below the threshold the circuit stays closed and counts them.
  pub closed_below_threshold :
      (cs : List Call) (b : Breaker)
      → b.state ≡ closed
      → All IsFailing cs
      → b.failures + failures_in cs < fl
      → ((run fl sl timeout b cs).state ≡ closed)
        × ((run fl sl timeout b cs).failures ≡ b.failures + failures_in cs)
        × (admitted fl sl timeout b cs + failures_in cs ≡ length cs)
  unfolding run admitted
  closed_below_threshold [] b e all below = ground arith
  closed_below_threshold (request now ∷ cs) b e all below =
      ground (arith, closed_below_threshold cs b)
  closed_below_threshold (response now f ∷ cs) b e all below =
      ground (arith, closed_below_threshold cs (record b { failures = b.failures + 1 }))

  run-append :
      (b : Breaker) (cs ds : List Call)
      → run fl sl timeout b (cs ++ ds) ≡ run fl sl timeout (run fl sl timeout b cs) ds
  unfolding run
  run-append b [] ds = refl
  run-append b (c ∷ cs) ds = run-append (step fl sl timeout b c) cs ds

  last_failure_opens :
      (now : ℕ) (b : Breaker)
      → b.state ≡ closed
      → b.failures + 1 ≡ fl
      → ((step fl sl timeout b (response now true)).state ≡ open_circuit)
        × ((step fl sl timeout b (response now true)).opened_at ≡ now)
  unfolding step
  last_failure_opens now b e n = ground arith

  -- The failure that reaches the threshold opens the circuit, at its own time.
  pub opens_at_threshold :
      (cs : List Call) (now : ℕ) (b : Breaker)
      → b.state ≡ closed
      → All IsFailing cs
      → b.failures + failures_in cs + 1 ≡ fl
      → ((run fl sl timeout b (cs ++ response now true ∷ [])).state ≡ open_circuit)
        × ((run fl sl timeout b (cs ++ response now true ∷ [])).opened_at ≡ now)
  unfolding run
  opens_at_threshold cs now b e all n =
      let (still, counted, _) = closed_below_threshold cs b e all (omega arith) in
      rw (run-append b cs (response now true ∷ []))
        (last_failure_opens now (run fl sl timeout b cs) still (omega arith))

  -- The call comes before the circuit has been open for its timeout.
  abbrev IsEarly : Breaker → Call → Type 0
  IsEarly b (request now) = now - b.opened_at < timeout
  IsEarly b (response now is_failure) = Unit

  -- Until the timeout has passed an open circuit lets nothing through and does not change,
  -- whatever late responses arrive.
  pub open_until_timeout :
      (cs : List Call) (b : Breaker)
      → b.state ≡ open_circuit
      → All (IsEarly b) cs
      → (run fl sl timeout b cs ≡ b) × (admitted fl sl timeout b cs ≡ 0)
  unfolding run admitted
  open_until_timeout [] b e early = (refl, refl)
  open_until_timeout (request now ∷ cs) b e early =
      ground (arith, open_until_timeout cs b e early.1)
  open_until_timeout (response now f ∷ cs) b e early =
      ground (arith, open_until_timeout cs b e early.1)

  abbrev IsRequest : Call → Type 0
  IsRequest c = is_request c ≡ true

  -- While a probe is in flight nothing but its response changes the breaker: every request is
  -- refused, at any time, for ever.
  pub stuck_without_response :
      (cs : List Call) (b : Breaker)
      → b.state ≡ half_open
      → b.half_open_pending ≡ true
      → All IsRequest cs
      → (run fl sl timeout b cs ≡ b) × (admitted fl sl timeout b cs ≡ 0)
  unfolding run admitted
  stuck_without_response [] b e pending all = (refl, refl)
  stuck_without_response (request now ∷ cs) b e pending all =
      ground (arith, stuck_without_response cs b e pending all.1)
  stuck_without_response (response now f ∷ cs) b e pending all = cc (all.0)

  -- A circuit that is not closed lets at most one request through between two responses.
  pub one_probe :
      (cs : List Call) (b : Breaker)
      → b.state ≢ closed
      → All IsRequest cs
      → admitted fl sl timeout b cs ≤ 1
  unfolding admitted
  one_probe [] b e all = omega arith
  one_probe (request now ∷ cs) b e all = ground (
    arith,
    one_probe cs b e all.1,
    stuck_without_response cs (step fl sl timeout b (request now)),
  )
  one_probe (response now f ∷ cs) b e all = cc (all.0)

  -- `k` probes that are answered without a failure, one after another.
  abbrev probes : ℕ → ℕ → List Call
  probes zero now = []
  probes (suc k) now = request now ∷ response now false ∷ probes k now
