-- ===== src/RetryPolicy.antt =====
-- internal/pluginrt/builtins/retry_policy.go: retries of an upstream request with a backoff.
-- What happens at each attempt is an argument, a function of the attempt's number. A product with a
-- power of two is exact in float64 for a base below 2 ^ 53 ns, which is 104 days; what Go makes of one
-- that is no `int64` depends on the machine and is an argument, `overflowed`.
pub mod Backoff
pub mod Attempts
mod Examples
use api_x.Base.{
  ℕ, zero, suc, ◌+◌, ◌*◌, ◌^◌, Text, str, is_blank, Bool, true, false, ◌&&◌, not, Option, none,
  some, List, [], ◌∷◌, ◌==◌, ltb, if◌then◌else◌, any, is_empty,
}
use api_x.Base.Int.{ℤ, pos, negsuc, ltb_ℤ, positive_or}
use api_x.Base.Strings.{contains, equal_fold}
use api_x.Plugin.{ProxyRequest, ProxyResponse}

pub record RetryRule : Type 0 where
  pub match_path : Text
  pub match_methods : List Text
  pub retry_on_status : List ℕ
  pub max_attempts : ℤ
  pub backoff : Text
  pub backoff_base : ℤ
  pub backoff_max : ℤ

-- `backoffBase()` and `backoffMax()`
abbrev pub base_of : RetryRule → ℕ
base_of rule = positive_or 100_000_000 rule.backoff_base

abbrev pub max_of : RetryRule → ℕ
max_of rule = positive_or 5_000_000_000 rule.backoff_max

abbrev pub default_match_methods : List Text
default_match_methods = str "GET" ∷ str "HEAD" ∷ str "OPTIONS" ∷ []

abbrev pub effective_methods : RetryRule → List Text
effective_methods rule =
    if is_empty rule.match_methods then default_match_methods else rule.match_methods

-- `time.Duration` of a floating-point number that is a natural number.
abbrev pub to_duration : (ℕ → ℤ) → ℕ → ℤ
to_duration overflowed n = if ltb n (2 ^ 63) then pos n else overflowed n

-- `sleepDuration`
unfoldable pub sleep_duration : (ℕ → ℤ) → RetryRule → ℕ → ℤ
unfolding equal_fold
sleep_duration overflowed rule attempt =
    let d =
      if equal_fold rule.backoff (str "fixed")
      then pos (base_of rule)
      else to_duration overflowed (base_of rule * 2 ^ attempt) in
    if ltb_ℤ (pos (max_of rule)) d then pos (max_of rule) else d

-- `matchesMethod`
unfoldable pub matches_method : RetryRule → Text → Bool
unfolding equal_fold
matches_method rule method = any (λ m. equal_fold m method) (effective_methods rule)

-- `matchesStatus`
unfoldable pub matches_status : RetryRule → ℕ → Bool
matches_status rule status = any (λ s. s == status) rule.retry_on_status

-- `matchesPath`
unfoldable pub matches_path : RetryRule → Text → Bool
unfolding contains
matches_path rule path = if is_blank rule.match_path then true else contains path rule.match_path

-- What happens at an attempt: the context ends during the sleep, or the request is sent and fails in
-- the network, or is answered.
pub data Attempt : Type 0 where
  cancelled network_error : Attempt
  answered : ProxyResponse → Attempt

-- The loop over the attempts, with `left` to go from number `attempt` on: what it returns, and how
-- many requests it has sent.
unfoldable pub retry_loop : RetryRule → (ℕ → Attempt) → ℕ → ℕ → ProxyResponse → ProxyResponse × ℕ
unfolding matches_status
retry_loop rule world zero attempt current = (current, 0)
retry_loop rule world (suc left) attempt current = elim (world attempt) [
  | cancelled ↦ (current, 0)
  | network_error ↦ (current, 1)
  | answered resp ↦
      let (last, sent) = retry_loop rule world left (suc attempt) resp in
      if matches_status rule resp.status_code then (last, suc sent) else (resp, 1)
]

abbrev pub positive_part : ℤ → ℕ
positive_part (pos n) = n
positive_part (negsuc n) = 0

-- The tests that a rule must pass before `OnResponse` retries by it.
unfoldable pub applies : RetryRule → ProxyRequest → ProxyResponse → Bool
unfolding matches_path matches_method matches_status
applies rule req resp =
    matches_path rule req.url.path
    && matches_method rule req.method
    && matches_status rule resp.status_code
    && ltb_ℤ (pos 0) rule.max_attempts

-- The loop of `OnResponse` over the rules.
unfoldable pub retry_by :
    List RetryRule → (ℕ → Attempt) → ProxyRequest → ProxyResponse → Option (ProxyResponse × ℕ)
unfolding applies retry_loop
retry_by [] world req resp = none
retry_by (rule ∷ rules) world req resp =
    let rest = retry_by rules world req resp in
    if applies rule req resp
    then some (retry_loop rule world (positive_part rule.max_attempts) 0 resp)
    else rest

-- `OnResponse`: the replacement and the number of requests sent; `OnRequest` does nothing
unfoldable pub on_response :
    List RetryRule → (ℕ → Attempt) → ProxyRequest → ProxyResponse → Option (ProxyResponse × ℕ)
unfolding retry_by
on_response rules world req resp = elim req.raw [
  | none ↦ none
  | some raw ↦ retry_by rules world req resp
]
