-- ===== src/PeerRateLimiter.antt =====
-- internal/server/ratelimit.go: the rate of the calls of one peer of the gRPC server. `peer` is the
-- address that the context of a call carries, if it carries one.
pub mod Bounds
mod Examples
use api_x.Base.{
  ℕ, Text, str, Bool, true, false, Option, none, some, List, [], ◌∷◌, ◌++◌, ◌==◌, if◌then◌else◌,
}
use api_x.Base.Int.{ℤ, pos, negsuc, leb_ℤ}
use api_x.Base.Maps.{Assoc}
use api_x.TokenBucket.{Bucket, second, new_token_bucket, draw}

pub record PeerRateLimiter : Type 0 where
  pub buckets : Assoc Bucket
  pub rate_per_sec : ℕ

-- `newPeerRateLimiter`, whose caller has made sure of a positive rate
abbrev pub new_peer_rate_limiter : ℕ → PeerRateLimiter
new_peer_rate_limiter rate = record { buckets = []; rate_per_sec = rate }

-- The host of `splitHostPort`: the part before the last colon, or `none` where it falls back to the
-- whole address.
unfoldable pub before_last_colon : Text → Option Text
before_last_colon [] = none
before_last_colon (c ∷ s) = elim (before_last_colon s) [
  | some host ↦ some (c ∷ host)
  | none ↦ if c == b':' then some [] else none
]

abbrev or_whole : Text → Option Text → Text
or_whole addr none = addr
or_whole addr (some host) = host

-- `splitHostPort`, which never fails
unfoldable pub split_host_port : Text → Text
unfolding before_last_colon
split_host_port addr = or_whole addr (before_last_colon addr)

abbrev or_unknown : Option Text → Text
or_unknown none = str "unknown"
or_unknown (some addr) = addr

unfoldable pub peer_key : Option Text → Text
unfolding split_host_port
peer_key peer = split_host_port (or_unknown peer)

-- `allow`
unfoldable pub allow : Option Text → ℕ → PeerRateLimiter → PeerRateLimiter × Bool
unfolding peer_key draw new_token_bucket
allow peer now l =
    let fresh = new_token_bucket l.rate_per_sec now in
    let (buckets, ok) = draw second now fresh (peer_key peer) l.buckets in
    (record l { buckets = buckets }, ok)

-- What an interceptor answers: the handler's result, or the error of an exhausted rate.
pub data Outcome {ℓ} (A : Type ℓ) : Type ℓ where
  handled : A → Outcome A
  resource_exhausted : Outcome A

-- The limiter that `rateLimitUnaryInterceptor` and `rateLimitStreamInterceptor` make for a rate.
unfoldable pub interceptor_limiter : ℤ → Option PeerRateLimiter
interceptor_limiter (pos (ℕ.suc n)) = some (new_peer_rate_limiter (ℕ.suc n))
interceptor_limiter _ = none

-- The interceptor on one call, with the handler as the value that it gives.
unfoldable pub intercept {ℓ} :
    {A : Type ℓ} → Option Text → ℕ → A → Option PeerRateLimiter → Option PeerRateLimiter × Outcome A
unfolding allow
intercept peer now result none = (none, handled result)
intercept peer now result (some l) =
    let (l', ok) = allow peer now l in (some l', if ok then handled result else resource_exhausted)
