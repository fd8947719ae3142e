-- ===== src/TokenBucket.antt =====
-- The token buckets of internal/proxy/ratelimit.go, internal/server/ratelimit.go and the bucket of
-- internal/pluginrt/builtins/rate_limiter.go, which do the same. `now` is the reading of the monotonic
-- clock in nanoseconds, taken under the bucket's mutex. The float64 count of tokens is exact here: it
-- is counted in parts of a token, so that a bucket is refilled by a whole number of parts in each
-- nanosecond. Rates and capacities are not negative.
pub mod Bounds
pub mod Meter
use api_x.Base.{ℕ, ◌+◌, ◌-◌, ◌*◌, Text, Bool, true, false, Option, none, some, ltb, if◌then◌else◌}
use api_x.Base.Maps.{Assoc, lookup, insert}

pub record Bucket : Type 0 where
  pub tokens : ℕ  -- in parts of a token
  pub capacity : ℕ  -- maxTokens or burst, in parts of a token
  pub rate : ℕ  -- in parts of a token for each nanosecond
  pub last_time : ℕ

-- The parts of a token in the proxy and the server, whose rates are whole numbers for each second.
abbrev pub second : ℕ
second = 1_000_000_000

-- `newTokenBucket`
unfoldable pub new_token_bucket : ℕ → ℕ → Bucket
new_token_bucket rate_per_sec now = record {
  tokens = rate_per_sec * second;
  capacity = rate_per_sec * second;
  rate = rate_per_sec;
  last_time = now;
}

abbrev at_most : ℕ → ℕ → ℕ
at_most cap n = if ltb cap n then cap else n

-- `allow`, where a token has so many parts
unfoldable pub allow : ℕ → ℕ → Bucket → Bucket × Bool
allow parts now b =
    let full = at_most b.capacity (b.tokens + (now - b.last_time) * b.rate) in
    if ltb full parts
    then (record b { tokens = full; last_time = now }, false)
    else (record b { tokens = full - parts; last_time = now }, true)

abbrev pub or_fresh : Option Bucket → Bucket → Bucket
or_fresh none fresh = fresh
or_fresh (some b) fresh = b

-- The bucket of a key, which is made if it is missing, and a token out of it.
unfoldable pub draw : ℕ → ℕ → Bucket → Text → Assoc Bucket → Assoc Bucket × Bool
unfolding allow lookup insert
draw parts now fresh key m =
    let (b, ok) = allow parts now (or_fresh (lookup key m) fresh) in (insert key b m, ok)
