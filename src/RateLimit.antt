-- ===== src/RateLimit.antt =====
-- internal/proxy/ratelimit.go: the rate of a client's requests, and the number of connections that it
-- may hold at once. A limiter that is nil admits everything; here it is not nil. `net.SplitHostPort` is an argument, `split`, that gives the host or an error.
pub mod Counting
pub mod Rates
mod Examples
use api_x.Base.{
  ℕ, zero, suc, ◌+◌, ◌-◌, Text, str, is_blank, Bool, true, false, Option, none, some, List, [], ◌∷◌,
  leb, if◌then◌else◌,
}
use api_x.Base.Int.{ℤ, pos, negsuc, leb_ℤ}
use api_x.Base.Strings.{trim_space}
use api_x.TokenBucket.{Bucket, second, new_token_bucket, draw}
use api_x.Base.Maps.{Assoc, lookup, insert, delete}

pub record ProxyRateLimiter : Type 0 where
  pub rate_per_sec : ℤ
  pub max_concurrent : ℤ
  pub buckets : Assoc Bucket
  pub active : Assoc ℕ

-- `newProxyRateLimiter`, of the two numbers of the configuration
abbrev pub new_proxy_rate_limiter : ℤ → ℤ → ProxyRateLimiter
new_proxy_rate_limiter rate_per_sec max_concurrent = record {
  rate_per_sec = rate_per_sec;
  max_concurrent = max_concurrent;
  buckets = [];
  active = [];
}

-- `normalizeClientIP`
unfoldable pub normalize_client_ip : (Text → Option Text) → Text → Text
unfolding trim_space
normalize_client_ip split addr =
    let a = trim_space addr in
    if is_blank a then str "unknown" else elim (split a) [ none ↦ a | some host ↦ host ]

abbrev pub or_zero : Option ℕ → ℕ
or_zero none = 0
or_zero (some n) = n

-- `l.active[key]`
unfoldable pub count : ProxyRateLimiter → Text → ℕ
unfolding lookup
count l key = or_zero (lookup key l.active)

-- `maxConcurrent <= 0`
abbrev pub unlimited : ProxyRateLimiter → Bool
unlimited l = leb_ℤ l.max_concurrent (pos 0)

-- `allow` at a rate, for a normalized address
unfoldable pub draw_at : ℤ → Text → ℕ → ProxyRateLimiter → ProxyRateLimiter × Bool
unfolding draw new_token_bucket
draw_at (pos (suc n)) key now l =
    let (buckets, ok) = draw second now (new_token_bucket (suc n) now) key l.buckets in
    (record l { buckets = buckets }, ok)
draw_at _ key now l = (l, true)

module _ (split : Text → Option Text) where
  -- `allow`, with the time at which the bucket is asked
  unfoldable pub allow : Text → ℕ → ProxyRateLimiter → ProxyRateLimiter × Bool
  unfolding normalize_client_ip draw_at
  allow client_ip now l = draw_at l.rate_per_sec (normalize_client_ip split client_ip) now l

  -- `acquire`
  unfoldable pub acquire : Text → ProxyRateLimiter → ProxyRateLimiter × Bool
  unfolding normalize_client_ip count insert
  acquire client_ip l =
      let key = normalize_client_ip split client_ip in
      if unlimited l
      then (l, true)
      else if leb_ℤ l.max_concurrent (pos (count l key))
      then (l, false)
      else (record l { active = insert key (count l key + 1) l.active }, true)

  -- `release`
  unfoldable pub release : Text → ProxyRateLimiter → ProxyRateLimiter
  unfolding normalize_client_ip count insert delete
  release client_ip l =
      let key = normalize_client_ip split client_ip in
      if unlimited l
      then l
      else if leb (count l key) 1
      then record l { active = delete key l.active }
      else record l { active = insert key (count l key - 1) l.active }

  -- The start of `ServeHTTP` in http.go: the request goes on only if both tests pass. Its deferred
  -- call of `release` takes the same address.
  unfoldable pub admit : Text → ℕ → ProxyRateLimiter → ProxyRateLimiter × Bool
  unfolding allow acquire
  admit remote_addr now l =
      let ip = normalize_client_ip split remote_addr in
      let (l', ok) = allow ip now l in if ok then acquire ip l' else (l', false)

-- `update`
unfoldable pub update : ℤ → ℤ → ProxyRateLimiter → ProxyRateLimiter
update rate_per_sec max_concurrent l = record {
  rate_per_sec = rate_per_sec;
  max_concurrent = max_concurrent;
  buckets = [];
  active = [];
}
