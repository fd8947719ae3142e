-- ===== src/RateLimit/Rates.antt =====
-- The rate of internal/proxy/ratelimit.go against the requests that one client gets through.
use api_x.Base.{ℕ, suc, ◌+◌, ◌-◌, ◌*◌, ◌≤◌, Text, ◌&&◌, Option, none, List, [], ◌∷◌, ◌≡◌, refl, ap}
use api_x.Base.Int.{pos}
use api_x.Base.Strings.{text_eq}
use api_x.Base.Maps.{lookup}
use api_x.TokenBucket.{second}
use api_x.TokenBucket.Bounds.{UpTo}
use api_x.TokenBucket.Meter.{Timed, one_if, granted, granted_le}
use api_x.RateLimit.{ProxyRateLimiter, normalize_client_ip, draw_at, allow}

module _ (split : Text → Option Text) where
  -- How many of the calls for the client are allowed.
  unfoldable pub allowed : Text → List (Text × ℕ) → ProxyRateLimiter → ℕ
  unfolding allow
  allowed key [] l = 0
  allowed key ((ip, now) ∷ calls) l =
      let (l', ok) = allow split ip now l in
      one_if (text_eq (normalize_client_ip split ip) key && ok) + allowed key calls l'

  abbrev keyed : List (Text × ℕ) → List (Text × ℕ)
  keyed [] = []
  keyed ((ip, now) ∷ calls) = (normalize_client_ip split ip, now) ∷ keyed calls

  allowed-granted :
      (n : ℕ) (key : Text) (calls : List (Text × ℕ)) (l : ProxyRateLimiter)
      → l.rate_per_sec ≡ pos (suc n)
      → allowed key calls l ≡ granted (suc n) key (keyed calls) l.buckets
  unfolding allowed granted draw_at
  allowed-granted n key [] l e = refl
  allowed-granted n key ((ip, now) ∷ calls) l e =
      let k = normalize_client_ip split ip in
      let same : allow split ip now l ≡ draw_at (pos (suc n)) k now l =
        ap (λ r. draw_at r k now l) e in
      rw (same, allowed-granted n key calls (draw_at (pos (suc n)) k now l).0 e) refl

  Timed-keyed :
      (t end : ℕ) (calls : List (Text × ℕ)) → Timed t calls end → Timed t (keyed calls) end
  Timed-keyed t end [] h = h
  Timed-keyed t end ((ip, now) ∷ calls) h = (h.0, Timed-keyed now end calls h.1)

  -- Of any calls between two times, those that are allowed for a client without a bucket are at most
  -- one second's worth and what the rate makes of the time between.
  pub allowed_le :
      (n : ℕ) (key : Text) (calls : List (Text × ℕ)) (l : ProxyRateLimiter) (t end : ℕ)
      → l.rate_per_sec ≡ pos (suc n)
      → lookup key l.buckets ≡ none
      → Timed t calls end
      → allowed key calls l * second ≤ suc n * second + (end - t) * suc n
  allowed_le n key calls l t end rate new timed =
      let fresh : UpTo t (suc n) (lookup key l.buckets) = rw new tt in
      let le =
        granted_le (suc n) key (keyed calls) t end l.buckets (Timed-keyed t end calls timed)
          fresh in
      rw (allowed-granted n key calls l rate) (rw new at le)
