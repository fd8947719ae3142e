-- ===== src/PeerRateLimiter/Bounds.antt =====
-- The rate of internal/server/ratelimit.go against the calls of one host that are handled.
use api_x.Base.{
  ℕ, suc, ◌+◌, ◌-◌, ◌*◌, ◌≤◌, Text, Bool, true, false, ◌&&◌, Option, some, List, [], ◌∷◌,
  if◌then◌else◌, ◌≡◌, refl,
}
use api_x.Base.Int.{pos}
use api_x.Base.Strings.{text_eq}
use api_x.Base.Maps.{lookup}
use api_x.TokenBucket.{second}
use api_x.TokenBucket.Meter.{Timed, one_if, granted, granted_le}
use api_x.PeerRateLimiter.{
  PeerRateLimiter, new_peer_rate_limiter, peer_key, allow, Outcome, handled, resource_exhausted,
  interceptor_limiter, intercept,
}

abbrev is_handled : Outcome (Unit {0}) → Bool
is_handled (handled a) = true
is_handled resource_exhausted = false

-- How many of the calls, each of a peer at a time, are handled for a host.
unfoldable pub handled_calls : Text → List (Option Text × ℕ) → Option PeerRateLimiter → ℕ
unfolding intercept
handled_calls host [] o = 0
handled_calls host ((peer, now) ∷ calls) o =
    let (o', answer) = intercept {0} peer now tt o in
    one_if (text_eq (peer_key peer) host && is_handled answer) + handled_calls host calls o'

abbrev keyed : List (Option Text × ℕ) → List (Text × ℕ)
keyed [] = []
keyed ((peer, now) ∷ calls) = (peer_key peer, now) ∷ keyed calls

Timed-keyed :
    (t end : ℕ) (calls : List (Option Text × ℕ)) → Timed t calls end → Timed t (keyed calls) end
Timed-keyed t end [] h = h
Timed-keyed t end ((peer, now) ∷ calls) h = (h.0, Timed-keyed now end calls h.1)

is_handled-if : (b : Bool) → is_handled (if b then handled tt else resource_exhausted) ≡ b
is_handled-if true = refl
is_handled-if false = refl

handled_calls-granted :
    (host : Text) (calls : List (Option Text × ℕ)) (l : PeerRateLimiter)
    → handled_calls host calls (some l) ≡ granted l.rate_per_sec host (keyed calls) l.buckets
unfolding handled_calls granted
handled_calls-granted host [] l = refl
handled_calls-granted host ((peer, now) ∷ calls) l =
    let (l', ok) = allow peer now l in
    rw (is_handled-if ok, handled_calls-granted host calls l') refl

-- With a positive rate, the calls of one host that are handled between two times are at most one
-- second's worth and what the rate makes of the time between.
pub handled_le :
    (n : ℕ) (host : Text) (calls : List (Option Text × ℕ)) (t end : ℕ)
    → Timed t calls end
    → handled_calls host calls (interceptor_limiter (pos (suc n))) * second
      ≤ suc n * second + (end - t) * suc n
unfolding interceptor_limiter lookup
handled_le n host calls t end timed =
    rw (handled_calls-granted host calls (new_peer_rate_limiter (suc n)))
      (granted_le (suc n) host (keyed calls) t end [] (Timed-keyed t end calls timed) tt)
