-- ===== src/PeerRateLimiter/Examples.antt =====
-- The interceptor of internal/server/ratelimit.go at concrete calls.
use api_x.Base.{ℕ, Text, str, Option, none, some, List, [], ◌∷◌, ◌≡◌, refl}
use api_x.Base.Int.{pos}
use api_x.Base.Strings.{text_eq}
use api_x.PeerRateLimiter.{split_host_port, interceptor_limiter}
use api_x.PeerRateLimiter.Bounds.{handled_calls}

-- The brackets of an IPv6 address stay.
cuts : split_host_port (str "[::1]:90") ≡ str "[::1]"
unfolding split_host_port
cuts = refl

abbrev calls : List (Option Text × ℕ)
calls = (some (str "h:1"), 0) ∷ (some (str "h:2"), 0) ∷ (none, 0) ∷ []

-- Two connections of one host share a bucket.
shares : handled_calls (str "h") calls (interceptor_limiter (pos 1)) ≡ 1
unfolding handled_calls interceptor_limiter text_eq
shares = refl
