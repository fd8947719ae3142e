-- ===== src/RateLimit/Examples.antt =====
-- The connection counters at concrete inputs, and the theorems of this folder applied to them.
use api_x.TokenBucket.{second}
use api_x.RateLimit.Rates.{allowed, allowed_le}
use api_x.Base.Maps.{lookup}
use api_x.Base.{
  ℕ, ◌+◌, ◌-◌, ◌*◌, ◌≤◌, List, arith, ◌≡◌, refl, true, false, Option, none, [], ◌∷◌, str, Text,
}
use api_x.Base.Int.{pos}
use api_x.Base.Strings.{text_eq}
use api_x.RateLimit.{
  ProxyRateLimiter, new_proxy_rate_limiter, acquire, release, update, count, normalize_client_ip,
}
use api_x.RateLimit.Counting.{
  System, Reach, IsCounted, start, asked, Reach-IsCounted, update_forgets,
}

-- Addresses without a port, as far as these runs go.
abbrev split : Text → Option Text
split addr = none

abbrev ip : Text
ip = str "10.0.0.1"

abbrev begun : System
begun = record { limiter = new_proxy_rate_limiter (pos 0) (pos 1); in_flight = [] }

abbrev busy : System
busy = record { limiter = record (begun.limiter) { active = (ip, 1) ∷ [] }; in_flight = ip ∷ [] }

-- The second connection of a client with a limit of one is refused, and a release makes room.
refuses : (acquire split ip busy.limiter).1 ≡ false
unfolding acquire text_eq
refuses = refl

busy-Reach : Reach split 0 busy
unfolding acquire text_eq
busy-Reach = asked ip (start (pos 0))

Reach-IsCounted_example : IsCounted split 0 busy
Reach-IsCounted_example = Reach-IsCounted split 0 busy-Reach

update_forgets_example :
    ((acquire split ip (update (pos 0) (pos 1) busy.limiter)).1 ≡ true)
    × (count (acquire split ip (update (pos 0) (pos 1) busy.limiter)).0 ip ≡ 1)
    × (count (release split ip (acquire split ip (update (pos 0) (pos 1) busy.limiter)).0) ip ≡ 0)
unfolding normalize_client_ip
update_forgets_example = update_forgets split 0 (pos 0) busy.limiter ip

abbrev calls : List (Text × ℕ)
calls = (ip, 5) ∷ (ip, 5) ∷ (ip, 1_000_000_005) ∷ []

abbrev one_each_second : ProxyRateLimiter
one_each_second = new_proxy_rate_limiter (pos 1) (pos 0)

-- The second call at one time is refused, and a second later there is a token again.
allows_two : allowed split ip calls one_each_second ≡ 2
unfolding allowed text_eq
allows_two = refl

allowed_le_example :
    allowed split ip calls one_each_second * second ≤ 1 * second + (1_000_000_005 - 5) * 1
unfolding lookup
allowed_le_example =
    allowed_le split 0 ip calls one_each_second 5 1_000_000_005 refl refl (omega arith)
