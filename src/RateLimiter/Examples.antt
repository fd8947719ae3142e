-- ===== src/RateLimiter/Examples.antt =====
-- The rate limiter of rate_limiter.go at concrete requests.
use api_x.Base.{ℕ, ◌+◌, ◌-◌, ◌*◌, ◌≤◌, Text, str, Option, none, List, [], ◌∷◌, ◌≡◌, refl, arith}
use api_x.Base.Maps.{lookup}
use api_x.Plugin.{ProxyRequest}
use api_x.TokenBucket.{draw}
use api_x.RateLimiter.{
  RateRule, RateLimiter, new_rate_limiter, concerns, bucket_key, draw_for, check_rules, on_request,
}
use api_x.RateLimiter.Bounds.{passed, passed_le}

abbrev req : ProxyRequest
req = record {
  id = str "r1";
  method = str "GET";
  url = record {
    text = str "http://a/api/x";
    host = str "a";
    hostname = str "a";
    path = str "/api/x";
    query = [];
  };
  headers = [];
  body = [];
  protocol = str "HTTP/1.1";
  raw = none;
  mocked_response = none;
}

-- One token in ten nanoseconds, two at once.
abbrev rule : RateRule
rule = record {
  key_source = str "global";
  match_path = str "/api";
  rate = 1;
  burst = 2;
  reject_with = 0;
}

abbrev plugin : RateLimiter
plugin = new_rate_limiter (rule ∷ [])

abbrev no_host : Text → Option Text
no_host addr = none

abbrev no_text : ℕ → Text
no_text code = []

abbrev calls : List (ProxyRequest × ℕ)
calls = (req, 3) ∷ (req, 3) ∷ (req, 3) ∷ (req, 13) ∷ []

-- The third request at one time is refused, and ten nanoseconds later one gets through again.
lets_three : passed 10 0 (str "global") rule no_host no_text calls plugin ≡ 3
unfolding passed on_request check_rules concerns draw_for bucket_key draw
lets_three = refl

passed_le_example :
    passed 10 0 (str "global") rule no_host no_text calls plugin * 10 ≤ 2 * 10 + (13 - 3) * 1
unfolding lookup
passed_le_example =
    passed_le 10 0 (str "global") rule no_host no_text calls plugin 3 13 (λ e. refl, tt) refl
      (omega arith)
