-- ===== src/RetryPolicy/Examples.antt =====
-- A retry policy at concrete inputs, and the theorems of this folder applied to them.
use api_x.Base.{ℕ, zero, suc, ◌≡◌, refl, none, some, [], ◌∷◌, str, ◌^◌}
use api_x.Base.Int.{ℤ, pos, negsuc}
use api_x.Plugin.{ProxyRequest, ProxyResponse, RawRequest}
use api_x.RetryPolicy.{RetryRule, Attempt, answered, on_response}

abbrev rule : RetryRule
rule = record {
  match_path = [];
  match_methods = [];
  retry_on_status = 503 ∷ [];
  max_attempts = pos 3;
  backoff = [];
  backoff_base = pos 0;
  backoff_max = pos 0;
}

-- A rule without attempts never applies: there is no default number.
abbrev no_attempts : RetryRule
no_attempts = record rule { max_attempts = pos 0 }

abbrev raw : RawRequest
raw = record { remote_addr = str "10.0.0.1:5000" }

abbrev req : ProxyRequest
req = record {
  id = [];
  method = str "GET";
  url = record { text = []; host = []; hostname = []; path = str "/x"; query = [] };
  headers = [];
  body = [];
  protocol = [];
  raw = some raw;
  mocked_response = none;
}

abbrev resp_of : ℕ → ProxyResponse
resp_of code = record { status_code = code; status = []; headers = []; body = [] }

-- The second attempt succeeds.
abbrev world : ℕ → Attempt
world zero = answered (resp_of 503)
world (suc n) = answered (resp_of 200)

retries : on_response (no_attempts ∷ rule ∷ []) world req (resp_of 503) ≡ some (resp_of 200, 2)
unfolding on_response
retries = refl

-- An overflow that comes out negative, as on amd64.
abbrev overflowed : ℕ → ℤ
overflowed n = negsuc (2 ^ 62)
