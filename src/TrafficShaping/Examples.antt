-- ===== src/TrafficShaping/Examples.antt =====
-- Traffic shaping at concrete requests.
use api_x.Base.{ℕ, Text, str, true, none, some, [], ◌∷◌, ◌≡◌, refl, arith}
use api_x.Plugin.{ProxyRequest, ProxyResponse}
use api_x.TrafficShaping.{TrafficShaping, matches_path, rejected, on_request}
use api_x.TrafficShaping.Slots.{on_req, on_resp, play, unanswered, slots_lost}

abbrev shaping : TrafficShaping
shaping = record {
  max_concurrent = 2;
  bandwidth_bps = 0;
  match_path = [];
  reject_with = 0;
  inflight = 0;
}

abbrev no_text : ℕ → Text
no_text status = []

abbrev req : ProxyRequest
req = record {
  id = str "r1";
  method = str "GET";
  url = record {
    text = str "http://a/";
    host = str "a";
    hostname = str "a";
    path = str "/";
    query = [];
  };
  headers = [];
  body = [];
  protocol = str "HTTP/1.1";
  raw = none;
  mocked_response = none;
}

abbrev ok : ProxyResponse
ok = record { status_code = 200; status = str "200 OK"; headers = []; body = [] }

-- A response makes room again.
answered :
    (play no_text (on_req req ∷ on_req req ∷ on_resp req ok ∷ on_req req ∷ []) shaping).inflight ≡ 2
unfolding play matches_path
answered = refl

every_path : matches_path shaping req ≡ true
unfolding matches_path
every_path = refl

abbrev spent : TrafficShaping
spent = unanswered no_text (req ∷ req ∷ []) shaping

slots_lost_example : on_request no_text req spent ≡ (spent, some (rejected no_text spent req))
slots_lost_example =
    slots_lost no_text (req ∷ req ∷ []) shaping req (omega arith) (every_path, (every_path, tt))
      every_path (omega arith)
