-- ===== src/LatencyModifier/Examples.antt =====
-- Latency rules at concrete messages.
use api_x.Base.{str, true, false, none, some, [], ◌∷◌, ◌≡◌, refl}
use api_x.Plugin.{ProxyRequest, ProxyResponse}
use api_x.LatencyModifier.{LatencyRule, on_request, on_response}

abbrev rule : LatencyRule
rule = record {
  match_path = [];
  match_method = [];
  fixed_delay = 3;
  jitter_max = 2;
  add_headers = [];
  remove_headers = str "X-Key" ∷ [];
  status_remap = [];
}

abbrev req : ProxyRequest
req = record {
  id = str "r1";
  method = str "GET";
  url = record {
    text = str "http://a/";
    host = str "a";
    hostname = str "a";
    path = str "/";
    query = [];
  };
  headers = [];
  body = [];
  protocol = str "HTTP/1.1";
  raw = none;
  mocked_response = none;
}

-- A response with a blank value before another one.
abbrev keyed : ProxyResponse
keyed = record {
  status_code = 200;
  status = str "200 OK";
  headers = (str "X-Key", [] ∷ str "secret" ∷ []) ∷ [];
  body = [];
}

stays : on_response (rule ∷ []) req keyed ≡ none
unfolding on_response api_x.Header.canonical_key
stays = refl

-- Two rules of three and one or two moments each.
waits : on_request (λ i n. 1) 0 (rule ∷ rule ∷ []) req 8 ≡ true
unfolding on_request
waits = refl

waits_longer : on_request (λ i n. 2) 0 (rule ∷ rule ∷ []) req 8 ≡ false
unfolding on_request
waits_longer = refl

-- The rules apply in order, each to the status that the last one left.
remaps :
    on_response
      (record rule { status_remap = (200, 418) ∷ [] }
        ∷ record rule { status_remap = (418, 500) ∷ [] }
        ∷ [])
      req
      keyed
    ≡ some (record keyed { status_code = 500 })
unfolding on_response api_x.Header.canonical_key
remaps = refl
