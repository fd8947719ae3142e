-- ===== src/Proxy/Upstream.antt =====
-- The calls to the upstream: `forwardUpstream` of internal/proxy/http.go, and the dialling of websockets
-- in http.go and websocket.go.
use api_x.Base.{ℕ, Text, str, Option, none, some, List, [], ◌∷◌, any, ltb, length, if◌then◌else◌}
use api_x.Base.Strings.{text_eq}
use api_x.Grpc.{merge_trailers_into_headers, set_grpc_status_from_trailers, annotate_grpc_frames}
use api_x.Header.{Header, canonical_key}
use api_x.Plugin.{ProxyRequest}
use api_x.Proxy.Services.{
  Services, Engine, UpstreamResponse, UpstreamReply, not_built, fails_upstream, replies, Dialled,
  not_dialled, not_upgraded, connected,
}
use api_x.Proxy.Transaction.{
  Transaction, UpstreamRequest, Served, refused, bad_gateway, switches_protocols, closes,
}

-- The request that `NewRequest` and the assignment of its headers build.
abbrev pub upstream_request : ProxyRequest → UpstreamRequest
upstream_request req = record {
  method = req.method;
  url = req.url;
  headers = req.headers;
  body = req.body;
}

-- What a call to the upstream did; a response is there where it did not fail.
pub record Forwarded (S : Type 0) : Type 0 where
  pub state : S
  pub sent : Option UpstreamRequest
  pub response : Option UpstreamResponse

-- The headers of a response with its trailers and the notes on its gRPC frames.
unfoldable pub annotated : UpstreamResponse → UpstreamResponse
unfolding merge_trailers_into_headers set_grpc_status_from_trailers annotate_grpc_frames
annotated r =
    let merged = merge_trailers_into_headers r.header r.trailer in
    record r { header = annotate_grpc_frames (set_grpc_status_from_trailers merged) r.body }

abbrev pub forwarded : {S : Type 0} → ℕ → UpstreamRequest → S × UpstreamReply → Forwarded S
forwarded max_bytes up (s, not_built) = record { state = s; sent = none; response = none }
forwarded max_bytes up (s, fails_upstream) = record { state = s; sent = some up; response = none }
forwarded max_bytes up (s, replies r) = record {
  state = s;
  sent = some up;
  response = if ltb max_bytes (length r.body) then none else some (annotated r);
}

-- `forwardUpstream`
unfoldable pub forward_upstream : {S : Type 0} → Services S → ProxyRequest → ℕ → S → Forwarded S
unfolding annotated
forward_upstream svc req max_bytes s =
    forwarded max_bytes (upstream_request req) (svc.round_trip (upstream_request req) s)

-- `copyHeadersExcluding`
unfoldable pub copy_headers_excluding : Header → List Text → Header
unfolding canonical_key text_eq
copy_headers_excluding [] exclude = []
copy_headers_excluding ((k, vs) ∷ h) exclude =
    let rest = copy_headers_excluding h exclude in
    if any (λ e. text_eq (canonical_key e) k) exclude then rest else (k, vs) ∷ rest

abbrev handshake_headers : List Text
handshake_headers =
    str "Connection"
    ∷ str "Upgrade"
    ∷ str "Sec-WebSocket-Key"
    ∷ str "Sec-WebSocket-Version"
    ∷ str "Sec-WebSocket-Extensions"
    ∷ str "Host"
    ∷ []

-- A transaction is stored where there is an engine.
abbrev pub stored_by : {S : Type 0} → Option (Engine S) → Transaction → Option Transaction
stored_by none tx = none
stored_by (some e) tx = some tx

abbrev switched : {S : Type 0} → Services S → Transaction → S × Dialled → Served S
switched svc tx (s, not_dialled) = refused bad_gateway s
switched svc tx (s, not_upgraded) = record {
  state = s;
  sent = none;
  stored = none;
  answer = closes;
}
switched svc tx (s, connected status headers) = record {
  state = s;
  sent = none;
  stored = stored_by svc.engine (record tx {
    response = some (record { status_code = 101; status = status; headers = headers; body = [] });
  });
  answer = switches_protocols;
}

-- `handleWebSocket`, up to the relay between the two connections
unfoldable pub handle_web_socket : {S : Type 0} → Services S → Transaction → S → Served S
unfolding copy_headers_excluding
handle_web_socket svc tx s =
    switched svc tx
      (svc.dial tx.request (copy_headers_excluding tx.request.headers handshake_headers) s)
