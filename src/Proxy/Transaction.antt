-- ===== src/Proxy/Transaction.antt =====
-- internal/proxy: what a request is turned into on its way (types.go, http.go), what the client is
-- answered (`writeProxyResponse`), and the tests on a request that come first.
use api_x.Base.{
  ℕ, Text, str, is_blank, Bool, ◌&&◌, ◌||◌, not, ltb, ◌==◌, Option, none, [], ◌∷◌, length, any,
  if◌then◌else◌,
}
use api_x.Base.Strings.{text_eq, equal_fold, trim_space, split, itoa}
use api_x.Base.Maps.{lookup}
use api_x.Grpc.{add_all}
use api_x.Header
use api_x.Header.{Header, canonical_key, values_or_nil}
use api_x.Plugin.{Url, RawRequest, ProxyRequest, ProxyResponse}
use api_x.Rewrite.{HttpRequest}

-- The `*http.Request` that the server hands over, with the bytes of its body.
pub record Inbound : Type 0 where
  pub method : Text
  pub url : Url
  pub header : Header
  pub body : Text
  pub content_length : ℕ
  pub protocol : Text
  pub remote_addr : Text

-- `Transaction`; the time that it took is left out. `response_body` is nil where it is empty.
pub record Transaction : Type 0 where
  pub id : Text
  pub request : ProxyRequest
  pub request_body : Text
  pub original_request_headers : Header
  pub response : Option ProxyResponse
  pub response_body : Text

-- What the client gets: an error page, by its status; a response; or the connection of a websocket,
-- which is closed where the client's side of the upgrade fails.
pub data Answer : Type 0 where
  error_page : ℕ → Answer
  responds : ℕ → Header → Text → Answer
  switches_protocols closes : Answer

-- What is sent to the upstream.
pub record UpstreamRequest : Type 0 where
  pub method : Text
  pub url : Url
  pub headers : Header
  pub body : Text

-- What became of a request: the state of the services behind it, what was sent to the upstream, the
-- transaction that was stored, and the answer.
pub record Served (S : Type 0) : Type 0 where
  pub state : S
  pub sent : Option UpstreamRequest
  pub stored : Option Transaction
  pub answer : Answer

abbrev pub bad_gateway : ℕ
bad_gateway = 502

-- An error page before anything was sent or stored.
abbrev pub refused : {S : Type 0} → ℕ → S → Served S
refused code s = record { state = s; sent = none; stored = none; answer = error_page code }

-- `Raw` of the request that the proxy builds.
abbrev pub raw_of : Inbound → RawRequest
raw_of inb = record { remote_addr = inb.remote_addr }

-- The request as the rewrite rules see it, whose body has been read.
abbrev pub http_request : Inbound → HttpRequest
http_request inb = record {
  method = inb.method;
  url = inb.url.text;
  header = inb.header;
  body = [];
  content_length = inb.content_length;
}

-- `EnsureRequestID`, where `fresh` is what `uuid.NewString` gives: the id, and the header with it
unfoldable pub ensure_request_id : Text → Header → Text × Header
unfolding Header.get Header.set
ensure_request_id fresh h =
    let id = Header.get h (str "X-Request-ID") in
    if is_blank id then (fresh, Header.set h (str "X-Request-ID") fresh) else (id, h)

-- `isWebSocketRequest`
unfoldable pub is_web_socket_request : Header → Bool
unfolding Header.get equal_fold trim_space split lookup canonical_key
is_web_socket_request h =
    equal_fold (Header.get h (str "Upgrade")) (str "websocket")
    && any (λ value. any (λ part. equal_fold (trim_space part) (str "upgrade")) (split value b','))
        (values_or_nil (lookup (canonical_key (str "Connection")) h))

-- The loop of `writeProxyResponse`, over the headers in the order of the range loop.
unfoldable pub write_headers : Header → Header → Header
unfolding Header.add text_eq
write_headers h [] = h
write_headers h ((k, vs) ∷ rest) =
    write_headers (if text_eq k (str "Content-Length") then h else add_all h k vs) rest

-- What `w.WriteHeader` takes a status for: net/http panics unless it has three digits, and sends any 1xx but
-- 101 as an interim response.
pub data Status : Type 0 where
  panics interim final : Status

unfoldable pub status_of : ℕ → Status
status_of code =
    if ltb code 100 || ltb 999 code
    then panics
    else if ltb code 200 && not (code == 101)
    then interim
    else final

-- What the client gets of `w.WriteHeader` and the writing of a body: the panic is recovered into an error
-- page, and behind an interim response the status is 200.
abbrev pub written_as : Status → ℕ → Header → Text → Answer
written_as panics code h body = error_page bad_gateway
written_as interim code h body = responds 200 h body
written_as final code h body = responds code h body

-- The headers that `writeProxyResponse` sets.
unfoldable pub response_headers : ProxyResponse → Text → Header
unfolding write_headers Header.set itoa
response_headers resp body =
    Header.set (write_headers [] resp.headers) (str "Content-Length") (itoa (length body))

-- `writeProxyResponse`
unfoldable pub write_proxy_response : ProxyResponse → Text → Answer
unfolding response_headers status_of
write_proxy_response resp body =
    written_as (status_of resp.status_code) resp.status_code (response_headers resp body) body
