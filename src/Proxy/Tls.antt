-- ===== src/Proxy/Tls.antt =====
-- internal/proxy/https.go: the pipeline of requests inside a TLS connection. It applies neither rewrite
-- rules nor map-local rules. The request of the transaction is the one that is sent, since the pauses edit
-- it in place. Interim 1xx responses, logs and metrics are left out.
use api_x.Base.{ℕ, Text, Bool, true, false, ◌&&◌, Option, none, some, ltb, length, if◌then◌else◌}
use api_x.Breakpoints.{ResumeAction, action_forward, action_drop, action_respond}
use api_x.Header.{Header}
use api_x.Plugin.{ProxyResponse}
use api_x.Proxy.Hooks.{
  HookedRequest, hook_failed, no_request, gives, run_plugin_request, run_plugin_response,
}
use api_x.Proxy.Limits.{LimitError, validate_inbound_request, max_body_bytes, read_limited_body}
use api_x.Proxy.Pausing.{Paused, pause_request, pause_response}
use api_x.Proxy.Pipeline.{Config, Phase, ends, goes_on, then_do, build_transaction, observed}
use api_x.Proxy.Services.{
  Services, Engine, HookedResponse, Reader, reads, no_reader, fails_to_read, UpstreamReply,
  not_built, fails_upstream, replies,
}
use api_x.Proxy.Transaction.{
  Inbound, Transaction, Answer, error_page, responds, UpstreamRequest, Served, refused, bad_gateway,
  is_web_socket_request, write_proxy_response,
}
use api_x.Proxy.Upstream.{annotated, upstream_request, handle_web_socket, stored_by}

-- `responseBodyForWrite`; none is its error
unfoldable pub response_body_for_write : Reader → Text → Option Text
response_body_for_write no_reader fallback = some fallback
response_body_for_write fails_to_read fallback = none
response_body_for_write (reads b) fallback = some b

-- `tlsPipelineIO`: how a response is written, and whether there is a handler of websockets.
pub record TlsPipelineIo : Type 0 where
  pub write_response : ProxyResponse → Text → Answer
  pub handles_web_socket : Bool

-- Over HTTP/1.1, where Go's `Response.Write` gets the headers (and the text of the status) as they are; and over HTTP/2.
abbrev pub http1_io : TlsPipelineIo
http1_io = record {
  write_response = λ resp body. responds resp.status_code resp.headers body;
  handles_web_socket = true;
}

abbrev pub http2_io : TlsPipelineIo
http2_io = record { write_response = write_proxy_response; handles_web_socket = false }

abbrev failed_after : {S : Type 0} → Option UpstreamRequest → ℕ → S → Served S
failed_after sent code s = record {
  state = s;
  sent = sent;
  stored = none;
  answer = error_page code;
}

module _ {S : Type 0} (io : TlsPipelineIo) (max_bytes : ℕ) (svc : Services S) where
  abbrev pub respond_or_fail :
      Option UpstreamRequest → Option ProxyResponse → (ProxyResponse → Text) → S → Served S
  respond_or_fail sent none body s = failed_after sent bad_gateway s
  respond_or_fail sent (some r) body s = record {
    state = s;
    sent = sent;
    stored = none;
    answer = io.write_response r (body r);
  }

  -- The `switch` on the action of a pause, whose error is only logged.
  abbrev pub on_action :
      Option UpstreamRequest
      → (ProxyResponse → Text)
      → ResumeAction
      → Paused
      → S
      → Phase S Transaction
  on_action sent body action_forward p s = goes_on p.tx s
  on_action sent body action_drop p s = ends (failed_after sent bad_gateway s)
  on_action sent body action_respond p s = ends (respond_or_fail sent p.tx.response body s)

  unfoldable pub tls_request_breakpoint : Option (Engine S) → Transaction → S → Phase S Transaction
  unfolding pause_request
  tls_request_breakpoint none tx s = goes_on tx s
  tls_request_breakpoint (some e) tx s =
      let (s', p) = pause_request e tx s in on_action none (λ r. r.body) p.action p s'

  -- The reader of the transaction's response has the bytes of its body.
  unfoldable pub tls_response_breakpoint :
      Option (Engine S) → Option UpstreamRequest → ℕ → Transaction → S → Phase S Transaction
  unfolding pause_response
  tls_response_breakpoint none sent code tx s = goes_on tx s
  tls_response_breakpoint (some e) sent code tx s =
      let (s', p) = pause_response e tx code tx.response_body s in
      on_action sent (λ r. p.tx.response_body) p.action p s'

  abbrev tls_store : Option UpstreamRequest → Option ProxyResponse → Transaction → S → Served S
  tls_store sent none tx s = failed_after sent bad_gateway s
  tls_store sent (some r) tx s = record {
    state = s;
    sent = sent;
    stored = stored_by svc.engine tx;
    answer = observed tx.request.raw (io.write_response r tx.response_body);
  }

  abbrev pub tls_finish :
      Option UpstreamRequest → Transaction → ProxyResponse → Option Text → S → Served S
  tls_finish sent tx resp none s = failed_after sent bad_gateway s
  tls_finish sent tx resp (some body) s =
      let tx' : Transaction = record tx { response = some resp; response_body = body } in
      then_do (tls_response_breakpoint svc.engine sent resp.status_code tx' s)
        λ tx'' s'. tls_store sent tx''.response tx'' s'

  abbrev pub tls_hooked :
      Option UpstreamRequest → Transaction → Text → S × Option HookedResponse → Served S
  tls_hooked sent tx body (s, none) = failed_after sent bad_gateway s
  tls_hooked sent tx body (s, some r) =
      tls_finish sent tx r.response (response_body_for_write r.reader body) s

  abbrev pub tls_reply : UpstreamRequest → Transaction → S × UpstreamReply → Served S
  tls_reply up tx (s, not_built) = refused bad_gateway s
  tls_reply up tx (s, fails_upstream) = failed_after (some up) bad_gateway s
  tls_reply up tx (s, replies r) =
      let resp : ProxyResponse = record {
        status_code = r.status_code;
        status = r.status;
        headers = (annotated r).header;
        body = r.body;
      } in
      let hooked = tls_hooked (some up) tx r.body (
        run_plugin_response svc tx.request (record { response = resp; reader = reads r.body }) s) in
      if ltb max_bytes (length r.body) then failed_after (some up) 413 s else hooked

  -- What follows the request's breakpoint.
  unfoldable pub tls_forward : Header → Transaction → S → Served S
  unfolding is_web_socket_request handle_web_socket annotated run_plugin_response
      response_body_for_write tls_response_breakpoint
  tls_forward header tx s =
      let up = upstream_request tx.request in
      let forwarded = tls_reply up tx (svc.round_trip up s) in
      if io.handles_web_socket && is_web_socket_request header
      then handle_web_socket svc tx s
      else forwarded

  abbrev pub tls_after_hooks : Transaction → S × HookedRequest → Phase S Transaction
  tls_after_hooks tx (s, hook_failed) = ends (refused bad_gateway s)
  tls_after_hooks tx (s, no_request) = ends (refused bad_gateway s)
  tls_after_hooks tx (s, gives req) = elim req.mocked_response [
    | none ↦ tls_request_breakpoint svc.engine (record tx { request = req }) s
    | some mock ↦ ends (respond_or_fail none (some mock) (λ r. r.body) s)
  ]

  abbrev tls_serve : Option Text → Text → Inbound → S → Served S
  tls_serve none id inb s = refused 413 s
  tls_serve (some body) id inb s =
      let tx = build_transaction id (record inb { body = body }) in
      then_do (tls_after_hooks tx (run_plugin_request svc tx.request s)) (tls_forward inb.header)

  -- `processRequestPipeline`
  unfoldable pub process_request_pipeline : Text → Inbound → S → Served S
  unfolding read_limited_body build_transaction run_plugin_request tls_request_breakpoint
      tls_forward
  process_request_pipeline id inb s = tls_serve (read_limited_body max_bytes inb.body) id inb s

abbrev tls_within : {S : Type 0} → Option LimitError → S → Served S → Served S
tls_within (some e) s served = refused 431 s
tls_within none s served = served

-- `handleRequest` and `handleHTTP2Request`, where `allowed` is what the rate limiter says
unfoldable pub handle_tls_request :
    {S : Type 0} → TlsPipelineIo → Config → Services S → Bool → Text → Inbound → S → Served S
unfolding validate_inbound_request process_request_pipeline
handle_tls_request io cfg svc allowed id inb s =
    if allowed
    then tls_within (validate_inbound_request cfg.limits inb.url.text inb.header) s
        (process_request_pipeline io (max_body_bytes cfg.max_body_size_mb) svc id inb s)
    else refused 429 s
