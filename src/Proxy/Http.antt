-- ===== src/Proxy/Http.antt =====
-- `handleHTTP` of internal/proxy/http.go: what it does between the request's hooks and the response's
-- breakpoint, and the whole.
use api_x.Base.{Text, Option, none, some, List, [], ◌∷◌, ltb, if◌then◌else◌}
use api_x.Grpc.{add_all}
use api_x.Header.{Header}
use api_x.Plugin.{ProxyResponse}
use api_x.Regex.{RegexLib}
use api_x.Rewrite.{
  HttpRequest, SyntheticResponse, RewriteRule, apply_request_rules, apply_response_rules,
}
use api_x.Proxy.Hooks.{run_http_plugin_response}
use api_x.Proxy.Limits.{LimitError, validate_inbound_request, max_body_bytes, read_limited_body}
use api_x.Proxy.MapLocal.{Files, apply_map_local_rules}
use api_x.Proxy.Pipeline.{
  Config, Phase, ends, goes_on, then_do, build_transaction, run_request_pipeline,
  finalize_transaction_phase,
}
use api_x.Proxy.Services.{Services, Engine, UpstreamResponse}
use api_x.Proxy.Transaction.{
  Inbound, Transaction, Answer, error_page, status_of, written_as, UpstreamRequest, Served, refused,
  bad_gateway, http_request, ensure_request_id, is_web_socket_request,
}
use api_x.Proxy.Upstream.{forward_upstream, handle_web_socket}

-- The rules of the engine; none that load is as none at all.
abbrev pub loaded_rules : {S : Type 0} → Option (Engine S) → S → List RewriteRule
loaded_rules none s = []
loaded_rules (some e) s = elim (e.rewrite_rules s) [ none ↦ [] | some rules ↦ rules ]

abbrev add_headers : Header → Header → Header
add_headers h [] = h
add_headers h ((k, vs) ∷ rest) = add_headers (add_all h k vs) rest

abbrev pub write_synthetic : SyntheticResponse → Answer
write_synthetic synth =
    written_as (status_of synth.status_code) synth.status_code (add_headers [] synth.headers)
      synth.body

abbrev pub answer_or_edit :
    {S : Type 0} → S → Option SyntheticResponse × HttpRequest → Phase S HttpRequest
answer_or_edit s (none, r) = goes_on r s
answer_or_edit s (some synth, r) =
    ends (record { state = s; sent = none; stored = none; answer = write_synthetic synth })

abbrev pub answered : Transaction → ProxyResponse × Text → Transaction
answered tx (resp, body) = record tx { response = some resp; response_body = body }

module _ {S : Type 0} where
  -- `applyRequestRewriteRules`: it answers, or goes on with the edited request
  unfoldable pub apply_request_rewrite_rules :
      Services S → HttpRequest → Text → S → Phase S HttpRequest
  unfolding apply_request_rules status_of
  apply_request_rewrite_rules svc r body s =
      answer_or_edit s (apply_request_rules (loaded_rules svc.engine s) r body)

  abbrev pub finish :
      Services S
      → Option UpstreamRequest
      → Transaction
      → S × Option (ProxyResponse × Text)
      → Served S
  finish svc sent tx (s, none) = record {
    state = s;
    sent = sent;
    stored = none;
    answer = error_page bad_gateway;
  }
  finish svc sent tx (s, some out) = finalize_transaction_phase svc sent (answered tx out) s

module _ {S : Type 0} (lib : RegexLib) (files : Files) (cfg : Config) (svc : Services S) where
  -- A file that a map-local rule serves goes through the hooks on responses.
  abbrev pub serve_local :
      Option (ProxyResponse × Text)
      → HttpRequest
      → Transaction
      → S
      → Phase S (HttpRequest × Transaction)
  serve_local none r tx s = goes_on (r, tx) s
  serve_local (some (resp, body)) r tx s = ends (
      finish svc none tx
        (run_http_plugin_response svc tx.request resp body (max_body_bytes cfg.max_body_size_mb) s))

  abbrev pub after_rules : Phase S HttpRequest → Transaction → Phase S (HttpRequest × Transaction)
  after_rules (ends v) tx = ends v
  after_rules (goes_on r s) tx =
      serve_local (apply_map_local_rules lib files cfg.map_local_rules tx.request.url.text) r tx s

  -- `resolveSpecialCases`; it goes on with the request that the rules have edited in place
  unfoldable pub resolve_special_cases :
      HttpRequest → Transaction → S → Phase S (HttpRequest × Transaction)
  unfolding is_web_socket_request handle_web_socket apply_request_rewrite_rules
      apply_map_local_rules run_http_plugin_response finalize_transaction_phase
  resolve_special_cases r tx s =
      let ruled = after_rules (apply_request_rewrite_rules svc r tx.request_body s) tx in
      if is_web_socket_request r.header then ends (handle_web_socket svc tx s) else ruled

  -- `applyResponseRewriteRules` and the hooks on the response
  abbrev transform :
      HttpRequest → Transaction → UpstreamResponse → S → S × Option (ProxyResponse × Text)
  transform r tx up s =
      let edited =
        apply_response_rules (loaded_rules svc.engine s) r
          (record { status_code = up.status_code; header = up.header }) up.body in
      let resp : ProxyResponse = record {
        status_code = up.status_code;
        status = up.status;
        headers = edited.0.header;
        body = [];
      } in
      run_http_plugin_response svc tx.request resp edited.1 (max_body_bytes cfg.max_body_size_mb) s

  -- What follows a call to the upstream.
  abbrev pub respond_from :
      HttpRequest → Transaction → S → Option UpstreamRequest → Option UpstreamResponse → Served S
  respond_from r tx s sent none = finish svc sent tx (s, none)
  respond_from r tx s sent (some up) =
      finish svc sent tx (if ltb up.status_code 200 then (s, none) else transform r tx up s)

  -- `forwardAndTransformResponse`, and the final phase behind it
  unfoldable pub forward_and_transform_response : HttpRequest → Transaction → S → Served S
  unfolding forward_upstream apply_response_rules run_http_plugin_response
      finalize_transaction_phase
  forward_and_transform_response r tx s =
      let f = forward_upstream svc tx.request (max_body_bytes cfg.max_body_size_mb) s in
      respond_from r tx f.state f.sent f.response

  -- `handleHTTP`, behind the checks on the request's size
  unfoldable pub serve_transaction : HttpRequest → Transaction → S → Served S
  unfolding run_request_pipeline resolve_special_cases forward_and_transform_response
  serve_transaction r tx s = then_do (run_request_pipeline svc tx s) λ tx' s'.
      then_do (resolve_special_cases r tx' s') λ p s''. forward_and_transform_response p.0 p.1 s''

  abbrev serve_within : Option LimitError → Option Text → Text → Inbound → S → Served S
  serve_within (some e) body id inb s = refused 431 s
  serve_within none none id inb s = refused 413 s
  serve_within none (some body) id inb s =
      serve_transaction (http_request inb) (build_transaction id (record inb { body = body })) s

  -- `handleHTTP`, where `fresh` is the id of a request that brings none
  unfoldable pub handle_http : Text → Inbound → S → Served S
  unfolding ensure_request_id validate_inbound_request read_limited_body serve_transaction
      build_transaction
  handle_http fresh inb s =
      let (id, header) = ensure_request_id fresh inb.header in
      let inb' = record inb { header = header } in
      serve_within (validate_inbound_request cfg.limits inb.url.text header)
        (read_limited_body (max_body_bytes cfg.max_body_size_mb) inb.body) id inb' s
