-- ===== src/Proxy/Transparent.antt =====
-- What internal/proxy/http.go does to a request that nothing is configured for.
use api_x.Base.{ap, refl, Text, false, none, some, [], ◌≡◌, ltb, length}
use api_x.Plugin.{ProxyResponse}
use api_x.Regex.{RegexLib}
use api_x.Rewrite.{apply_request_rules, apply_response_rules}
use api_x.Proxy.Hooks.{run_plugin_request, run_http_plugin_response}
use api_x.Proxy.Http.{
  handle_http, serve_transaction, resolve_special_cases, apply_request_rewrite_rules,
  forward_and_transform_response,
}
use api_x.Proxy.Limits.{validate_inbound_request, read_limited_body, max_body_bytes}
use api_x.Proxy.MapLocal.{Files, apply_map_local_rules}
use api_x.Proxy.Pipeline.{
  Config, build_transaction, run_request_pipeline, evaluate_breakpoint, finalize_transaction_phase,
  evaluate_response_breakpoint, store_and_write_response,
}
use api_x.Proxy.Services.{Services, UpstreamResponse, replies}
use api_x.Proxy.Transaction.{
  Answer, Inbound, UpstreamRequest, is_web_socket_request, ensure_request_id, write_proxy_response,
}
use api_x.Proxy.Upstream.{forward_upstream, annotated}

-- The header with a request id, and what is sent for it.
abbrev pub with_id : Text → Inbound → UpstreamRequest
with_id fresh inb = record {
  method = inb.method;
  url = inb.url;
  headers = (ensure_request_id fresh inb.header).1;
  body = inb.body;
}

abbrev pub response_of : UpstreamResponse → ProxyResponse
response_of up = record {
  status_code = up.status_code;
  status = up.status;
  headers = (annotated up).header;
  body = [];
}

module _ {S : Type 0} (lib : RegexLib) (files : Files) (cfg : Config) (svc : Services S) where
  -- The services and the configuration change nothing: no plugins, no engine, no local files.
  abbrev pub Bare : Type 0
  Bare =
      (svc.has_plugins ≡ false)
      × (svc.run_request ≡ none)
      × (svc.run_response ≡ none)
      × (svc.engine ≡ none)
      × (cfg.map_local_rules ≡ [])

  passes_with :
      (fresh : Text) (inb : Inbound) (s s' : S) (up : UpstreamResponse) (a : Answer)
      → write_proxy_response (response_of up) up.body ≡ a
      → Bare
      → validate_inbound_request cfg.limits inb.url.text (ensure_request_id fresh inb.header).1
        ≡ none
      → ltb (max_body_bytes cfg.max_body_size_mb) (length inb.body) ≡ false
      → is_web_socket_request (ensure_request_id fresh inb.header).1 ≡ false
      → svc.round_trip (with_id fresh inb) s ≡ (s', replies up)
      → ltb (max_body_bytes cfg.max_body_size_mb) (length up.body) ≡ false
      → ltb up.status_code 200 ≡ false
      → handle_http lib files cfg svc fresh inb s
        ≡ record { state = s'; sent = some (with_id fresh inb); stored = none; answer = a }
  unfolding handle_http serve_transaction read_limited_body run_request_pipeline run_plugin_request
      evaluate_breakpoint resolve_special_cases apply_request_rewrite_rules apply_request_rules
      apply_map_local_rules forward_and_transform_response forward_upstream apply_response_rules
      run_http_plugin_response finalize_transaction_phase evaluate_response_breakpoint
      store_and_write_response build_transaction
  passes_with fresh inb s s' up a e (no_plugins, no_req, no_resp, no_engine, no_files) valid fits
        plain reply small final =
      rw (valid, fits, no_req, no_engine, plain, no_files, reply, small, final, no_plugins)
        (ap (λ x. record { state = s'; sent = some (with_id fresh inb); stored = none; answer = x })
          e)

  -- A request within the limits goes to the upstream as it came, with an id, and the response is written with
  -- its status, its body and its headers, trailers and notes on gRPC frames added.
  pub passes_through :
      (fresh : Text) (inb : Inbound) (s s' : S) (up : UpstreamResponse)
      → Bare
      → validate_inbound_request cfg.limits inb.url.text (ensure_request_id fresh inb.header).1
        ≡ none
      → ltb (max_body_bytes cfg.max_body_size_mb) (length inb.body) ≡ false
      → is_web_socket_request (ensure_request_id fresh inb.header).1 ≡ false
      → svc.round_trip (with_id fresh inb) s ≡ (s', replies up)
      → ltb (max_body_bytes cfg.max_body_size_mb) (length up.body) ≡ false
      → ltb up.status_code 200 ≡ false
      → handle_http lib files cfg svc fresh inb s ≡ record {
        state = s';
        sent = some (with_id fresh inb);
        stored = none;
        answer = write_proxy_response (response_of up) up.body;
      }
  passes_through fresh inb s s' up bare valid fits plain reply small final =
      passes_with fresh inb s s' up _ refl bare valid fits plain reply small final
