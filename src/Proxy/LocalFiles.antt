-- ===== src/Proxy/LocalFiles.antt =====
-- Which local files internal/proxy/http.go serves, and how much of them.
use api_x.Base.{
  length, ltb, Text, Bool, true, false, none, some, List, [], ◌∷◌, ◌++◌, ◌≡◌, All, take,
}
use api_x.Plugin.{ProxyRequest, ProxyResponse}
use api_x.PluginRuntime.{Outcome, returns}
use api_x.Regex.{RegexLib}
use api_x.Rewrite.{apply_request_rules}
use api_x.Proxy.Hooks.{
  run_plugin_request, run_plugin_response, run_http_plugin_response, drain_plugin_response_body,
}
use api_x.Proxy.Http.{
  handle_http, serve_transaction, resolve_special_cases, apply_request_rewrite_rules,
}
use api_x.Proxy.Limits.{max_body_bytes, read_limited_body, validate_inbound_request}
use api_x.Proxy.MapLocal.{
  MapLocalRule, Files, pattern_matches, serve_file, effective_file_path, apply_map_local_rules,
}
use api_x.Proxy.Pipeline.{
  Config, build_transaction, run_request_pipeline, evaluate_breakpoint, finalize_transaction_phase,
  evaluate_response_breakpoint, store_and_write_response,
}
use api_x.Proxy.Services.{Services, HookedResponse}
use api_x.Proxy.Transaction.{
  Inbound, ensure_request_id, is_web_socket_request, status_of, final, responds, response_headers,
  write_proxy_response,
}

module _ (lib : RegexLib) (files : Files) where
  abbrev pub Applies : Text → MapLocalRule → Bool → Type 0
  Applies url rule b = pattern_matches lib files (lib.compile rule.url_pattern) url ≡ b

  -- The file of the first rule that matches the URL is served: the rules before it do not match, or their
  -- patterns do not compile, and those behind it do not matter.
  pub first_match_served :
      (before : List MapLocalRule) (rule : MapLocalRule) (after : List MapLocalRule) (url : Text)
      → All (λ other. Applies url other false) before
      → Applies url rule true
      → apply_map_local_rules lib files (before ++ rule ∷ after) url
        ≡ some (serve_file lib files rule (files.read_file (effective_file_path rule)))
  unfolding apply_map_local_rules
  first_match_served [] rule after url others m = rw (m)
  first_match_served (other ∷ before) rule after url (o, others) m =
      rw (o) (first_match_served before rule after url others m)

  -- With a chain of plugins that hands every request and response on, and without an engine, a request
  -- within the limits that is no websocket and whose URL a map-local rule serves with a final status gets
  -- the file cut at the limit on bodies, with the length of what is left of it as its Content-Length.
  pub local_file_cut :
      {S : Type 0} (cfg : Config) (svc : Services S) (fresh : Text) (inb : Inbound) (s : S)
      (resp : ProxyResponse) (body : Text) (asks : ProxyRequest → S → S × Outcome ProxyRequest)
      (chain : ProxyRequest → HookedResponse → S → S × Outcome HookedResponse)
      → validate_inbound_request cfg.limits inb.url.text (ensure_request_id fresh inb.header).1
        ≡ none
      → ltb (max_body_bytes cfg.max_body_size_mb) (length inb.body) ≡ false
      → is_web_socket_request (ensure_request_id fresh inb.header).1 ≡ false
      → svc.engine ≡ none
      → svc.run_request ≡ some asks
      → ((req : ProxyRequest) (t : S) → asks req t ≡ (t, returns (some req)))
      → svc.run_response ≡ some chain
      → ((req : ProxyRequest) (given : HookedResponse) (t : S)
          → chain req given t ≡ (t, returns (some given)))
      → svc.has_plugins ≡ true
      → apply_map_local_rules lib files cfg.map_local_rules inb.url.text ≡ some (resp, body)
      → status_of resp.status_code ≡ final
      → handle_http lib files cfg svc fresh inb s ≡ record {
        state = s;
        sent = none;
        stored = none;
        answer =
            responds resp.status_code
              (response_headers resp (take (max_body_bytes cfg.max_body_size_mb) body))
              (take (max_body_bytes cfg.max_body_size_mb) body);
      }
  unfolding handle_http serve_transaction read_limited_body run_request_pipeline run_plugin_request
      evaluate_breakpoint build_transaction resolve_special_cases apply_request_rewrite_rules
      apply_request_rules run_http_plugin_response run_plugin_response drain_plugin_response_body
      finalize_transaction_phase evaluate_response_breakpoint store_and_write_response
      write_proxy_response
  local_file_cut cfg svc fresh inb s resp body asks chain valid fits plain no_engine has_asks
        asks_on has_chain hands_on plugged served sends =
      rw (
        valid, fits, has_asks, asks_on, no_engine, plain, served, has_chain, plugged, hands_on,
        sends,
      )
