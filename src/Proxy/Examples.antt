-- ===== src/Proxy/Examples.antt =====
-- The pipelines of internal/proxy at concrete requests, and the theorems of this folder applied to them.
use api_x.Base.{ℕ, str, true, none, some, [], ◌∷◌, ◌≡◌, ◌↔◌, refl, All}
use api_x.Base.Strings.{contains}
use api_x.CircuitBreaker.{get_breaker, matches_host}
use api_x.PluginRuntime.{returns}
use api_x.Proxy.Agreement.{pipelines_send_alike}
use api_x.Proxy.Breakers.{lost_probe_blocks, guarded, serve_all}
use api_x.Proxy.Forwarding.{rules_never_sent}
use api_x.Proxy.Http.{serve_transaction, handle_http}
use api_x.Proxy.Limits.{validate_inbound_request, max_body_bytes}
use api_x.Proxy.Limits.Bounds.{validate_inbound_request_iff, Within}
use api_x.Proxy.LocalFiles.{local_file_cut}
use api_x.Proxy.MapLocal.{apply_map_local_rules}
use api_x.Proxy.Pipeline.{goes_on, run_request_pipeline, build_transaction}
use api_x.Proxy.Services.{Services}
use api_x.Proxy.Tls.{http1_io, process_request_pipeline}
use api_x.Proxy.Transaction.{
  responds, response_headers, Transaction, is_web_socket_request, ensure_request_id,
  write_proxy_response, error_page,
}
use api_x.Proxy.Transparent.{passes_through, with_id, response_of}
use api_x.Proxy.Upstream.{upstream_request}
use api_x.Proxy.Fixtures.{
  substrings, files, cfg, inb, response, svc, bare, tx, r, tripped, down_at_9, local_response,
  cfg_0, tight,
}

rules_never_sent_example :
    (tx' : Transaction) × (s' : ℕ) × (run_request_pipeline svc tx 0 ≡ goes_on tx' s')
    × (upstream_request tx.request ≡ upstream_request tx'.request)
unfolding serve_transaction build_transaction
rules_never_sent_example =
    rules_never_sent substrings files cfg svc r tx 0 (upstream_request tx.request) refl

pipelines_send_alike_example :
    (process_request_pipeline http1_io
      (max_body_bytes 1)
      bare
      (ensure_request_id (str "1") inb.header).0
      (record inb { header = (ensure_request_id (str "1") inb.header).1 })
      0).sent
    ≡ (handle_http substrings files cfg bare (str "1") inb 0).sent
unfolding is_web_socket_request validate_inbound_request ensure_request_id
pipelines_send_alike_example =
    pipelines_send_alike http1_io (max_body_bytes 1) bare substrings files cfg (str "1") inb 0 refl
      refl refl refl (λ t. refl) refl

passes_through_example : handle_http substrings files cfg bare (str "7") inb 0 ≡ record {
  state = 1;
  sent = some (with_id (str "7") inb);
  stored = none;
  answer = write_proxy_response (response_of response) (str "yes");
}
unfolding is_web_socket_request validate_inbound_request ensure_request_id
passes_through_example =
    passes_through substrings files cfg bare (str "7") inb 0 1 response
      (refl, refl, refl, refl, refl) refl refl refl refl refl refl

lost_probe_blocks_example :
    ((serve_transaction substrings files cfg (guarded (λ w. w) down_at_9) r tx (tripped, 9)).answer
      ≡ error_page 502)
    × All
        (λ v. v.sent ≡ none)
        (serve_all
          (λ w. w)
          down_at_9
          substrings
          files
          cfg
          ((r, tx, 1000) ∷ (r, tx, 2000) ∷ [])
          (serve_transaction substrings files cfg
            (guarded (λ w. w) down_at_9)
            r
            tx
            (tripped, 9)).state.0)
unfolding is_web_socket_request build_transaction get_breaker matches_host
lost_probe_blocks_example =
    lost_probe_blocks (λ w. w) down_at_9 substrings files cfg tripped 9 r tx
      ((r, tx, 1000) ∷ (r, tx, 2000) ∷ []) refl refl refl refl refl refl refl (refl, (refl, tt))

-- A chain that hands every response on.
abbrev handing_on : Services ℕ
handing_on = record bare {
  has_plugins = true;
  run_request = some (λ req t. (t, returns (some req)));
  run_response = some (λ req given t. (t, returns (some given)));
}

local_file_cut_example :
    handle_http substrings files cfg_0 handing_on (str "1") (record inb { body = [] }) 0 ≡ record {
      state = 0;
      sent = none;
      stored = none;
      answer = responds 200 (response_headers local_response []) [];
    }
unfolding is_web_socket_request validate_inbound_request ensure_request_id apply_map_local_rules
    contains api_x.Proxy.Transaction.status_of
local_file_cut_example =
    local_file_cut substrings files cfg_0 handing_on (str "1") (record inb { body = [] }) 0
      local_response (str "local") (λ req t. (t, returns (some req)))
      (λ req given t. (t, returns (some given))) refl refl refl refl refl (λ req t. refl) refl
      (λ req given t. refl) refl refl refl

validate_inbound_request_iff_example :
    validate_inbound_request tight (str "/x") ((str "A", str "1" ∷ str "2" ∷ []) ∷ []) ≡ none
    ↔ Within tight (str "/x") ((str "A", str "1" ∷ str "2" ∷ []) ∷ [])
validate_inbound_request_iff_example =
    validate_inbound_request_iff tight (str "/x") ((str "A", str "1" ∷ str "2" ∷ []) ∷ [])
