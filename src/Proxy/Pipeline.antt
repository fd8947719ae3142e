-- ===== src/Proxy/Pipeline.antt =====
-- `handleHTTP` of internal/proxy/http.go and the phases that it runs. Interim 1xx responses, logs and
-- metrics are left out; a panic is recovered into an error page.
use api_x.Base.{ℕ, Text, Option, none, some, List, [], if◌then◌else◌}
use api_x.Breakpoints.{ResumeAction, action_forward, action_drop, action_respond}
use api_x.Grpc.{annotate_grpc_frames}
use api_x.Plugin.{RawRequest, ProxyResponse}
use api_x.Proxy.Hooks.{HookedRequest, hook_failed, no_request, gives, run_plugin_request}
use api_x.Proxy.Limits.{RequestLimits}
use api_x.Proxy.MapLocal.{MapLocalRule}
use api_x.Proxy.Pausing.{Paused, pause_request, pause_response}
use api_x.Proxy.Services.{Services, Engine}
use api_x.Proxy.Transaction.{
  Inbound, Transaction, Answer, error_page, UpstreamRequest, Served, refused, bad_gateway, raw_of,
  write_proxy_response,
}
use api_x.Proxy.Upstream.{stored_by}

-- The fields of the configuration that the pipeline reads.
pub record Config : Type 0 where
  pub limits : RequestLimits
  pub max_body_size_mb : ℕ
  pub map_local_rules : List MapLocalRule

-- A phase has answered, or the next one goes on with what it gives.
pub data Phase (S A : Type 0) : Type 0 where
  ends : Served S → Phase S A
  goes_on : A → S → Phase S A

abbrev pub then_do : {S A : Type 0} → Phase S A → (A → S → Served S) → Served S
then_do (ends v) next = v
then_do (goes_on a s) next = next a s

-- `buildProxyRequest` of the request with its id, behind the reading of the body
unfoldable pub build_transaction : Text → Inbound → Transaction
unfolding annotate_grpc_frames
build_transaction id inb = record {
  id = id;
  request = record {
    id = id;
    method = inb.method;
    url = inb.url;
    headers = inb.header;
    body = inb.body;
    protocol = inb.protocol;
    raw = some (raw_of inb);
    mocked_response = none;
  };
  request_body = inb.body;
  original_request_headers = annotate_grpc_frames inb.header inb.body;
  response = none;
  response_body = [];
}

-- A response that the client is given in place of one from the upstream, or an error page.
abbrev pub write_or_refuse :
    {S : Type 0}
    → Option UpstreamRequest
    → Option ProxyResponse
    → (ProxyResponse → Text)
    → S
    → Served S
write_or_refuse sent none body s = record {
  state = s;
  sent = sent;
  stored = none;
  answer = error_page bad_gateway;
}
write_or_refuse sent (some r) body s = record {
  state = s;
  sent = sent;
  stored = none;
  answer = write_proxy_response r (body r);
}

abbrev pub observed : Option RawRequest → Answer → Answer
observed none a = error_page bad_gateway
observed (some raw) a = a

module _ {S : Type 0} where
  abbrev pub paused_request : S × Paused → Phase S Transaction
  paused_request (s, p) =
      let on_action : ResumeAction → Phase S Transaction = λ a. elim a [
        | action_forward ↦ goes_on p.tx s
        | action_drop ↦ ends (refused bad_gateway s)
        | action_respond ↦ ends (write_or_refuse none p.tx.response (λ r. r.body) s)
      ] in
      if p.failed then ends (refused bad_gateway s) else on_action p.action

  -- `evaluateBreakpoint`
  unfoldable pub evaluate_breakpoint : Option (Engine S) → Transaction → S → Phase S Transaction
  unfolding pause_request write_proxy_response
  evaluate_breakpoint none tx s = goes_on tx s
  evaluate_breakpoint (some e) tx s = paused_request (pause_request e tx s)

  abbrev pub after_request_hooks :
      Services S → Transaction → S × HookedRequest → Phase S Transaction
  after_request_hooks svc tx (s, hook_failed) = ends (refused bad_gateway s)
  after_request_hooks svc tx (s, no_request) = ends (refused bad_gateway s)
  after_request_hooks svc tx (s, gives req) = elim req.mocked_response [
    | none ↦ evaluate_breakpoint svc.engine (record tx { request = req }) s
    | some mock ↦ ends (write_or_refuse none (some mock) (λ r. r.body) s)
  ]

  -- `runRequestPipeline`
  unfoldable pub run_request_pipeline : Services S → Transaction → S → Phase S Transaction
  unfolding run_plugin_request evaluate_breakpoint write_proxy_response
  run_request_pipeline svc tx s = after_request_hooks svc tx (run_plugin_request svc tx.request s)

  abbrev paused_response : Option UpstreamRequest → S × Paused → Phase S Transaction
  paused_response sent (s, p) =
      let stops : Phase S Transaction = ends (write_or_refuse sent none (λ r. r.body) s) in
      let on_action : ResumeAction → Phase S Transaction = λ a. elim a [
        | action_forward ↦ goes_on p.tx s
        | action_drop ↦ stops
        | action_respond ↦ ends (write_or_refuse sent p.tx.response (λ r. p.tx.response_body) s)
      ] in
      if p.failed then stops else on_action p.action

  -- `evaluateResponseBreakpoint`
  unfoldable pub evaluate_response_breakpoint :
      Option (Engine S)
      → Option UpstreamRequest
      → Option ProxyResponse
      → Transaction
      → S
      → Phase S Transaction
  unfolding pause_response write_proxy_response
  evaluate_response_breakpoint none sent resp tx s = goes_on tx s
  evaluate_response_breakpoint (some e) sent none tx s = goes_on tx s
  evaluate_response_breakpoint (some e) sent (some r) tx s =
      paused_response sent (pause_response e tx r.status_code tx.response_body s)

  abbrev pub store_response :
      Option (Engine S) → Option UpstreamRequest → Option ProxyResponse → Transaction → S → Served S
  store_response e sent none tx s = record {
    state = s;
    sent = sent;
    stored = none;
    answer = error_page bad_gateway;
  }
  store_response e sent (some r) tx s = record {
    state = s;
    sent = sent;
    stored = stored_by e tx;
    answer = observed tx.request.raw (write_proxy_response r tx.response_body);
  }

  -- `storeAndWriteResponse`; `storeAndObserve` panics on a request that has lost its original
  unfoldable pub store_and_write_response :
      Option (Engine S) → Option UpstreamRequest → Transaction → S → Served S
  unfolding write_proxy_response
  store_and_write_response e sent tx s = store_response e sent tx.response tx s

  -- `finalizeTransactionPhase`
  unfoldable pub finalize_transaction_phase :
      Services S → Option UpstreamRequest → Transaction → S → Served S
  unfolding evaluate_response_breakpoint store_and_write_response
  finalize_transaction_phase svc sent tx s =
      then_do (evaluate_response_breakpoint svc.engine sent tx.response tx s)
        (store_and_write_response svc.engine sent)
