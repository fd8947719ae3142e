-- ===== src/Proxy/Hooks.antt =====
-- internal/proxy/plugin_runner.go: running the chain's hooks, and `runPluginResponse` of http.go.
-- `recoverProxyPanic` turns a panic into an error. Timeouts are errors of the chain; metrics and the
-- measuring of memory are left out.
use api_x.Base.{ℕ, Text, Option, none, some, take, if◌then◌else◌}
use api_x.Plugin.{ProxyRequest, ProxyResponse}
use api_x.PluginRuntime.{Outcome, returns, fails, panics}
use api_x.Proxy.Services.{Services, HookedResponse, Reader, reads, no_reader, fails_to_read}

-- The request after the hooks; `no_request` is a nil request without an error.
pub data HookedRequest : Type 0 where
  hook_failed no_request : HookedRequest
  gives : ProxyRequest → HookedRequest

abbrev hooked_request : Outcome ProxyRequest → HookedRequest
hooked_request (returns none) = no_request
hooked_request (returns (some req)) = gives req
hooked_request (fails e) = hook_failed
hooked_request (panics e) = hook_failed

abbrev hooked_response : Outcome HookedResponse → HookedResponse → Option HookedResponse
hooked_response (returns none) resp = some resp
hooked_response (returns (some resp')) resp = some resp'
hooked_response (fails e) resp = none
hooked_response (panics e) resp = none

module _ {S : Type 0} where
  abbrev run_request_hook :
      Option (ProxyRequest → S → S × Outcome ProxyRequest) → ProxyRequest → S → S × HookedRequest
  run_request_hook none req s = (s, gives req)
  run_request_hook (some hook) req s = let (s', out) = hook req s in (s', hooked_request out)

  -- `runPluginRequest`
  unfoldable pub run_plugin_request : Services S → ProxyRequest → S → S × HookedRequest
  run_plugin_request svc req s = run_request_hook svc.run_request req s

  abbrev run_response_hook :
      Option (ProxyRequest → HookedResponse → S → S × Outcome HookedResponse)
      → ProxyRequest
      → HookedResponse
      → S
      → S × Option HookedResponse
  run_response_hook none req resp s = (s, some resp)
  run_response_hook (some hook) req resp s =
      let (s', out) = hook req resp s in (s', hooked_response out resp)

  -- `runPluginResponse`; none is an error
  unfoldable pub run_plugin_response :
      Services S → ProxyRequest → HookedResponse → S → S × Option HookedResponse
  run_plugin_response svc req resp s = run_response_hook svc.run_response req resp s

-- `drainPluginResponseBody`, and what stands for the body where there is no reader
unfoldable pub drain_plugin_response_body : ℕ → Reader → Text → Option Text
drain_plugin_response_body max_bytes no_reader body = some body
drain_plugin_response_body max_bytes fails_to_read body = none
drain_plugin_response_body max_bytes (reads b) body = some (take max_bytes b)

abbrev with_body : ProxyResponse → Option Text → Option (ProxyResponse × Text)
with_body resp none = none
with_body resp (some b) = some (resp, b)

abbrev drained : ℕ → Text → Option HookedResponse → Option (ProxyResponse × Text)
drained max_bytes body none = none
drained max_bytes body (some r) =
    with_body r.response (drain_plugin_response_body max_bytes r.reader body)

module _ {S : Type 0} where
  -- `(*HTTPProxy).runPluginResponse`: the response and its body, or an error
  unfoldable pub run_http_plugin_response :
      Services S → ProxyRequest → ProxyResponse → Text → ℕ → S → S × Option (ProxyResponse × Text)
  unfolding run_plugin_response drain_plugin_response_body
  run_http_plugin_response svc req resp body max_bytes s =
      let (s', hooked) =
        run_plugin_response svc req
          (record { response = record resp { body = body }; reader = reads body }) s in
      if svc.has_plugins then (s', drained max_bytes body hooked) else (s, some (resp, body))
