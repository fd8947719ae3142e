-- ===== src/Lib.antt =====
-- APiX is an intercepting HTTP proxy. A request passes a chain of plugins, breakpoints that hold it
-- for a decision, and rewrite rules on its way to the upstream, and its response passes them on its
-- way back. This library models the parts of internal/ that decide what happens to a message.
--
-- The parts, each with the module of its name and the code that it translates:
-- - Base: lists, text as lists of bytes, signed integers, Go maps as association lists, and the
--   tests on numbers that the other modules share.
-- - Header: http.Header, and internal/http/header_validation.go and headers.go.
-- - Regex: the interface of Go's regexp, an argument of the modules that match patterns.
-- - Plugin: pkg/plugins/sdk.go, the messages that the plugins see.
-- - PluginRuntime: internal/pluginrt/runtime.go. `register`, `unregister` with `wake`, and
--   `begin_plugin_use` with `done` are the sections of Register, Unregister and beginPluginUse under
--   the mutex; Races orders them freely in a step relation, and Chain is RunRequest and RunResponse.
-- - CircuitBreaker, PolicyEngine, RetryPolicy, Caching, HeaderEditor, FaultInjection, EnvSubst,
--   TrafficShaping, LatencyModifier, MockResponse: the plugins of internal/pluginrt/builtins
--   of these names. A hook is a function of the plugin's state, a clock reading and the message.
-- - Rewrite: internal/rewrite/rules.go.
-- - Breakpoints: internal/breakpoints, the rules and their evaluation (Matching) and the requests
--   that are held (Pausing).
-- - TokenBucket: the token buckets of internal/proxy/ratelimit.go, internal/server/ratelimit.go and
--   internal/pluginrt/builtins/rate_limiter.go. RateLimit is the rest of the first, the rate and the
--   concurrent connections of a client, with the start of ServeHTTP; PeerRateLimiter is the rest of the
--   second, and RateLimiter of the third.
-- - Grpc: internal/proxy/grpc.go, the frames of gRPC messages and the headers that tell of them.
-- - Proxy: the pipelines of internal/proxy. Limits is request_limits.go and body_limits.go; Hooks is
--   plugin_runner.go; Pausing is PauseRequest and PauseResponse of internal/engine/engine.go; MapLocal,
--   Upstream, Pipeline and Http are handleHTTP of http.go and its phases, and Tls is the pipeline of
--   https.go. Services is the interface to what they call: the plugin chain, the breakpoint manager,
--   the rewrite rules, the upstream and the websocket library, over a state of their own; Breakers
--   fills it with the circuit breaker. What a request comes to is a value: the state of the services,
--   what was sent, what was stored, and the answer, where a status is written as net/http writes it:
--   unless it has three digits WriteHeader panics, which is recovered into an error page.
-- - Config: internal/config, the checks of a configuration (Network, Values), their list of problems
--   (Checking), and its loading from a file and the environment (Loading). The engine checks a
--   configuration only when it is asked to, and runs on the loaded one.
-- - Replay: internal/replay, filters and the comparison of responses; Sending is the sources of
--   requests, ReplayRequest and RunScenario.
-- - Contracts: internal/contracts, model.go and validate.go.
-- - Har: internal/har/har.go, entries (Records), both ways between them and stored traffic, and what a
--   JSON document keeps of them (Json).
-- - Learn: internal/learn. PathPattern is path_pattern.go; Observing is the aggregates and operations
--   of openapi.go, and Schema its schemas over the JSON documents of Values.
-- - Graphql: internal/graphql/metadata.go.
-- - CertLru: internal/proxy/cert_lru.go, whose list and map Caching shares.
--
-- State that goroutines share is on a heap where the code keeps a pointer to it across a section
-- under the mutex: the entries of the plugin runtime, the paused requests, the elements of a list.
-- Everything else is passed on as a value. A map is an association list, and code that ranges over a
-- map takes the order as an argument. Numbers are natural numbers, or signed integers where the
-- configuration may be negative; counters stay below a threshold or a length, so they do not wrap.
-- Loops are over a list or a given number of attempts; on fuel are only the loop over gRPC frames, the
-- writing of a number in decimal, and the schemas of nested samples: one more than the length of the
-- body, than the number, and than the depth of the samples.
--
-- Not modelled: the rounding of floating-point token counts, clocks other than as readings, log
-- lines, metrics, the wording of errors, read errors of buffered bodies, and cancellation except
-- where a module says so. The pipelines start at a parsed request: listening, tunnels, TLS
-- handshakes, interim 1xx responses and the relay of a websocket are not in them. Left out as a
-- whole are certificates, storage, OpenAPI documents of contracts, the servers and the command
-- line, and the VS Code extension.
pub mod Base
pub mod Header
pub mod Regex
pub mod Plugin
pub mod PluginRuntime
pub mod CircuitBreaker
pub mod Rewrite
pub mod Breakpoints
pub mod PolicyEngine
pub mod RetryPolicy
pub mod RateLimit
pub mod CertLru
pub mod Caching
pub mod HeaderEditor
pub mod FaultInjection
pub mod Grpc
pub mod Proxy
pub mod Config
pub mod Replay
pub mod Contracts
pub mod TokenBucket
pub mod PeerRateLimiter
pub mod RateLimiter
pub mod Har
pub mod Learn
pub mod EnvSubst
pub mod TrafficShaping
pub mod LatencyModifier
pub mod MockResponse
pub mod Graphql
