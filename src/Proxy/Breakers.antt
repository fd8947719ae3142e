-- ===== src/Proxy/Breakers.antt =====
-- The pipeline of internal/proxy/http.go with internal/pluginrt/builtins/circuit_breaker.go as its plugin.
-- Go's pipeline calls a plugin's hook on responses only for a response that there is.
use api_x.Base.{ℕ, ◌-◌, Text, true, false, none, some, List, [], ◌∷◌, ◌≡◌, refl, arith, All, leb}
use api_x.Base.Strings.{text_eq_refl}
use api_x.CircuitBreaker.{
  CircuitBreaker, half_open, open_circuit, get_breaker, matches_host, open_duration, on_request,
  on_response, request_step, blocked_503,
}
use api_x.CircuitBreaker.Hosts.{on_req, get_breaker-hook, matches_host-hook, hook}
use api_x.CircuitBreaker.Runs.{step}
use api_x.Plugin.{ProxyRequest}
use api_x.PluginRuntime.{returns}
use api_x.PluginRuntime.Chain.{or_same}
use api_x.Regex.{RegexLib}
use api_x.Rewrite.{HttpRequest}
use api_x.Proxy.Hooks.{run_plugin_request}
use api_x.Proxy.Http.{serve_transaction, forward_and_transform_response}
use api_x.Proxy.MapLocal.{Files}
use api_x.Proxy.Pipeline.{Config, goes_on, run_request_pipeline, evaluate_breakpoint}
use api_x.Proxy.Services.{Services, fails_upstream}
use api_x.Proxy.Agreement.{plain_goes_on}
use api_x.Proxy.Tls.{http2_io}
use api_x.Proxy.Transaction.{Transaction, Served, is_web_socket_request, error_page, bad_gateway}
use api_x.Proxy.Upstream.{upstream_request, forward_upstream}

module _ {W : Type 0} (now : W → ℕ) (base : Services W) where
  abbrev beside : {A : Type 0} → CircuitBreaker → W × A → (CircuitBreaker × W) × A
  beside p (w, a) = ((p, w), a)

  -- The services of a proxy whose only plugin is a circuit breaker, and which has no engine; `now` is the
  -- clock, and the upstream and the rest of the world stand beside the plugin's state.
  unfoldable pub guarded : Services (CircuitBreaker × W)
  unfolding on_request on_response
  guarded = record {
    has_plugins = true;
    run_request = some λ req (p, w). (
      ((on_request p (now w) req).0, w),
      returns (some (or_same (on_request p (now w) req).1 req)),
    );
    run_response =
        some λ req resp (p, w). ((on_response p (now w) req resp.response, w), returns (some resp));
    engine = none;
    round_trip = λ up (p, w). beside p (base.round_trip up w);
    dial = λ req h (p, w). beside p (base.dial req h w);
  }

  module _ (lib : RegexLib) (files : Files) (cfg : Config) where
    -- Requests one after another, each at a moment of its own, and what became of them.
    unfoldable pub serve_all :
        List (HttpRequest × Transaction × W) → CircuitBreaker → List (Served (CircuitBreaker × W))
    unfolding guarded serve_transaction
    serve_all [] p = []
    serve_all ((r, tx, w) ∷ rest) p =
        let v = serve_transaction lib files cfg guarded r tx (p, w) in v ∷ serve_all rest v.state.0

    -- The host is refused: its breaker is half open, with a probe in flight.
    abbrev pub Blocked : CircuitBreaker → Text → Type 0
    Blocked p host =
        (matches_host p host ≡ true)
        × ((get_breaker p host).state ≡ half_open)
        × ((get_breaker p host).half_open_pending ≡ true)

    request-Blocked :
        (p : CircuitBreaker) (n : ℕ) (req : ProxyRequest)
        → Blocked p req.url.hostname
        → Blocked (on_request p n req).0 req.url.hostname
          × ((on_request p n req).1 ≡ some (blocked_503 req))
    unfolding on_request request_step hook step
    request-Blocked p n req h =
        let host = req.url.hostname in
        ground (
          arith,
          text_eq_refl host,
          get_breaker-hook p (on_req n req) host h.0,
          matches_host-hook p (on_req n req) host,
        )

    serve-Blocked :
        (p : CircuitBreaker) (w : W) (r : HttpRequest) (tx : Transaction)
        → Blocked p tx.request.url.hostname
        → Blocked
            (serve_transaction lib files cfg guarded r tx (p, w)).state.0
            tx.request.url.hostname
          × ((serve_transaction lib files cfg guarded r tx (p, w)).sent ≡ none)
    unfolding serve_transaction run_request_pipeline run_plugin_request guarded
    serve-Blocked p w r tx h =
        let (b, e) = request-Blocked p (now w) tx.request h in rw (e) (b, refl)

    admits_probe :
        (p : CircuitBreaker) (n : ℕ) (req : ProxyRequest)
        → matches_host p req.url.hostname ≡ true
        → (get_breaker p req.url.hostname).state ≡ open_circuit
        → leb (open_duration p) (n - (get_breaker p req.url.hostname).opened_at) ≡ true
        → Blocked (on_request p n req).0 req.url.hostname × ((on_request p n req).1 ≡ none)
    unfolding on_request request_step hook step
    admits_probe p n req m opened over =
        let host = req.url.hostname in
        ground (
          arith,
          text_eq_refl host,
          get_breaker-hook p (on_req n req) host m,
          matches_host-hook p (on_req n req) host,
        )

    let_through :
        (p : CircuitBreaker) (w : W) (tx : Transaction)
        → tx.request.mocked_response ≡ none
        → (on_request p (now w) tx.request).1 ≡ none
        → run_request_pipeline guarded tx (p, w)
          ≡ goes_on tx ((on_request p (now w) tx.request).0, w)
    unfolding run_request_pipeline run_plugin_request guarded evaluate_breakpoint
    let_through p w tx unmocked through = rw (through, unmocked)

    outage :
        (q : CircuitBreaker) (w : W) (r : HttpRequest) (tx : Transaction)
        → (base.round_trip (upstream_request tx.request) w).1 ≡ fails_upstream
        → forward_and_transform_response lib files cfg guarded r tx (q, w) ≡ record {
          state = (q, (base.round_trip (upstream_request tx.request) w).0);
          sent = some (upstream_request tx.request);
          stored = none;
          answer = error_page bad_gateway;
        }
    unfolding forward_and_transform_response forward_upstream guarded
    outage q w r tx down = rw (down)

    probe_fails :
        (p : CircuitBreaker) (w : W) (r : HttpRequest) (tx : Transaction)
        → is_web_socket_request r.header ≡ false
        → cfg.map_local_rules ≡ []
        → tx.request.mocked_response ≡ none
        → (base.round_trip (upstream_request tx.request) w).1 ≡ fails_upstream
        → (on_request p (now w) tx.request).1 ≡ none
        → serve_transaction lib files cfg guarded r tx (p, w) ≡ record {
          state = (
            (on_request p (now w) tx.request).0,
            (base.round_trip (upstream_request tx.request) w).0,
          );
          sent = some (upstream_request tx.request);
          stored = none;
          answer = error_page bad_gateway;
        }
    unfolding serve_transaction guarded
    probe_fails p w r tx plain no_files unmocked down through =
        let q = (on_request p (now w) tx.request).0 in
        rw
          (
            let_through p w tx unmocked through,
            plain_goes_on http2_io 0 guarded lib files cfg r tx (q, w) plain (λ t. refl) no_files,
          )
          (outage q w r tx down)

    never_sent_again :
        (host : Text) (rest : List (HttpRequest × Transaction × W)) (p : CircuitBreaker)
        → All (λ x. x.1.request.url.hostname ≡ host) rest
        → Blocked p host
        → All (λ v. v.sent ≡ none) (serve_all rest p)
    unfolding serve_all
    never_sent_again host [] p same h = same
    never_sent_again host ((r, tx, w) ∷ rest) p (same, later) h =
        let (b, e) = serve-Blocked p w r tx (rw (same) h) in
        (e, never_sent_again host rest _ later (rw (← same) b))

    -- When the upstream fails the request that an open circuit lets through as its probe, the client gets
    -- an error page, and no later request for that host is sent to the upstream, at any time and
    -- whatever the upstream does by then.
    pub lost_probe_blocks :
        (p : CircuitBreaker) (w : W) (r : HttpRequest) (tx : Transaction)
        (rest : List (HttpRequest × Transaction × W))
        → is_web_socket_request r.header ≡ false
        → cfg.map_local_rules ≡ []
        → tx.request.mocked_response ≡ none
        → (base.round_trip (upstream_request tx.request) w).1 ≡ fails_upstream
        → matches_host p tx.request.url.hostname ≡ true
        → (get_breaker p tx.request.url.hostname).state ≡ open_circuit
        → leb (open_duration p) (now w - (get_breaker p tx.request.url.hostname).opened_at) ≡ true
        → All (λ x. x.1.request.url.hostname ≡ tx.request.url.hostname) rest
        → ((serve_transaction lib files cfg guarded r tx (p, w)).answer ≡ error_page bad_gateway)
          × All
              (λ v. v.sent ≡ none)
              (serve_all rest (serve_transaction lib files cfg guarded r tx (p, w)).state.0)
    lost_probe_blocks p w r tx rest plain no_files unmocked down m opened over same =
        let (b, through) = admits_probe p (now w) tx.request m opened over in
        rw (probe_fails p w r tx plain no_files unmocked down through)
          (refl, never_sent_again tx.request.url.hostname rest _ same b)
