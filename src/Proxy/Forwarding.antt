-- ===== src/Proxy/Forwarding.antt =====
-- What internal/proxy/http.go sends to the upstream, stores and answers.
use api_x.Base.{ℕ, Text, Option, none, some, ◌≡◌, refl, ◌⊎◌, inl, inr, arith, sym, ap, ◌∙◌}
use api_x.Plugin.{ProxyRequest, ProxyResponse}
use api_x.Regex.{RegexLib}
use api_x.Rewrite.{HttpRequest}
use api_x.Proxy.Hooks.{
  HookedRequest, hook_failed, no_request, gives, run_plugin_request, run_http_plugin_response,
}
use api_x.Proxy.Http.{
  serve_transaction, resolve_special_cases, forward_and_transform_response,
  apply_request_rewrite_rules, answered, finish, respond_from, serve_local, after_rules,
}
use api_x.Proxy.Limits.{max_body_bytes}
use api_x.Proxy.MapLocal.{Files}
use api_x.Proxy.Pipeline.{
  Config, Phase, ends, goes_on, then_do, run_request_pipeline, evaluate_breakpoint,
  evaluate_response_breakpoint, store_and_write_response, finalize_transaction_phase,
  after_request_hooks,
}
use api_x.Proxy.Services.{Services, Engine, UpstreamResponse}
use api_x.Proxy.Transaction.{Transaction, Served, UpstreamRequest}
use api_x.Proxy.Upstream.{forward_upstream, handle_web_socket, upstream_request}

pub Phase-cases :
    {S A : Type 0} (ph : Phase S A)
    → ((v : Served S) × (ph ≡ ends v)) ⊎ ((a : A) × (s : S) × (ph ≡ goes_on a s))
Phase-cases (ends v) = inl (v, refl)
Phase-cases (goes_on a s) = inr (a, s, refl)

module _ {S : Type 0} where
  -- Nothing was sent to the upstream, and nothing was stored.
  abbrev pub Untouched : Served S → Type 0
  Untouched v = (v.sent ≡ none) × (v.stored ≡ none)

  breakpoint_ends :
      (e : Option (Engine S)) (tx : Transaction) (s : S) (v : Served S)
      → evaluate_breakpoint e tx s ≡ ends v
      → Untouched v
  unfolding evaluate_breakpoint
  breakpoint_ends none tx s v h = ground arith
  breakpoint_ends (some e) tx s v h = ground arith

  hooks_end :
      (svc : Services S) (tx : Transaction) (out : S × HookedRequest) (v : Served S)
      → after_request_hooks svc tx out ≡ ends v
      → Untouched v
  hooks_end svc tx (s, hook_failed) v h = ground arith
  hooks_end svc tx (s, no_request) v h = ground arith
  hooks_end svc tx (s, gives req) v h =
      ground (arith, breakpoint_ends svc.engine (record tx { request = req }) s v)

  -- A request that a hook refuses or answers, or that a breakpoint drops or answers, is neither sent nor
  -- stored.
  pub pipeline_ends :
      (svc : Services S) (tx : Transaction) (s : S) (v : Served S)
      → run_request_pipeline svc tx s ≡ ends v
      → Untouched v
  unfolding run_request_pipeline
  pipeline_ends svc tx s = hooks_end svc tx (run_plugin_request svc tx.request s)

  finalize-sent :
      (svc : Services S) (sent : Option UpstreamRequest) (tx : Transaction) (s : S)
      → (finalize_transaction_phase svc sent tx s).sent ≡ sent
  unfolding finalize_transaction_phase evaluate_response_breakpoint store_and_write_response
  finalize-sent svc sent tx s = ground arith

  forward-sent :
      (svc : Services S) (req : ProxyRequest) (n : ℕ) (s : S) (up : UpstreamRequest)
      → (forward_upstream svc req n s).sent ≡ some up
      → up ≡ upstream_request req
  unfolding forward_upstream
  forward-sent svc req n s up h = ground arith

  finish-sent :
      (svc : Services S) (sent : Option UpstreamRequest) (tx : Transaction)
      (out : S × Option (ProxyResponse × Text))
      → (finish svc sent tx out).sent ≡ sent
  finish-sent svc sent tx (s, none) = refl
  finish-sent svc sent tx (s, some out) = finalize-sent svc sent (answered tx out) s

  module _ (lib : RegexLib) (files : Files) (cfg : Config) (svc : Services S) where
    pub respond_from-sent :
        (r : HttpRequest) (tx : Transaction) (s : S) (sent : Option UpstreamRequest)
        (resp : Option UpstreamResponse)
        → (respond_from lib files cfg svc r tx s sent resp).sent ≡ sent
    respond_from-sent r tx s sent none = refl
    respond_from-sent r tx s sent (some up) = finish-sent svc sent tx _

    transform-sent :
        (r : HttpRequest) (tx : Transaction) (s : S) (up : UpstreamRequest)
        → (forward_and_transform_response lib files cfg svc r tx s).sent ≡ some up
        → up ≡ upstream_request tx.request
    unfolding forward_and_transform_response
    transform-sent r tx s up h =
        let f = forward_upstream svc tx.request (max_body_bytes cfg.max_body_size_mb) s in
        forward-sent svc tx.request _ s up
          (sym (respond_from-sent r tx f.state f.sent f.response) ∙ h)

    local_keeps :
        (served : Option (ProxyResponse × Text)) (r r' : HttpRequest) (tx tx' : Transaction)
        (s s' : S)
        → serve_local lib files cfg svc served r tx s ≡ goes_on (r', tx') s'
        → tx' ≡ tx
    local_keeps none r r' tx tx' s s' h = ground arith
    local_keeps (some out) r r' tx tx' s s' h = ground arith

    rules_keep :
        (ph : Phase S HttpRequest) (r' : HttpRequest) (tx tx' : Transaction) (s' : S)
        → after_rules lib files cfg svc ph tx ≡ goes_on (r', tx') s'
        → tx' ≡ tx
    rules_keep (ends v) r' tx tx' s' h = ground arith
    rules_keep (goes_on r s) r' tx tx' s' h = local_keeps _ r r' tx tx' s s' h

    special_cases_keep :
        (r r' : HttpRequest) (tx tx' : Transaction) (s s' : S)
        → resolve_special_cases lib files cfg svc r tx s ≡ goes_on (r', tx') s'
        → tx' ≡ tx
    unfolding resolve_special_cases
    special_cases_keep r r' tx tx' s s' h =
        ground
          (arith, rules_keep (apply_request_rewrite_rules svc r tx.request_body s) r' tx tx' s')

    local_end :
        (served : Option (ProxyResponse × Text)) (r : HttpRequest) (tx : Transaction) (s : S)
        (v : Served S)
        → serve_local lib files cfg svc served r tx s ≡ ends v
        → v.sent ≡ none
    local_end none r tx s v h = ground arith
    local_end (some (resp, body)) r tx s v h = ground (
      arith,
      finish-sent svc none tx (
          run_http_plugin_response svc tx.request resp body (max_body_bytes cfg.max_body_size_mb)
            s),
    )

    pub answered_by_rule :
        (svc' : Services S) (r : HttpRequest) (body : Text) (s : S) (v : Served S)
        → apply_request_rewrite_rules svc' r body s ≡ ends v
        → Untouched v
    unfolding apply_request_rewrite_rules
    answered_by_rule svc' r body s v h = ground arith

    switched-sent : (tx : Transaction) (s : S) → (handle_web_socket svc tx s).sent ≡ none
    unfolding handle_web_socket
    switched-sent tx s = ground arith

    rules_end :
        (ph : Phase S HttpRequest) (tx : Transaction) (v : Served S)
        → ((w : Served S) → ph ≡ ends w → Untouched w)
        → after_rules lib files cfg svc ph tx ≡ ends v
        → v.sent ≡ none
    rules_end (ends w) tx v ruled h = ground (arith, ruled w refl)
    rules_end (goes_on r s) tx v ruled h = local_end _ r tx s v h

    special_cases_end :
        (r : HttpRequest) (tx : Transaction) (s : S) (v : Served S)
        → resolve_special_cases lib files cfg svc r tx s ≡ ends v
        → v.sent ≡ none
    unfolding resolve_special_cases
    special_cases_end r tx s v h = ground (
      arith,
      switched-sent tx s,
      rules_end (apply_request_rewrite_rules svc r tx.request_body s) tx v
          (answered_by_rule svc r tx.request_body s),
    )

    -- What stands behind the request's phases.
    unfoldable pub served_on : HttpRequest → Transaction → S → Served S
    served_on r tx s =
        then_do (resolve_special_cases lib files cfg svc r tx s)
          (λ p. forward_and_transform_response lib files cfg svc p.0 p.1)

    served_on-sent :
        (r : HttpRequest) (tx : Transaction) (s : S) (up : UpstreamRequest)
        → (served_on r tx s).sent ≡ some up
        → up ≡ upstream_request tx.request
    unfolding served_on
    served_on-sent r tx s up h =
        elim (Phase-cases (resolve_special_cases lib files cfg svc r tx s)) [
          | inl (v, e) ↦ ground (arith, special_cases_end r tx s v e)
          | inr ((r', tx'), s', e) ↦
              let same : tx' ≡ tx = special_cases_keep r r' tx tx' s s' e in
              transform-sent r' tx' s' up (rw (e) at h) ∙ ap (λ t. upstream_request t.request) same
        ]

    -- What is sent to the upstream, websockets apart, is the request that the plugins and the breakpoint have let through,
    -- method, URL, headers and body, whatever the rewrite rules on requests do.
    pub rules_never_sent :
        (r : HttpRequest) (tx : Transaction) (s : S) (up : UpstreamRequest)
        → (serve_transaction lib files cfg svc r tx s).sent ≡ some up
        → (tx' : Transaction) × (s' : S) × (run_request_pipeline svc tx s ≡ goes_on tx' s')
          × (up ≡ upstream_request tx'.request)
    unfolding serve_transaction served_on
    rules_never_sent r tx s up h = elim (Phase-cases (run_request_pipeline svc tx s)) [
      | inl (v, e) ↦ absurd (ground (arith, pipeline_ends svc tx s v))
      | inr (tx', s', e) ↦ (tx', s', e, served_on-sent r tx' s' up (rw (e) at h))
    ]
