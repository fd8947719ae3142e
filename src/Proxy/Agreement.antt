-- ===== src/Proxy/Agreement.antt =====
-- The pipelines of internal/proxy/http.go and internal/proxy/https.go, next to each other.
use api_x.Base.{
  ℕ, Text, Bool, true, false, ◌&&◌, Option, none, some, [], ◌≡◌, refl, sym, ◌∙◌, inl, inr, arith,
  Option-cases, ltb, length,
}
use api_x.Breakpoints.{ResumeAction, action_forward, action_drop, action_respond}
use api_x.Header.{Header}
use api_x.Plugin.{ProxyResponse}
use api_x.Regex.{RegexLib}
use api_x.Rewrite.{HttpRequest, apply_request_rules}
use api_x.Proxy.Forwarding.{served_on, respond_from-sent}
use api_x.Proxy.Hooks.{
  HookedRequest, hook_failed, no_request, gives, run_plugin_request, run_plugin_response,
}
use api_x.Proxy.Http.{
  serve_transaction, handle_http, resolve_special_cases, forward_and_transform_response,
  apply_request_rewrite_rules, loaded_rules,
}
use api_x.Proxy.Limits.{max_body_bytes, read_limited_body, validate_inbound_request}
use api_x.Proxy.MapLocal.{Files, apply_map_local_rules}
use api_x.Proxy.Pausing.{Paused, pause_request}
use api_x.Proxy.Pipeline.{
  Config, Phase, ends, goes_on, then_do, build_transaction, run_request_pipeline,
  evaluate_breakpoint, after_request_hooks, paused_request, write_or_refuse,
}
use api_x.Proxy.Services.{
  Services, Engine, HookedResponse, UpstreamResponse, reads, UpstreamReply, not_built,
  fails_upstream, replies,
}
use api_x.Proxy.Tls.{
  TlsPipelineIo, tls_request_breakpoint, tls_response_breakpoint, tls_forward, tls_after_hooks,
  tls_hooked, tls_finish, tls_reply, on_action, respond_or_fail, process_request_pipeline,
}
use api_x.Proxy.Transaction.{
  Inbound, Transaction, Served, UpstreamRequest, is_web_socket_request, http_request,
  ensure_request_id,
}
use api_x.Proxy.Upstream.{annotated, forward_upstream, forwarded, upstream_request}

-- Two phases that end without having sent anything, or go on with the same.
data Alike {S : Type 0} : Phase S Transaction → Phase S Transaction → Type 0 where
  both_end : {v w : Served S} → v.sent ≡ none → w.sent ≡ none → Alike (ends v) (ends w)
  both_go_on : {tx : Transaction} {s : S} → Alike (goes_on tx s) (goes_on tx s)

failed_pauses_respond :
    {S : Type 0} (e : Engine S) (tx : Transaction) (s : S)
    → (pause_request e tx s).1.failed ≡ true
    → (pause_request e tx s).1.action ≡ action_respond
unfolding pause_request
failed_pauses_respond e tx s h = ground arith

module _ {S : Type 0} (io : TlsPipelineIo) (n : ℕ) (svc : Services S) where
  answers_agree :
      (resp : Option ProxyResponse) (body : ProxyResponse → Text) (w : Served S) (s : S)
      → w.sent ≡ none
      → Alike (ends (respond_or_fail io n svc none resp body s)) (ends w)
  answers_agree none body w s h = both_end refl h
  answers_agree (some r) body w s h = both_end refl h

  write_or_refuse-sent :
      (resp : Option ProxyResponse) (body : ProxyResponse → Text) (s : S)
      → (write_or_refuse none resp body s).sent ≡ none
  write_or_refuse-sent none body s = refl
  write_or_refuse-sent (some r) body s = refl

  actions_agree :
      (action : ResumeAction) (failed : Bool) (p : Paused) (s : S)
      → p.action ≡ action
      → p.failed ≡ failed
      → (p.failed ≡ true → p.action ≡ action_respond)
      → Alike (on_action io n svc none (λ r. r.body) p.action p s) (paused_request (s, p))
  actions_agree action_forward false p s a f h = rw (a, f) both_go_on
  actions_agree action_drop false p s a f h = rw (a, f) (both_end refl refl)
  actions_agree action_respond false p s a f h =
      rw (a, f) (answers_agree p.tx.response _ _ s (write_or_refuse-sent p.tx.response _ s))
  actions_agree action_respond true p s a f h = rw (a, f) (answers_agree p.tx.response _ _ s refl)
  actions_agree action_forward true p s a f h = absurd (ground arith)
  actions_agree action_drop true p s a f h = absurd (ground arith)

  breakpoints_agree :
      (e : Option (Engine S)) (tx : Transaction) (s : S)
      → Alike (tls_request_breakpoint io n svc e tx s) (evaluate_breakpoint e tx s)
  unfolding tls_request_breakpoint evaluate_breakpoint
  breakpoints_agree none tx s = both_go_on
  breakpoints_agree (some e) tx s =
      let (s', p) = pause_request e tx s in
      actions_agree p.action p.failed p s' refl refl (failed_pauses_respond e tx s)

  hooks_agree :
      (tx : Transaction) (out : S × HookedRequest)
      → Alike (tls_after_hooks io n svc tx out) (after_request_hooks svc tx out)
  hooks_agree tx (s, hook_failed) = both_end refl refl
  hooks_agree tx (s, no_request) = both_end refl refl
  hooks_agree tx (s, gives req) = elim (Option-cases req.mocked_response) [
    | inl e ↦ rw (e) (breakpoints_agree svc.engine (record tx { request = req }) s)
    | inr (mock, e) ↦ rw (e) (both_end refl refl)
  ]

  tls_finish-sent :
      (sent : Option UpstreamRequest) (tx : Transaction) (resp : ProxyResponse) (body : Option Text)
      (s : S)
      → (tls_finish io n svc sent tx resp body s).sent ≡ sent
  unfolding tls_response_breakpoint
  tls_finish-sent sent tx resp none s = refl
  tls_finish-sent sent tx resp (some body) s = ground arith

  tls_hooked-sent :
      (sent : Option UpstreamRequest) (tx : Transaction) (body : Text)
      (out : S × Option HookedResponse)
      → (tls_hooked io n svc sent tx body out).sent ≡ sent
  tls_hooked-sent sent tx body (s, none) = refl
  tls_hooked-sent sent tx body (s, some r) = tls_finish-sent sent tx r.response _ s

  abbrev resp_of : UpstreamResponse → ProxyResponse
  resp_of r = record {
    status_code = r.status_code;
    status = r.status;
    headers = (annotated r).header;
    body = r.body;
  }

  reply-sent :
      (tx : Transaction) (m : ℕ) (out : S × UpstreamReply)
      → (tls_reply io n svc (upstream_request tx.request) tx out).sent
        ≡ (forwarded m (upstream_request tx.request) out).sent
  reply-sent tx m (s, not_built) = refl
  reply-sent tx m (s, fails_upstream) = refl
  reply-sent tx m (s, replies r) = ground (
    arith,
    tls_hooked-sent (some (upstream_request tx.request)) tx r.body (
        run_plugin_response svc tx.request (record { response = resp_of r; reader = reads r.body })
          s),
  )

  tls_forward-sent :
      (header : Header) (tx : Transaction) (s : S) (m : ℕ)
      → (io.handles_web_socket && is_web_socket_request header) ≡ false
      → (tls_forward io n svc header tx s).sent ≡ (forward_upstream svc tx.request m s).sent
  unfolding tls_forward forward_upstream
  tls_forward-sent header tx s m plain =
      rw (plain) (reply-sent tx m (svc.round_trip (upstream_request tx.request) s))

  module _ (lib : RegexLib) (files : Files) (cfg : Config) where
    pub plain_goes_on :
        (r : HttpRequest) (tx : Transaction) (s : S)
        → is_web_socket_request r.header ≡ false
        → ((t : S) → loaded_rules svc.engine t ≡ [])
        → cfg.map_local_rules ≡ []
        → resolve_special_cases lib files cfg svc r tx s ≡ goes_on (r, tx) s
    unfolding resolve_special_cases apply_request_rewrite_rules apply_request_rules
        apply_map_local_rules
    plain_goes_on r tx s plain no_rules no_files = rw (plain, no_rules s, no_files)

    http_sent :
        (r : HttpRequest) (tx : Transaction) (s : S)
        → is_web_socket_request r.header ≡ false
        → ((t : S) → loaded_rules svc.engine t ≡ [])
        → cfg.map_local_rules ≡ []
        → (served_on lib files cfg svc r tx s).sent
          ≡ (forward_upstream svc tx.request (max_body_bytes cfg.max_body_size_mb) s).sent
    unfolding served_on forward_and_transform_response
    http_sent r tx s plain no_rules no_files =
        let f = forward_upstream svc tx.request (max_body_bytes cfg.max_body_size_mb) s in
        rw (plain_goes_on r tx s plain no_rules no_files)
          (respond_from-sent lib files cfg svc r tx f.state f.sent f.response)

    then_do_same :
        {p q : Phase S Transaction} (next other : Transaction → S → Served S)
        → ((tx : Transaction) (s : S) → (next tx s).sent ≡ (other tx s).sent)
        → Alike p q
        → (then_do p next).sent ≡ (then_do q other).sent
    then_do_same next other same (both_end v w) = v ∙ sym w
    then_do_same next other same (both_go_on {tx} {s}) = same tx s

    -- Behind the checks and the request's id, the phases of the two pipelines send the same.
    phases_send_alike :
        (id : Text) (inb : Inbound) (s : S)
        → is_web_socket_request inb.header ≡ false
        → ltb n (length inb.body) ≡ false
        → ((t : S) → loaded_rules svc.engine t ≡ [])
        → cfg.map_local_rules ≡ []
        → (process_request_pipeline io n svc id inb s).sent
          ≡ (serve_transaction lib files cfg svc
              (http_request inb)
              (build_transaction id inb)
              s).sent
    unfolding process_request_pipeline serve_transaction read_limited_body run_request_pipeline
        served_on
    phases_send_alike id inb s plain fits no_rules no_files =
        let tx = build_transaction id inb in
        let m = max_body_bytes cfg.max_body_size_mb in
        let no_socket : (io.handles_web_socket && is_web_socket_request inb.header) ≡ false =
          ground arith in
        rw (fits) (
          then_do_same (tls_forward io n svc inb.header)
            (served_on lib files cfg svc (http_request inb))
            (λ tx' s'.
              tls_forward-sent inb.header tx' s' m no_socket
              ∙ sym (http_sent (http_request inb) tx' s' plain no_rules no_files))
            (hooks_agree tx (run_plugin_request svc tx.request s)))

    -- The HTTP pipeline gives every request an `X-Request-ID`, which the TLS pipeline does not. But for
    -- that they send the upstream the same, or both nothing: with one limit on bodies, and without rewrite
    -- rules and map-local rules, for a request within the limits that is no websocket, the whole HTTP
    -- pipeline sends what the TLS pipeline sends for the request with that id and header.
    pub pipelines_send_alike :
        (fresh : Text) (inb : Inbound) (s : S)
        → validate_inbound_request cfg.limits inb.url.text (ensure_request_id fresh inb.header).1
          ≡ none
        → is_web_socket_request (ensure_request_id fresh inb.header).1 ≡ false
        → n ≡ max_body_bytes cfg.max_body_size_mb
        → ltb n (length inb.body) ≡ false
        → ((t : S) → loaded_rules svc.engine t ≡ [])
        → cfg.map_local_rules ≡ []
        → (process_request_pipeline io n svc
            (ensure_request_id fresh inb.header).0
            (record inb { header = (ensure_request_id fresh inb.header).1 })
            s).sent
          ≡ (handle_http lib files cfg svc fresh inb s).sent
    unfolding handle_http read_limited_body
    pipelines_send_alike fresh inb s valid plain same fits no_rules no_files =
        let (id, header) = ensure_request_id fresh inb.header in
        rw (valid, ← same, fits)
          (phases_send_alike id (record inb { header = header }) s plain fits no_rules no_files)
