-- ===== src/FaultInjection/Faults.antt =====
-- Which fault of internal/pluginrt/builtins/fault_injection.go a request meets.
use api_x.Base.{
  ℕ, Text, str, Bool, true, false, ◌&&◌, not, some, List, [], ◌∷◌, ◌++◌, if◌then◌else◌, ◌≡◌, refl,
  ap, ◌∙◌, arith, All, inl, inr, ◌⊎◌,
}
use api_x.Base.Strings.{text_eq}
use api_x.Plugin.{ProxyRequest, ProxyResponse, clone}
use api_x.FaultInjection.{FaultRule, matches_rule, aborted, inject, inject_all, on_request, some_if}

-- A rule injects a fault into a request.
abbrev pub fires : ProxyRequest → FaultRule × Bool → Bool
fires req (rule, spared) = matches_rule rule req && not spared

abbrev pub is_abort : FaultRule × Bool → Bool
is_abort (rule, spared) = text_eq rule.fault_type (str "abort")

module _ (status_text : ℕ → Text) where
  -- The clone answers with a response, and counts as modified.
  abbrev Answers : ProxyResponse → ProxyRequest × Bool → Type 0
  Answers resp (req, modified) = (req.mocked_response ≡ some resp) × (modified ≡ true)

  inject-Answers :
      (rule : FaultRule) (resp : ProxyResponse) (s : ProxyRequest × Bool)
      → text_eq rule.fault_type (str "abort") ≡ false
      → Answers resp s
      → Answers resp (inject status_text rule s)
  unfolding inject
  inject-Answers rule resp (req, modified) no_abort (mocked, flag) = ground arith

  step-Answers :
      (b : Bool) (rule : FaultRule) (resp : ProxyResponse) (s : ProxyRequest × Bool)
      → (b ≡ false) ⊎ (text_eq rule.fault_type (str "abort") ≡ false)
      → Answers resp s
      → Answers resp (if b then inject status_text rule s else s)
  step-Answers false rule resp s quiet h = h
  step-Answers true rule resp s (inl e) h = cc
  step-Answers true rule resp s (inr no_abort) h = inject-Answers rule resp s no_abort h

  inject_all-append :
      (before behind : List (FaultRule × Bool)) (req : ProxyRequest) (s : ProxyRequest × Bool)
      → inject_all status_text (before ++ behind) req s
        ≡ inject_all status_text behind req (inject_all status_text before req s)
  unfolding inject_all
  inject_all-append [] behind req s = refl
  inject_all-append ((rule, spared) ∷ before) behind req s = inject_all-append before behind req _

  inject_all-Answers :
      (rules : List (FaultRule × Bool)) (req : ProxyRequest) (resp : ProxyResponse)
      (s : ProxyRequest × Bool)
      → All (λ r. (fires req r ≡ false) ⊎ (is_abort r ≡ false)) rules
      → Answers resp s
      → Answers resp (inject_all status_text rules req s)
  unfolding inject_all
  inject_all-Answers [] req resp s quiet h = h
  inject_all-Answers ((rule, spared) ∷ rules) req resp s quiet h =
      inject_all-Answers rules req resp
        (if fires req (rule, spared) then inject status_text rule s else s) quiet.1
        (step-Answers (fires req (rule, spared)) rule resp s quiet.0 h)

  abort-Answers :
      (rule : FaultRule) (s : ProxyRequest × Bool)
      → text_eq rule.fault_type (str "abort") ≡ true
      → Answers (aborted status_text rule) (inject status_text rule s)
  unfolding inject
  abort-Answers rule (req, modified) abort = rw abort (refl, refl)

  some_if-Answers :
      (resp : ProxyResponse) (s : ProxyRequest × Bool)
      → Answers resp s
      → (out : ProxyRequest) × (some_if status_text s ≡ some out)
        × (out.mocked_response ≡ some resp)
  some_if-Answers resp (req, modified) (mocked, flag) = (req, rw flag, mocked)

  -- The last abort that fires answers the request with its own response, whatever faults the rules
  -- before it and behind it inject.
  pub last_abort_answers :
      (before : List (FaultRule × Bool)) (rule : FaultRule) (behind : List (FaultRule × Bool))
      (req : ProxyRequest)
      → text_eq rule.fault_type (str "abort") ≡ true
      → matches_rule rule req ≡ true
      → All (λ r. (fires req r ≡ false) ⊎ (is_abort r ≡ false)) behind
      → (out : ProxyRequest) × (on_request status_text (before ++ (rule, false) ∷ behind) req
          ≡ some out)
        × (out.mocked_response ≡ some (aborted status_text rule))
  unfolding on_request inject_all
  last_abort_answers before rule behind req abort match quiet =
      let s = inject_all status_text before req (clone req req.body, false) in
      let (out, e, mocked) =
        some_if-Answers (aborted status_text rule)
          (inject_all status_text behind req (inject status_text rule s))
          (inject_all-Answers behind req (aborted status_text rule) (inject status_text rule s)
            quiet (abort-Answers rule s abort)) in
      (
        out,
        ap (some_if status_text)
              (inject_all-append before ((rule, false) ∷ behind) req (clone req req.body, false))
            ∙ (ap
                  (λ b. some_if status_text (
                    inject_all status_text behind req
                      (if b && true then inject status_text rule s else s)))
                  match
                ∙ e),
        mocked,
      )
