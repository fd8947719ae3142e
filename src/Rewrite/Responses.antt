-- ===== src/Rewrite/Responses.antt =====
-- What `ApplyResponseRules` of internal/rewrite/rules.go does to a response and its body.
use api_x.Base.{
  Text, is_blank, ◌≡◌, refl, Bool, true, false, List, [], ◌∷◌, ◌++◌, ◌∙◌, All, Bool-cases, inl, inr,
  ◌⊎◌, if◌then◌else◌, ap, arith,
}
use api_x.Header.{Header}
use api_x.Rewrite.{
  RewriteAction, RewriteRule, HttpRequest, HttpResponse, matches_response_rule, response_effect,
  apply_response_loop, replace_response_body, add_response_header, remove_response_header,
  replace_response_header,
}

abbrev is_body_action : RewriteAction → Bool
is_body_action replace_response_body = true
is_body_action _ = false

-- A rule that leaves the body alone: it has another action, or nothing to put there.
abbrev pub LeavesBody : RewriteRule → Type 0
LeavesBody rule = is_body_action rule.action ≡ false ⊎ is_blank rule.body_template ≡ true

unless_no_key_response-status :
    (key : Text) (h : Header) (resp : HttpResponse)
    → (if is_blank key then resp else record resp { header = h }).status_code ≡ resp.status_code
unless_no_key_response-status key h resp = ground arith

effect-status :
    (a : RewriteAction) (rule : RewriteRule) (resp : HttpResponse) (body : Text)
    → (response_effect a rule resp body).0.status_code ≡ resp.status_code
unfolding response_effect
effect-status add_response_header rule resp body =
    unless_no_key_response-status rule.param_key _ resp
effect-status remove_response_header rule resp body =
    unless_no_key_response-status rule.param_key _ resp
effect-status replace_response_header rule resp body =
    unless_no_key_response-status rule.param_key _ resp
effect-status replace_response_body rule resp body = refl
effect-status _ rule resp body = refl

effect-body :
    (a : RewriteAction) (rule : RewriteRule) (resp : HttpResponse) (body : Text)
    → is_body_action a ≡ false ⊎ is_blank rule.body_template ≡ true
    → (response_effect a rule resp body).1 ≡ body
unfolding response_effect
effect-body replace_response_body rule resp body (inl other) = cc
effect-body replace_response_body rule resp body (inr empty) = rw empty
effect-body _ rule resp body leaves = refl

-- The rules never change the status code.
pub keeps_status :
    (rules : List RewriteRule) (req : HttpRequest) (resp : HttpResponse) (body : Text)
    → (apply_response_loop rules req resp body).0.status_code ≡ resp.status_code
unfolding apply_response_loop
keeps_status [] req resp body = refl
keeps_status (rule ∷ rules) req resp body =
    elim (Bool-cases (matches_response_rule rule req resp body)) [
      | inl match ↦
          rw (match, apply_response_loop)
            (keeps_status rules req (response_effect rule.action rule resp body).0
                (response_effect rule.action rule resp body).1
              ∙ effect-status rule.action rule resp body)
      | inr no_match ↦ rw (no_match, apply_response_loop) (keeps_status rules req resp body)
    ]

keeps_body :
    (rules : List RewriteRule) (req : HttpRequest) (resp : HttpResponse) (body : Text)
    → All LeavesBody rules
    → (apply_response_loop rules req resp body).1 ≡ body
unfolding apply_response_loop
keeps_body [] req resp body leaves = refl
keeps_body (rule ∷ rules) req resp body leaves =
    elim (Bool-cases (matches_response_rule rule req resp body)) [
      | inl match ↦
          rw (match, apply_response_loop)
            (keeps_body rules req (response_effect rule.action rule resp body).0
                (response_effect rule.action rule resp body).1 leaves.1
              ∙ effect-body rule.action rule resp body leaves.0)
      | inr no_match ↦ rw (no_match, apply_response_loop) (keeps_body rules req resp body leaves.1)
    ]

loop-append :
    (before behind : List RewriteRule) (req : HttpRequest) (resp : HttpResponse) (body : Text)
    → let s = apply_response_loop before req resp body in
      apply_response_loop (before ++ behind) req resp body ≡ apply_response_loop behind req s.0 s.1
unfolding apply_response_loop
loop-append [] behind req resp body = refl
loop-append (rule ∷ before) behind req resp body = loop-append before behind req _ _

replaces_body :
    (rule : RewriteRule) (behind : List RewriteRule) (req : HttpRequest) (resp : HttpResponse)
    (body : Text)
    → rule.action ≡ replace_response_body
    → is_blank rule.body_template ≡ false
    → matches_response_rule rule req resp body ≡ true
    → All LeavesBody behind
    → (apply_response_loop (rule ∷ behind) req resp body).1 ≡ rule.body_template
unfolding apply_response_loop response_effect
replaces_body rule behind req resp body action template match leaves =
    rw (match, apply_response_loop) (keeps_body behind req _ _ leaves ∙ rw (action, template))

-- The last rule that replaces the body and matches at its turn decides the body, whatever the rules
-- before it did.
pub last_body_wins :
    (before : List RewriteRule) (rule : RewriteRule) (behind : List RewriteRule) (req : HttpRequest)
    (resp : HttpResponse) (body : Text)
    → rule.action ≡ replace_response_body
    → is_blank rule.body_template ≡ false
    → let s = apply_response_loop before req resp body in
      matches_response_rule rule req s.0 s.1 ≡ true
      → All LeavesBody behind
      → (apply_response_loop (before ++ rule ∷ behind) req resp body).1 ≡ rule.body_template
last_body_wins before rule behind req resp body action template match leaves =
    ap (λ s. s.1) (loop-append before (rule ∷ behind) req resp body)
    ∙ replaces_body rule behind req _ _ action template match leaves
