-- ===== src/Rewrite/Requests.antt =====
-- What `ApplyRequestRules` of internal/rewrite/rules.go does to a request and when it answers.
use api_x.Base.{
  Text, is_blank, ◌≡◌, refl, sym, ap, Bool, true, false, none, some, List, [], ◌∷◌, ◌++◌, ◌∙◌,
  length, Bool-cases, inl, inr, ◌⊎◌,
}
use api_x.Rewrite.{
  RewriteAction, redirect, block, respond, RewriteRule, HttpRequest, SyntheticResponse, Effect,
  answers, edits, matches_rule, request_effect, apply_request_loop, replace_request_body,
}

abbrev pub is_terminal : RewriteAction → Bool
is_terminal redirect = true
is_terminal block = true
is_terminal respond = true
is_terminal _ = false

-- A rule that matches the request does not end the loop: it edits.
abbrev pub edited : RewriteRule → HttpRequest × Text → HttpRequest × Text
edited rule (req, req_body) = elim (matches_rule rule req req_body) [
  | false ↦ (req, req_body)
  | true ↦ elim (request_effect rule.action rule req req_body) [
    | answers synth ↦ (req, req_body)
    | edits req' req_body' ↦ (req', req_body')
  ]
]

-- The request and the match body as the rule behind `rules` sees them.
abbrev pub edited_by : List RewriteRule → HttpRequest × Text → HttpRequest × Text
edited_by [] s = s
edited_by (rule ∷ rules) s = edited_by rules (edited rule s)

-- No rule of the list is terminal and matches at its turn.
abbrev pub PassesAll : List RewriteRule → HttpRequest × Text → Type 0
PassesAll [] s = Unit
PassesAll (rule ∷ rules) s =
    (is_terminal rule.action ≡ true → matches_rule rule s.0 s.1 ≡ false)
    × PassesAll rules (edited rule s)

Effect-cases :
    (e : Effect)
    → ((synth : SyntheticResponse) × (e ≡ answers synth))
      ⊎ ((req : HttpRequest) × (body : Text) × (e ≡ edits req body))
Effect-cases (answers synth) = inl (synth, refl)
Effect-cases (edits req body) = inr (req, body, refl)

-- The terminal actions answer, and the others edit.
terminal_answers :
    (a : RewriteAction) (rule : RewriteRule) (req : HttpRequest) (body : Text)
    → is_terminal a ≡ true
    → (synth : SyntheticResponse) × (request_effect a rule req body ≡ answers synth)
unfolding request_effect
terminal_answers redirect rule req body h = (_, refl)
terminal_answers block rule req body h = (_, refl)
terminal_answers respond rule req body h = (_, refl)
terminal_answers _ rule req body h = cc

others_edit :
    (a : RewriteAction) (rule : RewriteRule) (req : HttpRequest) (body : Text)
    → is_terminal a ≡ false
    → (req' : HttpRequest) × (body' : Text) × (request_effect a rule req body ≡ edits req' body')
unfolding request_effect
others_edit redirect rule req body h = cc
others_edit block rule req body h = cc
others_edit respond rule req body h = cc
others_edit replace_request_body rule req body h = elim (Bool-cases (is_blank rule.body_template)) [
  | inl e ↦ (req, body, rw e)
  | inr e ↦ (
    record req { body = []; content_length = length rule.body_template },
    rule.body_template,
    rw e,
  )
]
others_edit _ rule req body h = (_, _, refl)

edited-eq :
    (rule : RewriteRule) (req req' : HttpRequest) (body body' : Text)
    → matches_rule rule req body ≡ true
    → request_effect rule.action rule req body ≡ edits req' body'
    → edited rule (req, body) ≡ (req', body')
edited-eq rule req req' body body' match e = rw (match, edited) (rw (e, edited))

loop_edits :
    (rule : RewriteRule) (rules : List RewriteRule) (req req' : HttpRequest) (body body' : Text)
    → matches_rule rule req body ≡ true
    → request_effect rule.action rule req body ≡ edits req' body'
    → apply_request_loop (rule ∷ rules) req body ≡ apply_request_loop rules req' body'
unfolding apply_request_loop
loop_edits rule rules req req' body body' match e =
    rw (match, apply_request_loop) (rw (e, apply_request_loop))

step_over :
    (rule : RewriteRule) (rules : List RewriteRule) (req : HttpRequest) (body : Text)
    → (is_terminal rule.action ≡ true → matches_rule rule req body ≡ false)
    → apply_request_loop (rule ∷ rules) req body
      ≡ apply_request_loop rules (edited rule (req, body)).0 (edited rule (req, body)).1
unfolding apply_request_loop
step_over rule rules req body passes = elim (Bool-cases (matches_rule rule req body)) [
  | inr no_match ↦ rw (no_match, apply_request_loop, edited)
  | inl match ↦ elim (Bool-cases (is_terminal rule.action)) [
    | inl terminal ↦ cc (passes terminal)
    | inr other ↦
        let (req', body', e) = others_edit rule.action rule req body other in
        loop_edits rule rules req req' body body' match e
        ∙ sym (
            ap (λ s. apply_request_loop rules s.0 s.1) (edited-eq rule req req' body body' match e))
  ]
]

-- If no terminal rule matches at its turn, the request is forwarded with the edits of all rules.
pub forwards_edited :
    (rules : List RewriteRule) (req : HttpRequest) (body : Text)
    → PassesAll rules (req, body)
    → apply_request_loop rules req body ≡ (none, (edited_by rules (req, body)).0)
unfolding apply_request_loop
forwards_edited [] req body passes = refl
forwards_edited (rule ∷ rules) req body passes =
    step_over rule rules req body passes.0
    ∙ forwards_edited rules (edited rule (req, body)).0 (edited rule (req, body)).1 passes.1

-- The first terminal rule that matches at its turn answers: the rules before it have edited the
-- request, and those behind it do nothing.
pub first_terminal_answers :
    (before : List RewriteRule) (rule : RewriteRule) (behind : List RewriteRule) (req : HttpRequest)
    (body : Text)
    → PassesAll before (req, body)
    → is_terminal rule.action ≡ true
    → let s = edited_by before (req, body) in
      matches_rule rule s.0 s.1 ≡ true
      → (synth : SyntheticResponse) × (request_effect rule.action rule s.0 s.1 ≡ answers synth)
        × (apply_request_loop (before ++ rule ∷ behind) req body ≡ (some synth, s.0))
unfolding apply_request_loop
first_terminal_answers [] rule behind req body passes terminal match =
    let (synth, e) = terminal_answers rule.action rule req body terminal in
    (synth, e, rw (match, apply_request_loop) (rw (e, apply_request_loop)))
first_terminal_answers (r ∷ before) rule behind req body passes terminal match =
    let (req', body') = edited r (req, body) in
    let (synth, e, run) =
      first_terminal_answers before rule behind req' body' passes.1 terminal match in
    (synth, e, step_over r (before ++ rule ∷ behind) req body passes.0 ∙ run)

-- A rule that replaces the body leaves an empty body under the length of the template.
pub replaced_body_is_lost :
    (before : List RewriteRule) (rule : RewriteRule) (req : HttpRequest) (body : Text)
    → PassesAll before (req, body)
    → rule.action ≡ replace_request_body
    → is_blank rule.body_template ≡ false
    → let s = edited_by before (req, body) in
      matches_rule rule s.0 s.1 ≡ true
      → apply_request_loop (before ++ rule ∷ []) req body
        ≡ (none, record s.0 { body = []; content_length = length rule.body_template })
unfolding apply_request_loop request_effect
replaced_body_is_lost [] rule req body passes action template match =
    rw (match, apply_request_loop) (rw (action, template))
replaced_body_is_lost (r ∷ before) rule req body passes action template match =
    let (req', body') = edited r (req, body) in
    step_over r (before ++ rule ∷ []) req body passes.0
    ∙ replaced_body_is_lost before rule req' body' passes.1 action template match
