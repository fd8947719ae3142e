-- ===== src/Rewrite.antt =====
-- internal/rewrite/rules.go: rewrite rules on requests and responses, in order of priority.
-- `sort.Slice` fixes no order among equal priorities; `sorted_rules` keeps the given order there, as
-- the insertion sort does that Go uses for short slices. Pointers to rules are never nil.
pub mod Sorting
pub mod Requests
pub mod Responses
mod Examples
use api_x.Base.{
  ℕ, Text, str, is_blank, Bool, true, false, ◌&&◌, ◌||◌, not, Option, none, some, List, [], ◌∷◌,
  length, ◌==◌, if◌then◌else◌,
}
use api_x.Base.Int.{ℤ, ltb_ℤ}
use api_x.Base.Strings.{contains, equal_fold}
use api_x.Header
use api_x.Header.{Header}

pub record MatchCriteria : Type 0 where
  pub url_pattern : Text
  pub method : Text
  pub header_name : Text
  pub header_value : Text
  pub body_pattern : Text
  pub status_code : ℕ

-- `unspecified` stands for every value that no `switch` of this file names.
pub data RewriteAction : Type 0 where
  unspecified add_request_header remove_request_header replace_request_header : RewriteAction
  add_response_header remove_response_header replace_response_header : RewriteAction
  replace_request_body replace_response_body redirect block respond : RewriteAction

-- The rule's name is left out, which is only shown. Status codes are never negative.
pub record RewriteRule : Type 0 where
  pub id : Text
  pub enabled : Bool
  pub priority : ℤ
  pub criteria : Option MatchCriteria
  pub action : RewriteAction
  pub param_key : Text
  pub param_value : Text
  pub body_template : Text
  pub response_status : ℕ
  pub response_body : Text
  pub response_content_type : Text

-- The parts of `*http.Request` that the rules read or write; `url` is `req.URL.String()`.
pub record HttpRequest : Type 0 where
  pub method : Text
  pub url : Text
  pub header : Header
  pub body : Text
  pub content_length : ℕ

pub record HttpResponse : Type 0 where
  pub status_code : ℕ
  pub header : Header

pub record SyntheticResponse : Type 0 where
  pub status_code : ℕ
  pub headers : Header
  pub body : Text
  pub redirect_url : Text

-- An optional criterion: `pattern != "" && !test` refuses.
abbrev unless_blank : Text → Bool → Bool
unless_blank pattern test = if is_blank pattern then true else test

-- The header criterion, which both phases share.
unfoldable pub header_matches : MatchCriteria → Header → Bool
unfolding Header.get contains
header_matches m h = unless_blank m.header_name (
    let v = Header.get h m.header_name in
    if is_blank v then false else unless_blank m.header_value (contains v m.header_value))

request_criteria : Option MatchCriteria → HttpRequest → Text → Bool
unfolding header_matches contains equal_fold
request_criteria none req req_body = true
request_criteria (some m) req req_body =
    unless_blank m.url_pattern (contains req.url m.url_pattern)
    && unless_blank m.method (equal_fold req.method m.method)
    && header_matches m req.header
    && unless_blank m.body_pattern (contains req_body m.body_pattern)

-- `matchesRule`
unfoldable pub matches_rule : RewriteRule → HttpRequest → Text → Bool
unfolding request_criteria
matches_rule rule req req_body = rule.enabled && request_criteria rule.criteria req req_body

response_criteria : Option MatchCriteria → HttpRequest → HttpResponse → Text → Bool
unfolding header_matches contains equal_fold
response_criteria none req resp resp_body = true
response_criteria (some m) req resp resp_body =
    unless_blank m.url_pattern (contains req.url m.url_pattern)
    && unless_blank m.method (equal_fold req.method m.method)
    && (m.status_code == 0 || resp.status_code == m.status_code)
    && header_matches m resp.header
    && unless_blank m.body_pattern (contains resp_body m.body_pattern)

-- `matchesResponseRule`
unfoldable pub matches_response_rule : RewriteRule → HttpRequest → HttpResponse → Text → Bool
unfolding response_criteria
matches_response_rule rule req resp resp_body =
    rule.enabled && response_criteria rule.criteria req resp resp_body

insert_rule : RewriteRule → List RewriteRule → List RewriteRule
insert_rule rule [] = rule ∷ []
insert_rule rule (r ∷ rs) =
    let later = r ∷ insert_rule rule rs in
    if ltb_ℤ r.priority rule.priority then later else rule ∷ r ∷ rs

-- `sortedRules`
unfoldable pub sorted_rules : List RewriteRule → List RewriteRule
unfolding insert_rule
sorted_rules [] = []
sorted_rules (r ∷ rs) = insert_rule r (sorted_rules rs)

-- What a matching rule does to a request: it answers, or it edits and the loop goes on with the
-- request and with the body that later rules are matched against.
pub data Effect : Type 0 where
  answers : SyntheticResponse → Effect
  edits : HttpRequest → Text → Effect

abbrev unless_no_key : RewriteRule → Header → HttpRequest → HttpRequest
unless_no_key rule h req = if is_blank rule.param_key then req else record req { header = h }

-- The `switch` of `ApplyRequestRules`.
unfoldable pub request_effect : RewriteAction → RewriteRule → HttpRequest → Text → Effect
unfolding Header.add Header.del Header.set
request_effect add_request_header rule req req_body =
    edits (unless_no_key rule (Header.add req.header rule.param_key rule.param_value) req) req_body
request_effect remove_request_header rule req req_body =
    edits (unless_no_key rule (Header.del req.header rule.param_key) req) req_body
request_effect replace_request_header rule req req_body =
    edits (unless_no_key rule (Header.set req.header rule.param_key rule.param_value) req) req_body
request_effect replace_request_body rule req req_body =
    if is_blank rule.body_template
    then edits req req_body
    else edits (record req { body = []; content_length = length rule.body_template })
        rule.body_template
request_effect redirect rule req req_body =
    let target = if is_blank rule.param_value then rule.param_key else rule.param_value in
    answers (record {
      status_code = 302;
      headers = Header.set [] (str "Location") target;
      body = [];
      redirect_url = target;
    })
request_effect block rule req req_body = answers (record {
  status_code = 403;
  headers = [];
  body = str "blocked by rewrite rule";
  redirect_url = [];
})
request_effect respond rule req req_body = answers (record {
  status_code = if rule.response_status == 0 then 200 else rule.response_status;
  headers =
      if is_blank rule.response_content_type
      then []
      else Header.set [] (str "Content-Type") rule.response_content_type;
  body = rule.response_body;
  redirect_url = [];
})
request_effect _ rule req req_body = edits req req_body

-- The loop of `ApplyRequestRules`. The request comes back too, since the loop edits it in place;
-- its error result is always nil.
unfoldable pub apply_request_loop :
    List RewriteRule → HttpRequest → Text → Option SyntheticResponse × HttpRequest
unfolding matches_rule request_effect
apply_request_loop [] req req_body = (none, req)
apply_request_loop (rule ∷ rules) req req_body = elim (matches_rule rule req req_body) [
  | false ↦ apply_request_loop rules req req_body
  | true ↦ elim (request_effect rule.action rule req req_body) [
    | answers synth ↦ (some synth, req)
    | edits req' req_body' ↦ apply_request_loop rules req' req_body'
  ]
]

-- `ApplyRequestRules`
unfoldable pub apply_request_rules :
    List RewriteRule → HttpRequest → Text → Option SyntheticResponse × HttpRequest
unfolding sorted_rules apply_request_loop
apply_request_rules rules req req_body = apply_request_loop (sorted_rules rules) req req_body

abbrev unless_no_key_response : RewriteRule → Header → HttpResponse → HttpResponse
unless_no_key_response rule h resp =
    if is_blank rule.param_key then resp else record resp { header = h }

-- The `switch` of `ApplyResponseRules`: the response and the body after a matching rule.
unfoldable pub response_effect :
    RewriteAction → RewriteRule → HttpResponse → Text → HttpResponse × Text
unfolding Header.add Header.del Header.set
response_effect add_response_header rule resp resp_body = (
  unless_no_key_response rule (Header.add resp.header rule.param_key rule.param_value) resp,
  resp_body,
)
response_effect remove_response_header rule resp resp_body =
    (unless_no_key_response rule (Header.del resp.header rule.param_key) resp, resp_body)
response_effect replace_response_header rule resp resp_body = (
  unless_no_key_response rule (Header.set resp.header rule.param_key rule.param_value) resp,
  resp_body,
)
response_effect replace_response_body rule resp resp_body =
    (resp, if is_blank rule.body_template then resp_body else rule.body_template)
response_effect _ rule resp resp_body = (resp, resp_body)

-- The loop of `ApplyResponseRules`.
unfoldable pub apply_response_loop :
    List RewriteRule → HttpRequest → HttpResponse → Text → HttpResponse × Text
unfolding matches_response_rule response_effect
apply_response_loop [] req resp resp_body = (resp, resp_body)
apply_response_loop (rule ∷ rules) req resp resp_body =
    let (resp', resp_body') = response_effect rule.action rule resp resp_body in
    let matched = matches_response_rule rule req resp resp_body in
    apply_response_loop rules req (if matched then resp' else resp)
      (if matched then resp_body' else resp_body)

-- `ApplyResponseRules`
unfoldable pub apply_response_rules :
    List RewriteRule → HttpRequest → HttpResponse → Text → HttpResponse × Text
unfolding sorted_rules apply_response_loop
apply_response_rules rules req resp resp_body =
    apply_response_loop (sorted_rules rules) req resp resp_body
