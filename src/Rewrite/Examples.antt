-- ===== src/Rewrite/Examples.antt =====
-- Rewrite rules at concrete inputs, and the theorems of this folder applied to them.
use api_x.Base.{◌≡◌, refl, true, none, some, [], ◌∷◌, str, Text}
use api_x.Base.Int.{pos, negsuc}
use api_x.Base.Strings.{contains, equal_fold, text_eq}
use api_x.Header
use api_x.Rewrite.{
  RewriteAction, RewriteRule, HttpRequest, HttpResponse, SyntheticResponse, block,
  add_request_header, replace_request_body, replace_response_body, answers, matches_rule,
  request_effect, apply_request_loop, sorted_rules, apply_request_rules,
}
use api_x.Rewrite.Requests.{edited_by, first_terminal_answers, replaced_body_is_lost}

abbrev rule_of : Text → RewriteAction → RewriteRule
rule_of id action = record {
  id = id;
  enabled = true;
  priority = pos 7;
  criteria = none;
  action = action;
  param_key = str "X-A";
  param_value = str "on";
  body_template = str "abc";
  response_status = 0;
  response_body = [];
  response_content_type = [];
}

abbrev adds : RewriteRule
adds = rule_of (str "adds") add_request_header

abbrev body_rule : RewriteRule
body_rule = rule_of (str "body") replace_request_body

abbrev early_block : RewriteRule
early_block = record (rule_of (str "block") block) {
  priority = negsuc 0;
  criteria = some (record {
    url_pattern = str "/x";
    method = str "get";
    header_name = [];
    header_value = [];
    body_pattern = [];
    status_code = 0;
  });
}

abbrev template : RewriteRule
template = rule_of (str "template") replace_response_body

abbrev req : HttpRequest
req = record { method = str "GET"; url = str "/x"; header = []; body = str "q"; content_length = 1 }

abbrev resp : HttpResponse
resp = record { status_code = 204; header = [] }

-- The rule with the smaller priority stands first, and answers.
sorts : sorted_rules (adds ∷ early_block ∷ []) ≡ early_block ∷ adds ∷ []
unfolding sorted_rules
sorts = refl

blocks :
    (apply_request_rules (adds ∷ early_block ∷ []) req []).0
    ≡ some (record {
      status_code = 403;
      headers = [];
      body = str "blocked by rewrite rule";
      redirect_url = [];
    })
unfolding apply_request_rules contains equal_fold
blocks = refl

first_terminal_answers_example :
    (synth : SyntheticResponse) × (request_effect block early_block
        (edited_by (adds ∷ []) (req, [])).0
        []
      ≡ answers synth)
    × (apply_request_loop (adds ∷ early_block ∷ body_rule ∷ []) req []
        ≡ (some synth, (edited_by (adds ∷ []) (req, [])).0))
unfolding matches_rule request_effect Header.add Header.set contains equal_fold text_eq
first_terminal_answers_example =
    first_terminal_answers (adds ∷ []) early_block (body_rule ∷ []) req [] (λ h. cc, tt) refl refl

replaced_body_is_lost_example :
    apply_request_loop (body_rule ∷ []) req (str "q")
    ≡ (none, record req { body = []; content_length = 3 })
unfolding matches_rule
replaced_body_is_lost_example = replaced_body_is_lost [] body_rule req (str "q") tt refl refl refl
