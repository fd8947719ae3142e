-- ===== src/Breakpoints/Examples.antt =====
-- The breakpoint manager at concrete inputs, and the theorems of this folder applied to them.
-- The regular expressions are plain texts here that match where they occur.
use api_x.Base.{
  ◌==◌, if◌then◌else◌, ℕ, Text, str, ◌≡◌, refl, true, false, Option, none, some, [], ◌∷◌,
}
use api_x.Base.Strings.{text_eq, contains, equal_fold}
use api_x.Base.Maps.{lookup}
use api_x.Regex.{RegexLib}
use api_x.Breakpoints.{
  BreakpointRule, Manager, PausedEntry, new_paused_entry, ResumeDecision, action_drop, new_manager,
  add_rule,
}
use api_x.Breakpoints.Rules.{IsValid, add_rule-IsValid}
use api_x.Breakpoints.Matching.{Subject, evaluate}
use api_x.Breakpoints.Evaluate.{Stops, evaluate-Stops}
use api_x.Breakpoints.Pausing.{resume, pause, resumes, panics, second_resume-panics}

-- A pattern that starts with an open parenthesis does not compile.
abbrev closed_pattern : Text → Option Text
closed_pattern [] = some []
closed_pattern (c ∷ p) = if c == b'(' then none else some (c ∷ p)

abbrev substrings : RegexLib
substrings = record { Regex = Text; compile = closed_pattern; match_string = λ re s. contains s re }

abbrev heap : ℕ → PausedEntry ℕ
heap a = new_paused_entry 100 (str "r1") (str "b1") none

abbrev empty : Manager substrings ℕ
empty = new_manager heap

abbrev users_rule : BreakpointRule
users_rule = record {
  id = str "b1";
  url_pattern = str "/users";
  methods = str "get" ∷ [];
  enabled = true;
  label = [];
  header_name = [];
  header_value = [];
  body_pattern = [];
  status_codes = [];
}

abbrev one_rule : Manager substrings ℕ
one_rule = record empty {
  rules = (str "b1", users_rule) ∷ [];
  compiled = (str "b1", str "/users") ∷ [];
}

abbrev get_users : Subject
get_users = record {
  method = str "GET";
  raw_url = str "/users";
  headers = none;
  body = [];
  status_code = 0;
  response_phase = false;
}

abbrev post_users : Subject
post_users = record get_users { method = str "POST" }

adds : (add_rule [] users_rule empty).0 ≡ one_rule
unfolding add_rule
adds = refl

empty-IsValid : IsValid empty
unfolding lookup
empty-IsValid id = (refl, refl)

add_rule-IsValid_example : IsValid (add_rule [] users_rule empty).0
add_rule-IsValid_example = add_rule-IsValid [] users_rule empty empty-IsValid

one_rule-IsValid : IsValid one_rule
unfolding add_rule
one_rule-IsValid = add_rule-IsValid [] users_rule empty empty-IsValid

evaluate-Stops_example :
    (rule : BreakpointRule) × (lookup
        (evaluate substrings false one_rule.rules one_rule get_users)
        one_rule.rules
      ≡ some rule)
    × Stops substrings rule get_users
unfolding evaluate lookup text_eq contains equal_fold
evaluate-Stops_example =
    evaluate-Stops substrings one_rule one_rule.rules get_users one_rule-IsValid (refl, tt)
      (λ e. cc)

abbrev drop : ResumeDecision ℕ
drop = record { action = action_drop; modified_request = none; modified_response = none }

second_resume-panics_example :
    (m' : Manager substrings ℕ) × (resume (str "r1") drop (pause 4 empty) ≡ resumes m')
    × (resume (str "r1") drop m' ≡ panics)
second_resume-panics_example = second_resume-panics 4 drop drop empty refl
