-- ===== src/PolicyEngine/Examples.antt =====
-- The policy engine at a concrete configuration, and the theorem of this folder applied to it.
use api_x.Base.{Text, str, ◌≡◌, refl, none, some, List, [], ◌∷◌}
use api_x.Base.Strings.{contains}
use api_x.Regex.{RegexLib}
use api_x.Plugin.{ProxyRequest}
use api_x.PolicyEngine.{
  PolicyRule, PolicyEngineConfig, PolicyEngine, new_policy_engine, on_request, apply_action, store,
}
use api_x.PolicyEngine.Deciding.{first_rule, on_request-refines-first_rule}

-- Patterns that match where they occur.
abbrev substrings : RegexLib
substrings = record { Regex = Text; compile = some; match_string = λ re s. contains s re }

abbrev rules : List PolicyRule
rules =
    record {
      name = str "admin";
      action = str "deny";
      conditions = record { field = str "path"; operator = str "regex"; value = str "/admin" } ∷ [];
      headers = [];
    }
    ∷ []

abbrev cfg : PolicyEngineConfig
cfg = record { rules = rules; default_action = [] }

abbrev engine : PolicyEngine substrings
engine = record {
  cfg = record { rules = rules; default_action = str "allow" };
  compiled = store substrings (λ ri ci. none) 0 0 (str "/admin");
}

abbrev req : ProxyRequest
req = record {
  id = [];
  method = str "GET";
  url = record { text = []; host = []; hostname = []; path = str "/admin/x"; query = [] };
  headers = [];
  body = str "b";
  protocol = [];
  raw = none;
  mocked_response = none;
}

on_request-refines-first_rule_example :
    on_request substrings engine req ≡ apply_action (first_rule substrings [] req rules) req
unfolding new_policy_engine
on_request-refines-first_rule_example = on_request-refines-first_rule substrings cfg engine req refl
