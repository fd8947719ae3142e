-- ===== src/PolicyEngine.antt =====
-- internal/pluginrt/builtins/policy_engine.go: allow, deny and enrich rules, of which the first that
-- matches decides. Log lines are left out, and reading a request's body does not fail.
pub mod Compiling
pub mod Deciding
mod Examples
use api_x.Base.{
  ℕ, suc, Text, str, is_blank, Bool, true, false, ◌&&◌, not, Option, none, some, List, [], ◌∷◌,
  ◌==◌, if◌then◌else◌, length, is_empty,
}
use api_x.Base.Strings.{text_eq, contains, has_prefix, has_suffix}
use api_x.Base.Maps.{Assoc, lookup}
use api_x.Header
use api_x.Header.{Header}
use api_x.Regex.{RegexLib}
use api_x.Plugin.{ProxyRequest, ProxyResponse, clone}

pub record Condition : Type 0 where
  pub field : Text
  pub operator : Text
  pub value : Text

pub record PolicyRule : Type 0 where
  pub name : Text
  pub action : Text
  pub conditions : List Condition
  pub headers : Assoc Text

pub record PolicyEngineConfig : Type 0 where
  pub rules : List PolicyRule
  pub default_action : Text

-- The compiled pattern at the index of a rule and the index of a condition.
abbrev pub CompiledTable : RegexLib → Type 0
CompiledTable lib = ℕ → ℕ → Option lib.Regex

pub record PolicyEngine (lib : RegexLib) : Type 0 where
  pub cfg : PolicyEngineConfig
  pub compiled : CompiledTable lib

unfoldable pub is_regex : Text → Bool
unfolding text_eq
is_regex operator = text_eq operator (str "regex")

abbrev drop : ℕ → Text → Text
drop ℕ.zero s = s
drop (suc n) [] = []
drop (suc n) (c ∷ s) = drop n s

abbrev value_or_blank : Option Text → Text
value_or_blank none = []
value_or_blank (some v) = v

-- `extractField`
unfoldable pub extract_field : Text → ProxyRequest → Text
unfolding text_eq has_prefix Header.get lookup
extract_field field req =
    if text_eq field (str "path")
    then req.url.path
    else if text_eq field (str "method")
    then req.method
    else if text_eq field (str "host")
    then req.url.host
    else if has_prefix field (str "header:")
    then Header.get req.headers (drop 7 field)
    else if has_prefix field (str "query:")
    then value_or_blank (lookup (drop 6 field) req.url.query)
    else []

module _ (lib : RegexLib) where
  abbrev store : CompiledTable lib → ℕ → ℕ → lib.Regex → CompiledTable lib
  store t ri ci re i j = if i == ri && j == ci then some re else t i j

  -- The inner loop of `NewPolicyEngine`; an error is `none`.
  unfoldable pub compile_conditions :
      ℕ → ℕ → List Condition → CompiledTable lib → Option (CompiledTable lib)
  unfolding is_regex
  compile_conditions ri ci [] t = some t
  compile_conditions ri ci (cond ∷ conds) t =
      if is_regex cond.operator
      then elim (lib.compile cond.value) [
        | none ↦ none
        | some re ↦ compile_conditions ri (suc ci) conds (store t ri ci re)
      ]
      else compile_conditions ri (suc ci) conds t

  -- The outer loop of `NewPolicyEngine`.
  unfoldable pub compile_rules :
      ℕ → List PolicyRule → CompiledTable lib → Option (CompiledTable lib)
  unfolding compile_conditions
  compile_rules ri [] t = some t
  compile_rules ri (rule ∷ rules) t = elim (compile_conditions ri 0 rule.conditions t) [
    | none ↦ none
    | some t' ↦ compile_rules (suc ri) rules t'
  ]

  abbrev pub with_default : PolicyEngineConfig → PolicyEngineConfig
  with_default cfg = record cfg {
    default_action = if is_blank cfg.default_action then str "allow" else cfg.default_action;
  }

  -- `NewPolicyEngine`
  unfoldable pub new_policy_engine : PolicyEngineConfig → Option (PolicyEngine lib)
  unfolding compile_rules
  new_policy_engine cfg = elim (compile_rules 0 cfg.rules (λ ri ci. none)) [
    | none ↦ none
    | some t ↦ some (record { cfg = with_default cfg; compiled = t })
  ]

  abbrev pub match_or_false : Option lib.Regex → Text → Bool
  match_or_false none s = false
  match_or_false (some re) s = lib.match_string re s

  -- `evalCondition`
  unfoldable pub eval_condition : Text → Text → Text → Option lib.Regex → Bool
  unfolding text_eq contains has_prefix has_suffix is_regex
  eval_condition operator actual expected re =
      if text_eq operator (str "eq")
      then text_eq actual expected
      else if text_eq operator (str "neq")
      then not (text_eq actual expected)
      else if text_eq operator (str "contains")
      then contains actual expected
      else if text_eq operator (str "not_contains")
      then not (contains actual expected)
      else if text_eq operator (str "prefix")
      then has_prefix actual expected
      else if text_eq operator (str "suffix")
      then has_suffix actual expected
      else if is_regex operator
      then match_or_false re actual
      else false

  -- The loop of `allConditionsMatch` over a row of the table, from an index on.
  unfoldable pub all_conditions_match :
      (ℕ → Option lib.Regex) → ℕ → List Condition → ProxyRequest → Bool
  unfolding eval_condition extract_field
  all_conditions_match row ci [] req = true
  all_conditions_match row ci (cond ∷ conds) req =
      eval_condition cond.operator (extract_field cond.field req) cond.value (row ci)
      && all_conditions_match row (suc ci) conds req

abbrev set_all : Header → Assoc Text → Header
set_all h [] = h
set_all h ((k, v) ∷ kvs) = set_all (Header.set h k v) kvs

abbrev forbidden : ProxyResponse
forbidden = record {
  status_code = 403;
  status = str "Forbidden";
  headers = [];
  body = str "Forbidden by policy";
}

-- `applyAction`: the replacement, or `none`
unfoldable pub apply_action : PolicyRule → ProxyRequest → Option ProxyRequest
unfolding text_eq Header.set clone
apply_action rule req =
    if text_eq rule.action (str "deny")
    then some (record (clone req req.body) { mocked_response = some forbidden })
    else if text_eq rule.action (str "enrich") && not (is_empty rule.headers)
    then some (record (clone req req.body) { headers = set_all req.headers rule.headers })
    else none

abbrev default_rule : Text → PolicyRule
default_rule action = record {
  name = str "<default>";
  action = action;
  conditions = [];
  headers = [];
}

module _ (lib : RegexLib) where
  -- The loop of `OnRequest` from the index of a rule on, and the default behind it.
  unfoldable pub decide :
      PolicyEngine lib → ℕ → List PolicyRule → ProxyRequest → Option ProxyRequest
  unfolding all_conditions_match apply_action
  decide p ri [] req = apply_action (default_rule p.cfg.default_action) req
  decide p ri (rule ∷ rules) req =
      let rest = decide p (suc ri) rules req in
      if all_conditions_match lib (p.compiled ri) 0 rule.conditions req
      then apply_action rule req
      else rest

  -- `OnRequest`; `OnResponse` does nothing
  unfoldable pub on_request : PolicyEngine lib → ProxyRequest → Option ProxyRequest
  unfolding decide
  on_request p req = decide p 0 p.cfg.rules req
