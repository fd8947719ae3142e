-- ===== src/PolicyEngine/Deciding.antt =====
-- Which rule of internal/pluginrt/builtins/policy_engine.go decides.
use api_x.Base.{
  ℕ, suc, Text, is_blank, ◌≡◌, refl, sym, ap, ◌∙◌, Bool, true, false, ◌&&◌, Option, none, some,
  List, [], ◌∷◌, Bool-cases, Option-cases, inl, inr, if◌then◌else◌, str,
}
use api_x.Regex.{RegexLib}
use api_x.Plugin.{ProxyRequest}
use api_x.PolicyEngine.{
  Condition, PolicyRule, PolicyEngineConfig, PolicyEngine, is_regex, extract_field, eval_condition,
  all_conditions_match, with_default, apply_action, default_rule, decide, on_request,
  new_policy_engine, compile_rules,
}
use api_x.PolicyEngine.Compiling.{or_else, Agrees, AgreesAll, rules-AgreesAll}

module _ (lib : RegexLib) where
  -- The rule's conditions, each with its own pattern compiled on the spot.
  abbrev pub holds_for : ProxyRequest → List Condition → Bool
  holds_for req [] = true
  holds_for req (cond ∷ conds) =
      eval_condition lib cond.operator (extract_field cond.field req) cond.value
        (lib.compile cond.value)
      && holds_for req conds

  -- What the configuration says: the first rule that holds, or else the default.
  abbrev pub first_rule : Text → ProxyRequest → List PolicyRule → PolicyRule
  first_rule default_action req [] =
      default_rule (if is_blank default_action then str "allow" else default_action)
  first_rule default_action req (rule ∷ rules) =
      let rest = first_rule default_action req rules in
      if holds_for req rule.conditions then rule else rest

  -- Only a regex condition reads the pattern.
  eval_condition_lem :
      (operator actual expected : Text) (re re' : Option lib.Regex)
      → (is_regex operator ≡ true → re ≡ re')
      → eval_condition lib operator actual expected re
        ≡ eval_condition lib operator actual expected re'
  unfolding eval_condition
  eval_condition_lem operator actual expected re re' same = elim (Bool-cases (is_regex operator)) [
    | inl e ↦ ap (eval_condition lib operator actual expected) (same e)
    | inr e ↦ rw (e, eval_condition)
  ]

  if_action :
      (b : Bool) (rule rule' : PolicyRule) (req : ProxyRequest)
      → (if b then apply_action rule req else apply_action rule' req)
        ≡ apply_action (if b then rule else rule') req
  if_action true rule rule' req = refl
  if_action false rule rule' req = refl

  conditions_agree :
      (row : ℕ → Option lib.Regex) (ci : ℕ) (conds : List Condition) (req : ProxyRequest)
      → Agrees lib row ci conds
      → all_conditions_match lib row ci conds req ≡ holds_for req conds
  unfolding all_conditions_match
  conditions_agree row ci [] req h = refl
  conditions_agree row ci (cond ∷ conds) req h = rw (
    eval_condition_lem cond.operator (extract_field cond.field req) cond.value (row ci)
        (lib.compile cond.value) h.0,
    conditions_agree row (suc ci) conds req h.1,
  )

  decide-first :
      (p : PolicyEngine lib) (ri : ℕ) (rules : List PolicyRule) (default_action : Text)
      (req : ProxyRequest)
      → p.cfg.default_action ≡ (if is_blank default_action then str "allow" else default_action)
      → AgreesAll lib p.compiled ri rules
      → decide lib p ri rules req ≡ apply_action (first_rule default_action req rules) req
  unfolding decide
  decide-first p ri [] default_action req d h = rw d
  decide-first p ri (rule ∷ rules) default_action req d h =
      rw
        (
          conditions_agree (p.compiled ri) 0 rule.conditions req h.0,
          decide-first p (suc ri) rules default_action req d h.1,
        )
        (if_action (holds_for req rule.conditions) rule (first_rule default_action req rules) req)

  -- An engine that the constructor made applies the action of the first rule that holds, every regex
  -- condition being tested with its own pattern, and the default action if none holds.
  pub on_request-refines-first_rule :
      (cfg : PolicyEngineConfig) (p : PolicyEngine lib) (req : ProxyRequest)
      → new_policy_engine lib cfg ≡ some p
      → on_request lib p req ≡ apply_action (first_rule cfg.default_action req cfg.rules) req
  unfolding new_policy_engine on_request
  on_request-refines-first_rule cfg p req h =
      elim (Option-cases (compile_rules lib 0 cfg.rules (λ ri ci. none))) [
        | inl e ↦ absurd (cc (rw (e, new_policy_engine) at h))
        | inr (t, e) ↦
            let built : PolicyEngine lib = record { cfg = with_default lib cfg; compiled = t } in
            let made : some built ≡ some p = rw (e, new_policy_engine) at h in
            sym (ap (λ q. on_request lib q req) (ap (or_else built) made))
            ∙ decide-first built 0 cfg.rules cfg.default_action req refl
                (rules-AgreesAll lib 0 cfg.rules (λ ri ci. none) t e)
      ]
