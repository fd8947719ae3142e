-- ===== src/PolicyEngine/Compiling.antt =====
-- The table of internal/pluginrt/builtins/policy_engine.go holds, for each regex condition, its pattern compiled.
use api_x.Base.{
  ℕ, suc, ◌<◌, ◌≡◌, ◌≢◌, ap, sym, ◌∙◌, true, false, Option, none, some, List, [], ◌∷◌, arith,
  Bool-cases, Option-cases, inl, inr, ◌⊎◌,
}
use api_x.Regex.{RegexLib}
use api_x.PolicyEngine.{
  Condition, PolicyRule, CompiledTable, is_regex, store, compile_conditions, compile_rules,
}

abbrev pub or_else {ℓ} : {A : Type ℓ} → A → Option A → A
or_else a none = a
or_else a (some b) = b

module _ (lib : RegexLib) where
  -- A row of the table agrees with conditions that stand from an index on.
  abbrev pub Agrees : (ℕ → Option lib.Regex) → ℕ → List Condition → Type 0
  Agrees row ci [] = Unit
  Agrees row ci (cond ∷ conds) =
      (is_regex cond.operator ≡ true → row ci ≡ lib.compile cond.value) × Agrees row (suc ci) conds

  abbrev pub AgreesAll : CompiledTable lib → ℕ → List PolicyRule → Type 0
  AgreesAll t ri [] = Unit
  AgreesAll t ri (rule ∷ rules) = Agrees (t ri) 0 rule.conditions × AgreesAll t (suc ri) rules

  conditions_split :
      (ri ci : ℕ) (cond : Condition) (conds : List Condition) (t t' : CompiledTable lib)
      → compile_conditions lib ri ci (cond ∷ conds) t ≡ some t'
      → (is_regex cond.operator ≡ false) × (compile_conditions lib ri (suc ci) conds t ≡ some t')
        ⊎ ((re : lib.Regex) × (lib.compile cond.value ≡ some re)
            × (compile_conditions lib ri (suc ci) conds (store lib t ri ci re) ≡ some t'))
  unfolding compile_conditions
  conditions_split ri ci cond conds t t' h = elim (Bool-cases (is_regex cond.operator)) [
    | inr e ↦ inl (e, rw (e, compile_conditions) at h)
    | inl e ↦ elim (Option-cases (lib.compile cond.value)) [
      | inl e' ↦ absurd (cc (rw (e, e', compile_conditions) at h))
      | inr (re, e') ↦ inr (re, e', rw (e, e', compile_conditions) at h)
    ]
  ]

  rules_split :
      (ri : ℕ) (rule : PolicyRule) (rules : List PolicyRule) (t t' : CompiledTable lib)
      → compile_rules lib ri (rule ∷ rules) t ≡ some t'
      → (t1 : CompiledTable lib) × (compile_conditions lib ri 0 rule.conditions t ≡ some t1)
        × (compile_rules lib (suc ri) rules t1 ≡ some t')
  unfolding compile_rules
  rules_split ri rule rules t t' h =
      elim (Option-cases (compile_conditions lib ri 0 rule.conditions t)) [
        | inl e ↦ absurd (cc (rw (e, compile_rules) at h))
        | inr (t1, e) ↦ (t1, e, rw (e, compile_rules) at h)
      ]

  away_of_store :
      (t : CompiledTable lib) (ri ci : ℕ) (re : lib.Regex) (i j : ℕ)
      → (i ≢ ri ⊎ j < ci)
      → store lib t ri ci re i j ≡ t i j
  away_of_store t ri ci re i j away = ground arith

  at_store :
      (t : CompiledTable lib) (ri ci : ℕ) (re : lib.Regex) → store lib t ri ci re ri ci ≡ some re
  at_store t ri ci re = ground arith

  later : {ri ci i j : ℕ} → i ≢ ri ⊎ j < ci → i ≢ ri ⊎ j < suc ci
  later (inl e) = inl e
  later (inr l) = inr (omega (arith, l))

  -- Cells that the inner loop does not come to.
  conditions_keep :
      (ri ci : ℕ) (conds : List Condition) (t t' : CompiledTable lib) (i j : ℕ)
      → compile_conditions lib ri ci conds t ≡ some t'
      → (i ≢ ri ⊎ j < ci)
      → t' i j ≡ t i j
  unfolding compile_conditions
  conditions_keep ri ci [] t t' i j h away = ap (λ u. u i j) (sym (ap (or_else t) h))
  conditions_keep ri ci (cond ∷ conds) t t' i j h away =
      elim (conditions_split ri ci cond conds t t' h) [
        | inl (e, run) ↦ conditions_keep ri (suc ci) conds t t' i j run (later away)
        | inr (re, e, run) ↦
            conditions_keep ri (suc ci) conds (store lib t ri ci re) t' i j run (later away)
            ∙ away_of_store t ri ci re i j away
      ]

  conditions-Agrees :
      (ri ci : ℕ) (conds : List Condition) (t t' : CompiledTable lib)
      → compile_conditions lib ri ci conds t ≡ some t'
      → Agrees (t' ri) ci conds
  unfolding compile_conditions
  conditions-Agrees ri ci [] t t' h = tt
  conditions-Agrees ri ci (cond ∷ conds) t t' h = elim (conditions_split ri ci cond conds t t' h) [
    | inl (e, run) ↦ (λ regex. cc, conditions-Agrees ri (suc ci) conds t t' run)
    | inr (re, e, run) ↦ (
      λ regex.
          conditions_keep ri (suc ci) conds (store lib t ri ci re) t' ri ci run (inr (omega arith))
          ∙ (at_store t ri ci re ∙ sym e),
      conditions-Agrees ri (suc ci) conds (store lib t ri ci re) t' run,
    )
  ]

  rules_keep :
      (ri : ℕ) (rules : List PolicyRule) (t t' : CompiledTable lib) (i j : ℕ)
      → compile_rules lib ri rules t ≡ some t'
      → i < ri
      → t' i j ≡ t i j
  unfolding compile_rules
  rules_keep ri [] t t' i j h below = ap (λ u. u i j) (sym (ap (or_else t) h))
  rules_keep ri (rule ∷ rules) t t' i j h below =
      let (t1, inner, outer) = rules_split ri rule rules t t' h in
      rules_keep (suc ri) rules t1 t' i j outer (omega arith)
      ∙ conditions_keep ri 0 rule.conditions t t1 i j inner (inl (λ e. omega arith))

  Agrees-ext :
      (row row' : ℕ → Option lib.Regex) (ci : ℕ) (conds : List Condition)
      → ((j : ℕ) → row' j ≡ row j)
      → Agrees row ci conds
      → Agrees row' ci conds
  Agrees-ext row row' ci [] same h = tt
  Agrees-ext row row' ci (cond ∷ conds) same h =
      (λ regex. same ci ∙ h.0 regex, Agrees-ext row row' (suc ci) conds same h.1)

  -- The finished table agrees with every rule.
  pub rules-AgreesAll :
      (ri : ℕ) (rules : List PolicyRule) (t t' : CompiledTable lib)
      → compile_rules lib ri rules t ≡ some t'
      → AgreesAll t' ri rules
  unfolding compile_rules
  rules-AgreesAll ri [] t t' h = tt
  rules-AgreesAll ri (rule ∷ rules) t t' h =
      let (t1, inner, outer) = rules_split ri rule rules t t' h in
      (
        Agrees-ext (t1 ri) (t' ri) 0 rule.conditions
            (λ j. rules_keep (suc ri) rules t1 t' ri j outer (omega arith))
            (conditions-Agrees ri 0 rule.conditions t t1 inner),
        rules-AgreesAll (suc ri) rules t1 t' outer,
      )
