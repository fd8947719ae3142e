-- ===== src/Breakpoints/Evaluate.antt =====
-- What an evaluation of the breakpoint rules of internal/breakpoints/manager.go answers.
use api_x.Base.{
  Text, is_blank, true, false, not, Option, some, [], ◌∷◌, if◌then◌else◌, any, is_empty, ◌≡◌, ◌≢◌,
  refl, sym, ap, arith, All, Bool-cases, inl, inr, ◌⊎◌, ◌↔◌, ◌∙◌,
}
use api_x.Base.Strings.{equal_fold}
use api_x.Base.Maps.{Assoc, lookup}
use api_x.Regex.{RegexLib}
use api_x.Breakpoints.{BreakpointRule, Manager}
use api_x.Breakpoints.Rules.{IsValid, CompiledFor, BodyFor}
use api_x.Breakpoints.Matching.{
  Subject, Entry, matches_header, matches_status_code, matches_body, entry_matches, evaluate,
}
use mathlib.Core.Path.{subst}

module _ (lib : RegexLib) where
  -- A pattern that compiles and matches.
  abbrev pub Finds : Text → Text → Type 0
  Finds pattern s =
      (re : lib.Regex) × (lib.compile pattern ≡ some re) × (lib.match_string re s ≡ true)

  -- A rule stops a request or a response: what the rule's fields ask for.
  abbrev pub Stops : BreakpointRule → Subject → Type 0
  Stops rule s =
      (rule.enabled ≡ true)
      × (is_empty rule.status_codes ≡ not s.response_phase)
      × (is_empty rule.methods ≡ true ⊎ any (λ m. equal_fold m s.method) rule.methods ≡ true)
      × Finds rule.url_pattern s.raw_url
      × (matches_header rule.header_name rule.header_value s.headers ≡ true)
      × (s.response_phase ≡ false ⊎ matches_status_code rule.status_codes s.status_code ≡ true)
      × (is_blank rule.body_pattern ≡ true ⊎ Finds rule.body_pattern s.body)

  -- The body's test, for the compiled pattern that a valid manager holds.
  body_iff :
      (rule : BreakpointRule) (body : Text) (b : Option lib.Regex)
      → BodyFor (is_blank rule.body_pattern) (lib.compile rule.body_pattern) b
      → (matches_body lib b body ≡ true)
        ↔ (is_blank rule.body_pattern ≡ true ⊎ Finds rule.body_pattern body)
  unfolding matches_body
  body_iff rule body b e = ground arith

  url_iff :
      (rule : BreakpointRule) (url : Text) (re : lib.Regex)
      → lib.compile rule.url_pattern ≡ some re
      → (lib.match_string re url ≡ true) ↔ Finds rule.url_pattern url
  url_iff rule url re e = ground arith

  entry_of : Text → BreakpointRule → Option lib.Regex → Option lib.Regex → Entry lib
  entry_of id rule re body_re = record { id = id; rule = rule; re = re; body_re = body_re }

  -- For the patterns of a valid manager, the test of an entry is what the rule asks for.
  entry_matches-iff-Stops :
      (id : Text) (rule : BreakpointRule) (re body_re : Option lib.Regex) (s : Subject)
      → CompiledFor lib (some rule) re body_re
      → (entry_matches lib (record { id = id; rule = rule; re = re; body_re = body_re }) s ≡ true)
        ↔ Stops rule s
  unfolding entry_matches
  entry_matches-iff-Stops id rule re body_re s ((r, e, compiled), body) =
      ground (arith, body_iff rule s.body body_re body, url_iff rule s.raw_url r compiled)

  module _ {Msg : Type 0} (m : Manager lib Msg) where
    -- The range loop visits rules of the manager.
    abbrev pub AreRules : Assoc BreakpointRule → Type 0
    AreRules order = All (λ p. lookup p.0 m.rules ≡ some p.1) order

    abbrev entry_at : Text → BreakpointRule → Entry lib
    entry_at id rule = record {
      id = id;
      rule = rule;
      re = lookup id m.compiled;
      body_re = lookup id m.body_re;
    }

    valid_at :
        (id : Text) (rule : BreakpointRule)
        → IsValid m
        → lookup id m.rules ≡ some rule
        → CompiledFor lib (some rule) (lookup id m.compiled) (lookup id m.body_re)
    valid_at id rule valid e =
        subst (λ o. CompiledFor lib o (lookup id m.compiled) (lookup id m.body_re)) e (valid id)

    head_matches :
        (id : Text) (rule : BreakpointRule) (s : Subject)
        → IsValid m
        → lookup id m.rules ≡ some rule
        → (entry_matches lib (entry_at id rule) s ≡ true) ↔ Stops rule s
    head_matches id rule s valid e =
        entry_matches-iff-Stops id rule _ _ s (valid_at id rule valid e)

    -- An identifier that the evaluation answers is that of a rule which stops the message.
    pub evaluate-Stops :
        (order : Assoc BreakpointRule) (s : Subject)
        → IsValid m
        → AreRules order
        → evaluate lib false order m s ≢ []
        → (rule : BreakpointRule) × (lookup (evaluate lib false order m s) m.rules ≡ some rule)
          × Stops rule s
    unfolding evaluate
    evaluate-Stops [] s valid are answered = absurd (answered refl)
    evaluate-Stops ((id, rule) ∷ order) s valid are answered =
        elim (Bool-cases (entry_matches lib (entry_at id rule) s)) [
          | inl hit ↦ rw hit (rule, are.0, (head_matches id rule s valid are.0).0 hit)
          | inr miss ↦ rw miss (evaluate-Stops order s valid are.1 (λ e. answered (rw miss e)))
        ]

    -- If the evaluation answers nothing, no rule that the loop visits stops the message.
    pub no_answer :
        (order : Assoc BreakpointRule) (s : Subject)
        → IsValid m
        → AreRules order
        → All (λ p. p.0 ≢ []) order
        → evaluate lib false order m s ≡ []
        → All (λ p. ¬ Stops p.1 s) order
    unfolding evaluate
    no_answer [] s valid are named none_hit = tt
    no_answer ((id, rule) ∷ order) s valid are named none_hit =
        elim (Bool-cases (entry_matches lib (entry_at id rule) s)) [
          | inl hit ↦ absurd (
              named.0
                (sym (ap (λ b. if b then id else evaluate lib false order m s) hit) ∙ none_hit))
          | inr miss ↦ (
            λ stops. cc ((head_matches id rule s valid are.0).1 stops),
            no_answer order s valid are.1 named.1
                (sym (ap (λ b. if b then id else evaluate lib false order m s) miss) ∙ none_hit),
          )
        ]
