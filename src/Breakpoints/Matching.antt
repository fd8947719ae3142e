-- ===== src/Breakpoints/Matching.antt =====
-- internal/breakpoints/manager.go: evaluation of the rules on a request or a response.
-- Go ranges over a map in any order, so evaluation is over the rules in some order. The run in which
-- the 100 ms context ends before an answer, which gives the empty identifier, is `timed_out`.
use api_x.Base.{
  ℕ, Text, is_blank, Bool, true, false, ◌&&◌, not, Option, none, some, List, [], ◌∷◌, ◌==◌,
  if◌then◌else◌, any, is_empty,
}
use api_x.Base.Int.{ℤ, pos, negsuc}
use api_x.Base.Strings.{text_eq, equal_fold}
use api_x.Base.Maps.{Assoc, lookup}
use api_x.Header
use api_x.Header.{Header}
use api_x.Regex.{RegexLib}
use api_x.Breakpoints.{BreakpointRule, Manager}

-- What the rules are tested on; no header is Go's nil.
pub record Subject : Type 0 where
  pub method : Text
  pub raw_url : Text
  pub headers : Option Header
  pub body : Text
  pub status_code : ℕ
  pub response_phase : Bool

pub record Entry (lib : RegexLib) : Type 0 where
  pub id : Text
  pub rule : BreakpointRule
  pub re : Option lib.Regex
  pub body_re : Option lib.Regex

-- `matchesHeader`
unfoldable pub matches_header : Text → Text → Option Header → Bool
unfolding Header.get text_eq
matches_header name value none = is_blank name
matches_header name value (some h) =
    let got = Header.get h name in
    if is_blank name
    then true
    else if is_blank got
    then false
    else if is_blank value
    then true
    else text_eq got value

abbrev is_code : ℕ → ℤ → Bool
is_code code (pos c) = c == code
is_code code (negsuc c) = false

-- `matchesStatusCode`
unfoldable pub matches_status_code : List ℤ → ℕ → Bool
matches_status_code codes code = if is_empty codes then true else any (is_code code) codes

module _ (lib : RegexLib) where
  abbrev pub matches_re : Option lib.Regex → Text → Bool
  matches_re none s = false
  matches_re (some re) s = lib.match_string re s

  -- `matchesBody`
  unfoldable pub matches_body : Option lib.Regex → Text → Bool
  matches_body none body = true
  matches_body (some re) body = lib.match_string re body

  -- The test that the loop of `evaluate` makes of one entry.
  unfoldable pub entry_matches : Entry lib → Subject → Bool
  unfolding matches_header matches_status_code matches_body equal_fold
  entry_matches e s =
      if not e.rule.enabled
      then false
      else if (if s.response_phase
          then is_empty e.rule.status_codes
          else not (is_empty e.rule.status_codes))
      then false
      else if not (is_empty e.rule.methods) && not (any (λ m. equal_fold m s.method) e.rule.methods)
      then false
      else if not (matches_re e.re s.raw_url)
      then false
      else if not (matches_header e.rule.header_name e.rule.header_value s.headers)
      then false
      else if s.response_phase && not (matches_status_code e.rule.status_codes s.status_code)
      then false
      else matches_body e.body_re s.body

  -- The loop of `evaluate`.
  unfoldable pub evaluate_entries : List (Entry lib) → Subject → Text
  unfolding entry_matches
  evaluate_entries [] s = []
  evaluate_entries (e ∷ es) s =
      let rest = evaluate_entries es s in if entry_matches e s then e.id else rest

  -- The snapshot of the rules, in the order `rules` of the range loop.
  unfoldable pub entries :
      {Msg : Type 0} → Manager lib Msg → Assoc BreakpointRule → List (Entry lib)
  unfolding lookup
  entries m [] = []
  entries m ((id, rule) ∷ rules) =
      record { id = id; rule = rule; re = lookup id m.compiled; body_re = lookup id m.body_re }
      ∷ entries m rules

  -- `evaluate`
  unfoldable pub evaluate :
      {Msg : Type 0} → Bool → Assoc BreakpointRule → Manager lib Msg → Subject → Text
  unfolding evaluate_entries entries
  evaluate timed_out order m s = if timed_out then [] else evaluate_entries (entries m order) s
