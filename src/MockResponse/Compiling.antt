-- ===== src/MockResponse/Compiling.antt =====
-- The pattern that mock_response.go keeps.
use api_x.Base.{ℕ, Text, none, List, [], ◌∷◌, map, ◌≡◌, refl, ap, ◌∙◌, arith}
use api_x.Plugin.{ProxyRequest}
use api_x.PluginRuntime.{Outcome}
use api_x.MockResponse.{MockResponse, pattern_of, mocked, on_request}
use api_x.Regex.{RegexLib}

module _ (lib : RegexLib) (status_text : ℕ → Text) (bad_pattern : Text → Text) where
  abbrev answer : ProxyRequest → MockResponse lib.Regex → Outcome ProxyRequest
  answer req p = (on_request lib status_text bad_pattern req p).1

  abbrev after : ProxyRequest → MockResponse lib.Regex → MockResponse lib.Regex
  after req p = (on_request lib status_text bad_pattern req p).0

  -- The answers to requests one after another.
  unfoldable pub answers : List ProxyRequest → MockResponse lib.Regex → List (Outcome ProxyRequest)
  unfolding on_request
  answers [] p = []
  answers (req ∷ reqs) p = answer req p ∷ answers reqs (after req p)

  abbrev fresh : MockResponse lib.Regex → MockResponse lib.Regex
  fresh p = record p { compiled = none }

  -- What is kept is the pattern of the configuration.
  abbrev Kept : MockResponse lib.Regex → Type 0
  Kept p =
      pattern_of lib status_text bad_pattern p.url_pattern p.compiled ≡ lib.compile p.url_pattern

  fresh_self : (p : MockResponse lib.Regex) → p.compiled ≡ none → fresh p ≡ p
  fresh_self p e = ground arith

  after-fresh : (req : ProxyRequest) (p : MockResponse lib.Regex) → fresh (after req p) ≡ fresh p
  unfolding on_request
  after-fresh req p = ground arith

  after-Kept : (req : ProxyRequest) (p : MockResponse lib.Regex) → Kept p → Kept (after req p)
  unfolding on_request
  after-Kept req p kept = ground arith

  answer-fresh :
      (req : ProxyRequest) (p : MockResponse lib.Regex)
      → Kept p
      → answer req p ≡ answer req (fresh p)
  unfolding on_request mocked
  answer-fresh req p kept = ground arith

  answers-fresh :
      (reqs : List ProxyRequest) (p : MockResponse lib.Regex)
      → Kept p
      → answers reqs p ≡ map (λ req. answer req (fresh p)) reqs
  unfolding answers
  answers-fresh [] p kept = refl
  answers-fresh (req ∷ reqs) p kept =
      let rest = answers-fresh reqs (after req p) (after-Kept req p kept) in
      let e : fresh (after req p) ≡ fresh p = after-fresh req p in
      rw (answer-fresh req p kept, rest)
        (ap (λ q. answer req (fresh p) ∷ map (λ r. answer r q) reqs) e)

  -- A plugin that has compiled nothing yet answers every request of a sequence as it would answer it first.
  pub answers-eq-first :
      (reqs : List ProxyRequest) (p : MockResponse lib.Regex)
      → p.compiled ≡ none
      → answers reqs p ≡ map (λ req. answer req p) reqs
  answers-eq-first reqs p none_yet =
      let e : fresh p ≡ p = fresh_self p none_yet in
      let kept : Kept p = rw (none_yet) refl in
      answers-fresh reqs p kept ∙ ap (λ q. map (λ req. answer req q) reqs) e
