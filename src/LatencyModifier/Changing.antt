-- ===== src/LatencyModifier/Changing.antt =====
-- What the rules of latency_modifier.go delay and change.
use api_x.Base.{
  ℕ, ◌+◌, ◌-◌, Text, is_blank, Bool, true, false, none, List, [], ◌∷◌, leb, if◌then◌else◌, ◌≡◌,
  refl, All, arith,
}
use api_x.Header
use api_x.Header.{Header}
use api_x.Plugin.{ProxyRequest, ProxyResponse, clone_response}
use api_x.LatencyModifier.{
  LatencyRule, latency_rule_matches, delay_of, on_request, remove_headers, add_headers,
  remap_status, apply_rule, apply_rules, on_response,
}

module _ (int63n : ℕ → ℕ → ℕ) (req : ProxyRequest) where
  -- The delays of the rules that match, together.
  unfoldable pub total_delay : ℕ → List LatencyRule → ℕ
  total_delay i [] = 0
  total_delay i (rule ∷ rules) =
      (if latency_rule_matches rule req then delay_of int63n i rule else 0)
      + total_delay (i + 1) rules

  -- A request goes on exactly when its context lasts as long as the delays of all matching rules together.
  pub on_request-eq-total :
      (i : ℕ) (rules : List LatencyRule) (left : ℕ)
      → on_request int63n i rules req left ≡ leb (total_delay i rules) left
  unfolding on_request total_delay
  on_request-eq-total i [] left = ground arith
  on_request-eq-total i (rule ∷ rules) left =
      let slow = on_request-eq-total (i + 1) rules (left - delay_of int63n i rule) in
      let fast = on_request-eq-total (i + 1) rules left in ground arith

-- A rule that only removes headers whose first value is blank or that are missing.
pub record NoChange (h : Header) (rule : LatencyRule) : Type 0 where
  pub removes : All (λ k. is_blank (Header.get h k) ≡ true) rule.remove_headers
  pub adds : rule.add_headers ≡ []
  pub maps : rule.status_remap ≡ []

removes_none :
    (ks : List Text) (h : Header)
    → All (λ k. is_blank (Header.get h k) ≡ true) ks
    → remove_headers ks h ≡ (false, h)
unfolding remove_headers
removes_none [] h blank = refl
removes_none (k ∷ ks) h (b, blank) = rw (b, removes_none ks h blank) refl

rule_changes_none :
    (rule : LatencyRule) (resp : ProxyResponse)
    → NoChange resp.headers rule
    → apply_rule rule resp ≡ (false, resp)
unfolding apply_rule add_headers remap_status
rule_changes_none rule resp b =
    rw (removes_none rule.remove_headers resp.headers b.removes, b.adds, b.maps) refl

either_way : {A : Type 0} {x y : A} (b : Bool) → x ≡ y → (if b then x else y) ≡ y
either_way true e = e
either_way false e = refl

rules_change_none :
    (rules : List LatencyRule) (req : ProxyRequest) (resp : ProxyResponse)
    → All (NoChange resp.headers) rules
    → apply_rules rules req resp ≡ (false, resp)
unfolding apply_rules
rules_change_none [] req resp all = refl
rules_change_none (rule ∷ rules) req resp (b, all) =
    let same : (if latency_rule_matches rule req then apply_rule rule resp else (false, resp))
        ≡ (false, resp) =
      either_way (latency_rule_matches rule req) (rule_changes_none rule resp b) in
    rw (same) (rules_change_none rules req resp all)

-- A header whose first value is blank is not removed, whatever its other values: if the rules have no
-- more to do than to remove such headers, the response stays as it is.
pub blank_first_value_stays :
    (rules : List LatencyRule) (req : ProxyRequest) (resp : ProxyResponse)
    → All (NoChange resp.headers) rules
    → on_response rules req resp ≡ none
unfolding on_response
blank_first_value_stays rules req resp all =
    rw (rules_change_none rules req (clone_response resp resp.body) all) refl
