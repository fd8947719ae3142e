-- ===== src/Rewrite/Sorting.antt =====
-- `sortedRules` of internal/rewrite/rules.go: the same rules, lowest priority number first.
use mathlib.Core.List.{Perm}
use mathlib.Core.List.Perm
use api_x.Base.{List, [], ◌∷◌, arith, All, Bool-cases, inl, inr}
use api_x.Base.Int.{ltb_ℤ, ◌≤ℤ◌}
use api_x.Rewrite.{RewriteRule, insert_rule, sorted_rules}

-- No rule stands before one of higher priority, that is, of a smaller number.
abbrev pub IsOrdered : List RewriteRule → Type 0
IsOrdered [] = Unit
IsOrdered (r ∷ rs) = All (λ s. r.priority ≤ℤ s.priority) rs × IsOrdered rs

insert_rule-perm : (r : RewriteRule) (rs : List RewriteRule) → Perm (insert_rule r rs) (r ∷ rs)
unfolding insert_rule
insert_rule-perm r [] = Perm.refl (r ∷ [])
insert_rule-perm r (s ∷ rs) = elim (Bool-cases (ltb_ℤ s.priority r.priority)) [
  | inl e ↦ rw e (Perm.trans (Perm.cons s (insert_rule-perm r rs)) (Perm.swap r s rs))
  | inr e ↦ rw e (Perm.refl (r ∷ s ∷ rs))
]

All-le_trans :
    (r s : RewriteRule) (rs : List RewriteRule)
    → r.priority ≤ℤ s.priority
    → All (λ t. s.priority ≤ℤ t.priority) rs
    → All (λ t. r.priority ≤ℤ t.priority) rs
All-le_trans r s [] h all = tt
All-le_trans r s (t ∷ rs) h all = (omega (arith, all.0), All-le_trans r s rs h all.1)

All-insert_rule :
    (r s : RewriteRule) (rs : List RewriteRule)
    → s.priority ≤ℤ r.priority
    → All (λ t. s.priority ≤ℤ t.priority) rs
    → All (λ t. s.priority ≤ℤ t.priority) (insert_rule r rs)
unfolding insert_rule
All-insert_rule r s [] h all = (h, tt)
All-insert_rule r s (t ∷ rs) h all = elim (Bool-cases (ltb_ℤ t.priority r.priority)) [
  | inl e ↦ rw e (all.0, All-insert_rule r s rs h all.1)
  | inr e ↦ rw e (h, all)
]

insert_rule-IsOrdered :
    (r : RewriteRule) (rs : List RewriteRule) → IsOrdered rs → IsOrdered (insert_rule r rs)
unfolding insert_rule
insert_rule-IsOrdered r [] h = (tt, tt)
insert_rule-IsOrdered r (s ∷ rs) h = elim (Bool-cases (ltb_ℤ s.priority r.priority)) [
  | inl e ↦ rw e (All-insert_rule r s rs (ground arith) h.0, insert_rule-IsOrdered r rs h.1)
  | inr e ↦
      let before : r.priority ≤ℤ s.priority = ground arith in
      rw e ((before, All-le_trans r s rs before h.0), h)
]

sorted_rules-perm : (rs : List RewriteRule) → Perm (sorted_rules rs) rs
unfolding sorted_rules
sorted_rules-perm [] = Perm.refl []
sorted_rules-perm (r ∷ rs) =
    Perm.trans (insert_rule-perm r (sorted_rules rs)) (Perm.cons r (sorted_rules-perm rs))

sorted_rules-IsOrdered : (rs : List RewriteRule) → IsOrdered (sorted_rules rs)
unfolding sorted_rules
sorted_rules-IsOrdered [] = tt
sorted_rules-IsOrdered (r ∷ rs) =
    insert_rule-IsOrdered r (sorted_rules rs) (sorted_rules-IsOrdered rs)

-- Sorting keeps every rule as often as it stands, and puts smaller priority numbers first.
pub sorted_rules_lem :
    (rs : List RewriteRule) → Perm (sorted_rules rs) rs × IsOrdered (sorted_rules rs)
sorted_rules_lem rs = (sorted_rules-perm rs, sorted_rules-IsOrdered rs)
