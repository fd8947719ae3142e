-- ===== src/Breakpoints/Rules.antt =====
-- The rules of a breakpoint manager and their compiled patterns stay in step.
use api_x.Base.{
  ◌⊎◌, Text, is_blank, ◌≡◌, refl, Bool, true, false, Option, none, some, arith, if◌then◌else◌,
}
use api_x.Base.Strings.{text_eq}
use api_x.Base.Maps.{Assoc, lookup, lookup-insert, lookup-delete}
use api_x.Regex.{RegexLib}
use api_x.Breakpoints.{
  BreakpointRule, Manager, Compiled, refused, accepted, check_rule, check_body, check_rest,
  add_rule, add_checked, store_or_delete, remove_rule, remove_at,
}

-- What `bodyRe` holds for the body pattern of a rule.
abbrev pub BodyFor : {A : Type 0} → Bool → Option A → Option A → Type 0
BodyFor {A} blank compiled body_re =
    (blank ≡ true) × (body_re ≡ none)
    ⊎ (blank ≡ false) × ((r : A) × (body_re ≡ some r) × (compiled ≡ some r))

-- What the manager must hold for a rule that it has, or has not.
abbrev pub CompiledFor :
    (lib : RegexLib) → Option BreakpointRule → Option lib.Regex → Option lib.Regex → Type 0
CompiledFor lib none re body_re = (re ≡ none) × (body_re ≡ none)
CompiledFor lib (some rule) re body_re =
    ((r : lib.Regex) × (re ≡ some r) × (lib.compile rule.url_pattern ≡ some r))
    × BodyFor (is_blank rule.body_pattern) (lib.compile rule.body_pattern) body_re

abbrev pub IsValid : {lib : RegexLib} {Msg : Type 0} → Manager lib Msg → Type 0
IsValid {lib} m =
    (id : Text) → CompiledFor lib (lookup id m.rules) (lookup id m.compiled) (lookup id m.body_re)

-- An accepted rule comes with the regular expressions of its patterns.
check_rest-accepted :
    {A : Type 0} (rule : BreakpointRule) (re re' : A) (b b' : Option A)
    → check_rest rule re b ≡ accepted re' b'
    → (re ≡ re') × (b ≡ b')
unfolding check_rest
check_rest-accepted rule re re' b b' h = ground arith

check_body-accepted :
    {A : Type 0} (body_re : Option A) (rule : BreakpointRule) (re re' : A) (b' : Option A)
    → check_body body_re rule re ≡ accepted re' b'
    → (re ≡ re') × BodyFor (is_blank rule.body_pattern) body_re b'
unfolding check_body
check_body-accepted body_re rule re re' b' h = ground (arith, check_rest-accepted rule re re')

pub check_rule-accepted :
    (lib : RegexLib) (rule : BreakpointRule) (re : lib.Regex) (b : Option lib.Regex)
    → check_rule lib rule ≡ accepted re b
    → (lib.compile rule.url_pattern ≡ some re)
      × BodyFor (is_blank rule.body_pattern) (lib.compile rule.body_pattern) b
unfolding check_rule
check_rule-accepted lib rule re b h =
    ground (arith, check_body-accepted (lib.compile rule.body_pattern) rule)

lookup-store_or_delete :
    {A : Type 0} (k j : Text) (v : Option A) (m : Assoc A)
    → lookup j (store_or_delete k v m) ≡ (if text_eq k j then v else lookup j m)
lookup-store_or_delete k j none m = lookup-delete k j m
lookup-store_or_delete k j (some v) m = lookup-insert k j v m

-- One key is given a rule with its patterns, and the others are as before.
CompiledFor-update :
    (lib : RegexLib) (b : Bool) (rule rule' : Option BreakpointRule)
    (re re' body body' : Option lib.Regex)
    → CompiledFor lib rule re body
    → CompiledFor lib rule' re' body'
    → CompiledFor lib
        (if b then rule else rule')
        (if b then re else re')
        (if b then body else body')
CompiledFor-update lib true rule rule' re re' body body' h h' = h
CompiledFor-update lib false rule rule' re re' body body' h h' = h'

add_checked-IsValid :
    {lib : RegexLib} {Msg : Type 0} (c : Compiled lib.Regex) (fresh : Text) (rule : BreakpointRule)
    (m : Manager lib Msg)
    → check_rule lib rule ≡ c
    → IsValid m
    → IsValid (add_checked c fresh rule m).0
add_checked-IsValid (refused e) fresh rule m h valid j = valid j
add_checked-IsValid {lib} (accepted re b) fresh rule m h valid j =
    let k = if is_blank rule.id then fresh else rule.id in
    let (url, body) = check_rule-accepted lib rule re b h in
    rw
      (
        lookup-insert k j (record rule { id = k }) m.rules,
        lookup-insert k j re m.compiled,
        lookup-store_or_delete k j b m.body_re,
      )
      (CompiledFor-update lib (text_eq k j) (some (record rule { id = k })) _ (some re) _ b _
        ((re, refl, url), body) (valid j))

-- Whatever `AddRule` answers, the manager stays valid.
pub add_rule-IsValid :
    {lib : RegexLib} {Msg : Type 0} (fresh : Text) (rule : BreakpointRule) (m : Manager lib Msg)
    → IsValid m
    → IsValid (add_rule fresh rule m).0
unfolding add_rule
add_rule-IsValid {lib} fresh rule m valid =
    add_checked-IsValid (check_rule lib rule) fresh rule m refl valid

remove_at-IsValid :
    {lib : RegexLib} {Msg : Type 0} (o : Option BreakpointRule) (id : Text) (m : Manager lib Msg)
    → IsValid m
    → IsValid (remove_at o id m).0
remove_at-IsValid none id m valid j = valid j
remove_at-IsValid {lib} (some rule) id m valid j =
    rw (lookup-delete id j m.rules, lookup-delete id j m.compiled, lookup-delete id j m.body_re)
      (CompiledFor-update lib (text_eq id j) none _ none _ none _ (refl, refl) (valid j))

-- A removal, of a rule that the manager has or has not, keeps it valid.
pub remove_rule-IsValid :
    {lib : RegexLib} {Msg : Type 0} (id : Text) (m : Manager lib Msg)
    → IsValid m
    → IsValid (remove_rule id m).0
unfolding remove_rule
remove_rule-IsValid id m valid = remove_at-IsValid (lookup id m.rules) id m valid
