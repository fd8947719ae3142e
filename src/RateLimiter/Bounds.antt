-- ===== src/RateLimiter/Bounds.antt =====
-- The rates of rate_limiter.go against the requests of one key that it lets through.
use api_x.Base.{
  ℕ, ◌+◌, ◌-◌, ◌*◌, ◌≤◌, Text, Bool, true, false, ◌&&◌, ◌||◌, Option, none, some, List, [], ◌∷◌,
  ◌++◌, ◌≡◌, refl, ap, arith, Bool-cases, inl, inr,
}
use native.Mathlib.Nat.{add-mul, zero-add}
use api_x.Base.Strings.{text_eq, text_eq_iff, itoa}
use api_x.Base.Decimal.{eq_of_itoa}
use api_x.Base.Maps.{Assoc, lookup}
use api_x.Plugin.{ProxyRequest}
use api_x.TokenBucket.{Bucket}
use api_x.TokenBucket.Bounds.{
  cost, refill_on, room_at, room_at-later, UpTo, UpTo-later, lookup-draw_other, UpTo-draw, draw_le,
}
use api_x.TokenBucket.Meter.{Timed, in_order, one_if}
use api_x.RateLimiter.{
  RateRule, RateLimiter, concerns, fresh_bucket, bucket_key, draw_for, reject, check_rules,
  on_request,
}

abbrev pub is_none {ℓ} : {A : Type ℓ} → Option A → Bool
is_none none = true
is_none (some a) = false

charged : (parts n : ℕ) (b : Bool) → (one_if b + n) * parts ≡ cost parts b + n * parts
charged parts n true = rw (add-mul 1 n parts) (omega arith)
charged parts n false = omega (arith, ap (λ (x : ℕ). x * parts) (zero-add n))

-- The rules from an index on have this rule at its index.
abbrev pub HasAt : ℕ → RateRule → ℕ → List RateRule → Type 0
HasAt j target i [] = Unit
HasAt j target i (rule ∷ rules) = (i ≡ j → rule ≡ target) × HasAt j target (i + 1) rules

module _ (split : Text → Option Text) (key : Text) where
  -- The rules from an index on take a token for the key.
  abbrev pub asks : ℕ → List RateRule → ProxyRequest → Bool
  asks i [] req = false
  asks i (rule ∷ rules) req =
      (concerns rule req && text_eq (bucket_key split i rule req) key) || asks (i + 1) rules req

index_of :
    (split : Text → Option Text) (i j : ℕ) (k : Text) (rule : RateRule) (req : ProxyRequest)
    → bucket_key split i rule req ≡ itoa j ++ b':' ∷ k
    → i ≡ j
unfolding bucket_key
index_of split i j k rule req e = eq_of_itoa i j _ _ refl refl e

module _ (parts : ℕ) (split : Text → Option Text) (status_text : ℕ → Text) (req : ProxyRequest)
    (now : ℕ) where
  abbrev pub run : ℕ → List RateRule → Assoc Bucket → Assoc Bucket × Option ProxyRequest
  run i rules = check_rules parts split status_text i rules req now

  module _ (i : ℕ) (rule : RateRule) (rules : List RateRule) (m : Assoc Bucket) where
    skips : concerns rule req ≡ false → run i (rule ∷ rules) m ≡ run (i + 1) rules m
    unfolding check_rules
    skips e = rw (e, check_rules)

    goes_on :
        concerns rule req ≡ true
        → (draw_for split parts i rule req now m).1 ≡ true
        → run i (rule ∷ rules) m ≡ run (i + 1) rules (draw_for split parts i rule req now m).0
    unfolding check_rules
    goes_on e ok = rw (e, check_rules) (rw ok refl)

    rejects :
        concerns rule req ≡ true
        → (draw_for split parts i rule req now m).1 ≡ false
        → run i (rule ∷ rules) m
          ≡ ((draw_for split parts i rule req now m).0, some (reject status_text rule req))
    unfolding check_rules
    rejects e over = rw (e, check_rules) (rw over refl)

module _ (parts j : ℕ) (k : Text) (target : RateRule) where
  -- The key of the bucket that the rule has for requests with the key `k`.
  abbrev pub target_key : Text
  target_key = itoa j ++ b':' ∷ k

  abbrev pub room_in : ℕ → Assoc Bucket → ℕ
  room_in t m = room_at (target.burst * parts) t (lookup target_key m)

  -- What is left for the key when so much has been paid.
  abbrev pub Spent : ℕ → ℕ → Assoc Bucket → Assoc Bucket → Bool → Type 0
  Spent t now m m' paid =
      UpTo now target.rate (lookup target_key m')
      × (room_in now m' + cost parts paid ≤ room_in t m + (now - t) * target.rate)

  module _ (t now : ℕ) (m : Assoc Bucket) (le : t ≤ now)
      (u : UpTo t target.rate (lookup target_key m)) where
    unspent : Spent t now m m false
    unspent = (
      UpTo-later t now target.rate (lookup target_key m) le u,
      let still =
            room_at-later (target.burst * parts) t now target.rate (lookup target_key m) le u in
          omega (arith, still),
    )

    -- A draw for another key.
    unspent_by :
        (m' : Assoc Bucket) → lookup target_key m' ≡ lookup target_key m → Spent t now m m' false
    unspent_by m' e = rw e unspent

    -- What a rule takes from its own key.
    draw_for-Spent :
        (split : Text → Option Text) (req : ProxyRequest) (i : ℕ)
        → bucket_key split i target req ≡ target_key
        → let (m', ok) = draw_for split parts i target req now m in Spent t now m m' ok
    unfolding draw_for
    draw_for-Spent split req i e =
        let fresh = fresh_bucket parts target now in
        rw e (
          UpTo-draw parts t now fresh target_key m u,
          draw_le parts t now fresh target_key m le refl u,
        )

  lookup-draw_for :
      (split : Text → Option Text) (rule : RateRule) (req : ProxyRequest) (i now : ℕ)
      (m : Assoc Bucket)
      → text_eq (bucket_key split i rule req) target_key ≡ false
      → lookup target_key (draw_for split parts i rule req now m).0 ≡ lookup target_key m
  unfolding draw_for
  lookup-draw_for split rule req i now m e =
      lookup-draw_other parts 0 now (fresh_bucket parts rule now) (bucket_key split i rule req) m
        target_key e

  settled : (a b c : Bool) → ((a || b) && c) ≡ true → ((a && true) || (b && c)) ≡ true
  settled a b c h = ground arith

  -- What is paid after a first payment is paid in all.
  then_Spent :
      (t now : ℕ) (m m' m'' : Assoc Bucket) (first later all : Bool)
      → Spent t now m m' first
      → Spent now now m' m'' later
      → (all ≡ true → (first || later) ≡ true)
      → Spent t now m m'' all
  then_Spent t now m m' m'' first later all (u, a) (v, b) h = (v, ground arith)

  module _ (split : Text → Option Text) (status_text : ℕ → Text) where
    drawn-Spent :
        (rule : RateRule) (req : ProxyRequest) (i t now : ℕ) (m : Assoc Bucket)
        → (i ≡ j → rule ≡ target)
        → t ≤ now
        → UpTo t target.rate (lookup target_key m)
        → let (m', ok) = draw_for split parts i rule req now m in
          Spent t now m m' (text_eq (bucket_key split i rule req) target_key && ok)
    drawn-Spent rule req i t now m same le u =
        elim (Bool-cases (text_eq (bucket_key split i rule req) target_key)) [
          | inl own ↦
              let e = (text_eq_iff (bucket_key split i rule req) target_key).0 own in
              let r : rule ≡ target = same (index_of split i j k rule req e) in
              rw (own, r) (draw_for-Spent t now m le u split req i (rw r at e))
          | inr other ↦ rw other (
              unspent_by t now m le u (draw_for split parts i rule req now m).0
                (lookup-draw_for split rule req i now m other))
        ]

    check_rules-Spent :
        (i : ℕ) (rules : List RateRule) (req : ProxyRequest) (t now : ℕ) (m : Assoc Bucket)
        → HasAt j target i rules
        → t ≤ now
        → UpTo t target.rate (lookup target_key m)
        → let (m', answer) = run parts split status_text req now i rules m in
          Spent t now m m' (asks split target_key i rules req && is_none answer)
    check_rules-Spent i [] req t now m has le u = unfold check_rules in unspent t now m le u
    check_rules-Spent i (rule ∷ rules) req t now m has le u =
        let (m', ok) = draw_for split parts i rule req now m in
        elim (Bool-cases (concerns rule req)) [
          | inr out ↦
              rw (out, skips parts split status_text req now i rule rules m out)
                (check_rules-Spent (i + 1) rules req t now m has.1 le u)
          | inl here ↦
              let own = text_eq (bucket_key split i rule req) target_key in
              let rest = asks split target_key (i + 1) rules req in
              let drawn = drawn-Spent rule req i t now m has.0 le u in
              elim (Bool-cases ok) [
                | inl more ↦
                    let (m'', answer) = run parts split status_text req now (i + 1) rules m' in
                    let later =
                      check_rules-Spent (i + 1) rules req now now m' has.1 (omega arith) drawn.0 in
                    rw (here, goes_on parts split status_text req now i rule rules m here more)
                      (then_Spent t now m m' m'' (own && ok) (rest && is_none answer)
                        ((own || rest) && is_none answer) drawn later
                        (rw more (settled own rest (is_none answer))))
                | inr over ↦
                    rw (here, rejects parts split status_text req now i rule rules m here over)
                      (drawn.0, let paid = drawn.1 in ground arith)
              ]
        ]

    -- How many of the requests ask the rule for a token for the key and get through.
    unfoldable pub passed : List (ProxyRequest × ℕ) → RateLimiter → ℕ
    passed [] p = 0
    passed ((req, now) ∷ calls) p =
        let (p', answer) = on_request parts split status_text req now p in
        one_if (asks split target_key 0 p.rules req && is_none answer) + passed calls p'

    passed_le_room :
        (calls : List (ProxyRequest × ℕ)) (p : RateLimiter) (t end : ℕ)
        → HasAt j target 0 p.rules
        → Timed t calls end
        → UpTo t target.rate (lookup target_key p.buckets)
        → passed calls p * parts ≤ room_in t p.buckets + (end - t) * target.rate
    unfolding passed on_request
    passed_le_room [] p t end has le u = omega arith
    passed_le_room ((req, now) ∷ calls) p t end has (le, on) u =
        let (m, answer) = run parts split status_text req now 0 p.rules p.buckets in
        let spent = check_rules-Spent 0 p.rules req t now p.buckets has le u in
        let rest = passed_le_room calls (record p { buckets = m }) now end has on spent.0 in
        let apart = refill_on t now end target.rate le (in_order calls now end on) in
        let paid = spent.1 in
        let now_asks = asks split target_key 0 p.rules req && is_none answer in
        let paid_off = charged parts (passed calls (record p { buckets = m })) now_asks in
        omega (arith, rest, apart, paid, paid_off)

    -- Of any requests between two times, those that ask the rule with the index `j` for a token for one
    -- key without a bucket yet, and get through all the rules, are at most its burst and what its rate
    -- makes of the time between.
    pub passed_le :
        (calls : List (ProxyRequest × ℕ)) (p : RateLimiter) (t end : ℕ)
        → HasAt j target 0 p.rules
        → lookup target_key p.buckets ≡ none
        → Timed t calls end
        → passed calls p * parts ≤ target.burst * parts + (end - t) * target.rate
    passed_le calls p t end has new timed =
        let fresh : UpTo t target.rate (lookup target_key p.buckets) = rw new tt in
        rw new at (passed_le_room calls p t end has timed fresh)
