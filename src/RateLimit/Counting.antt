-- ===== src/RateLimit/Counting.antt =====
-- The counters of internal/proxy/ratelimit.go against the connections that clients really hold.
use api_x.Base.{
  Bool-cases, inl, inr, ℕ, zero, suc, ap, ◌+◌, ◌-◌, ◌≤◌, Text, true, Option, List, [], ◌∷◌, ◌++◌,
  if◌then◌else◌, ◌≡◌, refl, arith, ◌∙◌,
}
use api_x.Base.Int.{ℤ, pos, negsuc}
use api_x.Base.Strings.{text_eq, text_eq_refl, text_eq_iff}
use api_x.Base.Maps.{lookup, insert, delete, lookup-insert, lookup-delete}
use api_x.RateLimit.{
  admit, ProxyRateLimiter, new_proxy_rate_limiter, allow, draw_at, or_zero, normalize_client_ip,
  count, acquire, release, update,
}

pub record System : Type 0 where
  pub limiter : ProxyRateLimiter
  pub in_flight : List Text  -- the keys of the connections that have been admitted and not released

abbrev pub held : Text → List Text → ℕ
held key [] = 0
held key (k ∷ ks) = if text_eq k key then suc (held key ks) else held key ks

count-insert :
    (l : ProxyRateLimiter) (k j : Text) (n : ℕ)
    → count (record l { active = insert k n l.active }) j ≡ (if text_eq k j then n else count l j)
unfolding count
count-insert l k j n = ground (arith, lookup-insert k j n l.active)

count-delete :
    (l : ProxyRateLimiter) (k j : Text)
    → count (record l { active = delete k l.active }) j ≡ (if text_eq k j then 0 else count l j)
unfolding count
count-delete l k j = ground (arith, lookup-delete k j l.active)

held-append : (key : Text) (xs ys : List Text) → held key (xs ++ ys) ≡ held key xs + held key ys
held-append key [] ys = omega arith
held-append key (x ∷ xs) ys = ground (arith, held-append key xs ys)

module _ (split : Text → Option Text) (n : ℕ) where
  -- The limit is `n + 1`.
  pub data Reach : System → Type 0 where
    start :
        (rate : ℤ)
        → Reach (record { limiter = new_proxy_rate_limiter rate (pos (suc n)); in_flight = [] })
    passed :
        {s : System} (ip : Text) (now : ℕ)
        → Reach s
        → Reach (record s { limiter = (allow split ip now s.limiter).0 })
    asked :
        {s : System} (ip : Text)
        → Reach s
        → Reach (record {
          limiter = (acquire split ip s.limiter).0;
          in_flight =
              if (acquire split ip s.limiter).1
              then normalize_client_ip split ip ∷ s.in_flight
              else s.in_flight;
        })
    released :
        {l : ProxyRateLimiter} (before behind : List Text) (ip : Text)
        → Reach
            (record { limiter = l; in_flight = before ++ normalize_client_ip split ip ∷ behind })
        → Reach (record { limiter = release split ip l; in_flight = before ++ behind })

  -- Every counter is the number of connections held, and within the limit.
  abbrev pub IsCounted : System → Type 0
  IsCounted s =
      (s.limiter.max_concurrent ≡ pos (suc n))
      × ((key : Text)
          → (count s.limiter key ≡ held key s.in_flight) × (held key s.in_flight ≤ suc n))

  acquire_counts :
      (l : ProxyRateLimiter) (ks : List Text) (ip key : Text)
      → l.max_concurrent ≡ pos (suc n)
      → count l (normalize_client_ip split ip) ≡ held (normalize_client_ip split ip) ks
      → (count l key ≡ held key ks) × (held key ks ≤ suc n)
      → let ks' = if (acquire split ip l).1 then normalize_client_ip split ip ∷ ks else ks in
        (count (acquire split ip l).0 key ≡ held key ks') × (held key ks' ≤ suc n)
  unfolding acquire
  acquire_counts l ks ip key e same inv =
      let k = normalize_client_ip split ip in
      ground (arith, count-insert l k key (count l k + 1), text_eq_iff k key)

  acquire_limit :
      (l : ProxyRateLimiter) (ip : Text) → (acquire split ip l).0.max_concurrent ≡ l.max_concurrent
  unfolding acquire
  acquire_limit l ip = ground arith

  allow-keeps :
      (l : ProxyRateLimiter) (ip : Text) (now : ℕ)
      → ((allow split ip now l).0.max_concurrent ≡ l.max_concurrent)
        × ((key : Text) → count (allow split ip now l).0 key ≡ count l key)
  unfolding allow count
  allow-keeps l ip now = (
    draw_at_limit l.rate_per_sec,
    λ key. ap (λ a. or_zero (lookup key a)) (draw_at_active l.rate_per_sec),
  )
    where
      k : Text
      k = normalize_client_ip split ip

      draw_at_limit : (r : ℤ) → (draw_at r k now l).0.max_concurrent ≡ l.max_concurrent
      draw_at_limit (pos zero) = refl
      draw_at_limit (pos (suc m)) = refl
      draw_at_limit (negsuc m) = refl

      draw_at_active : (r : ℤ) → (draw_at r k now l).0.active ≡ l.active
      draw_at_active (pos zero) = refl
      draw_at_active (pos (suc m)) = refl
      draw_at_active (negsuc m) = refl

  release_counts :
      (l : ProxyRateLimiter) (before behind : List Text) (ip key : Text)
      → let k = normalize_client_ip split ip in
        l.max_concurrent ≡ pos (suc n)
        → count l k ≡ held k (before ++ k ∷ behind)
        → (count l key ≡ held key (before ++ k ∷ behind))
          × (held key (before ++ k ∷ behind) ≤ suc n)
        → (count (release split ip l) key ≡ held key (before ++ behind))
          × (held key (before ++ behind) ≤ suc n)
  unfolding release
  release_counts l before behind ip key e same inv =
      let k = normalize_client_ip split ip in
      ground (
        arith,
        count-insert l k key (count l k - 1),
        count-delete l k key,
        text_eq_iff k key,
        text_eq_refl k,
        held-append key before (k ∷ behind),
        held-append k before (k ∷ behind),
        held-append key before behind,
      )

  release_limit :
      (l : ProxyRateLimiter) (ip : Text) → (release split ip l).max_concurrent ≡ l.max_concurrent
  unfolding release
  release_limit l ip = ground arith

  -- While a positive limit is not updated, every client's counter is the number of its connections that
  -- are admitted and not released, and within the limit.
  pub Reach-IsCounted : {s : System} → Reach s → IsCounted s
  unfolding count
  Reach-IsCounted (start rate) = (refl, λ key. (refl, omega arith))
  Reach-IsCounted (passed {s} ip now r) =
      let (limit, counts) = Reach-IsCounted r in
      let (same, kept) = allow-keeps s.limiter ip now in
      (same ∙ limit, λ key. rw (kept key) (counts key))
  Reach-IsCounted (asked {s} ip r) =
      let (limit, counts) = Reach-IsCounted r in
      (
        acquire_limit s.limiter ip ∙ limit,
        λ key.
            acquire_counts s.limiter s.in_flight ip key limit
              (counts (normalize_client_ip split ip)).0 (counts key),
      )
  Reach-IsCounted (released {l} before behind ip r) =
      let (limit, counts) = Reach-IsCounted r in
      (
        release_limit l ip ∙ limit,
        λ key.
            release_counts l before behind ip key limit (counts (normalize_client_ip split ip)).0
              (counts key),
      )

  -- Whatever ServeHTTP answers, it keeps to the steps.
  pub admit-Reach :
      {s : System} (addr : Text) (now : ℕ)
      → Reach s
      → let ip = normalize_client_ip split addr in
        Reach (record {
          limiter = (admit split addr now s.limiter).0;
          in_flight =
              if (admit split addr now s.limiter).1
              then normalize_client_ip split ip ∷ s.in_flight
              else s.in_flight;
        })
  unfolding admit
  admit-Reach {s} addr now r =
      let ip = normalize_client_ip split addr in
      elim (Bool-cases (allow split ip now s.limiter).1) [
        | inl through ↦ rw through (asked ip (passed ip now r))
        | inr stopped ↦ rw stopped (passed ip now r)
      ]

  acquire_fresh :
      (l : ProxyRateLimiter) (ip : Text)
      → l.max_concurrent ≡ pos (suc n)
      → count l (normalize_client_ip split ip) ≡ 0
      → ((acquire split ip l).1 ≡ true)
        × (count (acquire split ip l).0 (normalize_client_ip split ip) ≡ 1)
  unfolding acquire
  acquire_fresh l ip e none_held =
      let k = normalize_client_ip split ip in
      ground (arith, count-insert l k k (count l k + 1), text_eq_refl k)

  release_last :
      (l : ProxyRateLimiter) (ip : Text)
      → l.max_concurrent ≡ pos (suc n)
      → count l (normalize_client_ip split ip) ≡ 1
      → count (release split ip l) (normalize_client_ip split ip) ≡ 0
  unfolding release
  release_last l ip e one =
      let k = normalize_client_ip split ip in ground (arith, count-delete l k k, text_eq_refl k)

  -- After `update` the counters forget the connections that are held: a client gets in anew, and the
  -- release of a connection from before takes the new one's count away.
  pub update_forgets :
      (rate : ℤ) (l : ProxyRateLimiter) (ip : Text)
      → let l' = update rate (pos (suc n)) l in
        ((acquire split ip l').1 ≡ true)
        × (count (acquire split ip l').0 (normalize_client_ip split ip) ≡ 1)
        × (count (release split ip (acquire split ip l').0) (normalize_client_ip split ip) ≡ 0)
  unfolding update count
  update_forgets rate l ip =
      let l' = update rate (pos (suc n)) l in
      let (ok, one) = acquire_fresh l' ip refl refl in
      (ok, one, release_last (acquire split ip l').0 ip (acquire_limit l' ip) one)
