-- ===== src/Caching/Serving.antt =====
-- When internal/pluginrt/builtins/caching.go serves a stored response.
use api_x.Base.{
  ℕ, ◌+◌, ◌≤◌, ◌<◌, Text, true, false, ◌||◌, Option, none, some, leb, ltb, ◌≡◌, refl, sym, ap, ◌∙◌,
  arith, ==_iff, if_true, if_false,
}
use mathlib.Core.Path.{subst}
use api_x.Base.Strings.{text_eq_refl}
use api_x.Base.Maps.{lookup, delete, lookup-insert, lookup-delete}
use api_x.Plugin.{ProxyRequest, ProxyResponse, clone}
use api_x.CertLru.{CertLru, push_front, make_room, move_to_front, remove}
use api_x.Caching.{
  CachingPlugin, CacheEntry, method_allowed, cache_key, ttl_of, serve_at, on_request, store_at,
  entry_of, sized, on_response,
}

-- Where the entry of a key is found, with what it holds.
abbrev pub Holds : CertLru CacheEntry → Text → CacheEntry → Type 0
Holds c key entry = (a : ℕ) × (lookup key c.entries ≡ some a) × ((c.heap a).1 ≡ entry)

store_at-Holds :
    (o : Option ℕ) (key : Text) (entry : CacheEntry) (c : CertLru CacheEntry)
    → lookup key c.entries ≡ o
    → Holds (store_at o key entry c) key entry
unfolding push_front
store_at-Holds none key entry c e =
    let c' = make_room c in
    (
      c'.next,
      lookup-insert key key c'.next c'.entries ∙ rw (text_eq_refl key),
      rw ((==_iff c'.next c'.next).1 refl),
    )
store_at-Holds (some a) key entry c e = (a, e, rw ((==_iff a a).1 refl))

success_test : (code : ℕ) → 200 ≤ code → code < 300 → (ltb code 200 || leb 300 code) ≡ false
success_test code lo hi = ground (arith, lo, hi)

on_response-store :
    (p : CachingPlugin) (now : ℕ) (req : ProxyRequest) (resp : ProxyResponse)
    → method_allowed p req.method ≡ true
    → 200 ≤ resp.status_code
    → resp.status_code < 300
    → (on_response p now req resp).0 ≡ record p {
      lru =
          store_at
            (lookup (cache_key req) p.lru.entries)
            (cache_key req)
            (entry_of p now resp)
            (sized p);
    }
unfolding on_response
on_response-store p now req resp allowed lo hi =
    rw (allowed, on_response) (rw (success_test resp.status_code lo hi))

-- The plugin holds a response under the key of a request until a time.
abbrev pub Caches : CachingPlugin → ProxyRequest → ProxyResponse → ℕ → Type 0
Caches p req resp expiry = Holds p.lru (cache_key req) (record { response = resp; expiry = expiry })

-- `OnResponse` caches a response of status 2xx to an allowed method, for the time to live.
pub on_response-Caches :
    (p : CachingPlugin) (now : ℕ) (req : ProxyRequest) (resp : ProxyResponse)
    → method_allowed p req.method ≡ true
    → 200 ≤ resp.status_code
    → resp.status_code < 300
    → Caches (on_response p now req resp).0 req resp (now + ttl_of p)
on_response-Caches p now req resp allowed lo hi =
    subst (λ q. Caches q req resp (now + ttl_of p))
      (sym (on_response-store p now req resp allowed lo hi))
      (store_at-Holds (lookup (cache_key req) p.lru.entries) (cache_key req) (entry_of p now resp)
        (sized p) refl)

on_request-at :
    (p : CachingPlugin) (now : ℕ) (req : ProxyRequest) (a : ℕ)
    → method_allowed p req.method ≡ true
    → lookup (cache_key req) p.lru.entries ≡ some a
    → on_request p now req ≡ serve_at (some a) p now req
unfolding on_request
on_request-at p now req a allowed e = if_true _ _ allowed ∙ ap (λ o. serve_at o p now req) e

module _ (p : CachingPlugin) (now expiry : ℕ) (req : ProxyRequest) (resp : ProxyResponse) where
  abbrev answer : CacheEntry → ProxyRequest
  answer entry = record (clone req req.body) { mocked_response = some entry.response }

  served :
      (a : ℕ)
      → method_allowed p req.method ≡ true
      → lookup (cache_key req) p.lru.entries ≡ some a
      → now ≤ (p.lru.heap a).1.expiry
      → on_request p now req ≡ (
        record p { lru = record (p.lru) { list = move_to_front a p.lru.list } },
        some (answer (p.lru.heap a).1),
      )
  served a allowed e fresh =
      on_request-at p now req a allowed e
      ∙ if_false {b = ltb (p.lru.heap a).1.expiry now} _ _ (ground (arith, fresh))

  expired :
      (a : ℕ)
      → method_allowed p req.method ≡ true
      → lookup (cache_key req) p.lru.entries ≡ some a
      → (p.lru.heap a).1.expiry < now
      → on_request p now req ≡ (
        record p {
          lru = record (p.lru) {
            list = remove a p.lru.list;
            entries = delete (cache_key req) p.lru.entries;
          };
        },
        none,
      )
  expired a allowed e stale =
      on_request-at p now req a allowed e
      ∙ if_true {b = ltb (p.lru.heap a).1.expiry now} _ _ (ground (arith, stale))

  -- Up to its expiry a cached response answers a request with its key and an allowed method, and
  -- stays cached.
  pub serves_until_expiry :
      method_allowed p req.method ≡ true
      → Caches p req resp expiry
      → now ≤ expiry
      → ((on_request p now req).1
          ≡ some (record (clone req req.body) { mocked_response = some resp }))
        × Caches (on_request p now req).0 req resp expiry
  serves_until_expiry allowed (a, e, holds) fresh =
      let run = served a allowed e (subst (λ en. now ≤ en.expiry) (sym holds) fresh) in
      (
        ap (λ r. r.1) run ∙ ap (λ en. some (answer en)) holds,
        subst (λ q. Caches q req resp expiry) (sym (ap (λ r. r.0) run)) (a, e, holds),
      )

  -- After its expiry a cached response is cached no more, and the request goes on.
  pub forgets_after_expiry :
      method_allowed p req.method ≡ true
      → Caches p req resp expiry
      → expiry < now
      → ((on_request p now req).1 ≡ none)
        × (lookup (cache_key req) (on_request p now req).0.lru.entries ≡ none)
  forgets_after_expiry allowed (a, e, holds) stale =
      let run = expired a allowed e (subst (λ en. en.expiry < now) (sym holds) stale) in
      (
        ap (λ r. r.1) run,
        ap (λ r. lookup (cache_key req) r.0.lru.entries) run
            ∙ (lookup-delete (cache_key req) (cache_key req) p.lru.entries
                ∙ if_true _ _ (text_eq_refl (cache_key req))),
      )
