-- ===== src/Caching.antt =====
-- internal/pluginrt/builtins/caching.go: a cache of responses with a time to live. Its list and map
-- are those of the certificate cache, over the responses and their expiry. Clock readings are
-- arguments, and reading a body does not fail.
pub mod Serving
mod Examples
use api_x.Base.{
  ℕ, suc, ◌+◌, Text, str, Bool, true, false, ◌||◌, not, Option, none, some, List, [], ◌∷◌, ◌++◌,
  leb, ltb, if◌then◌else◌, any, is_empty,
}
use api_x.Base.Int.{ℤ, pos, positive_or}
use api_x.Base.Strings.{text_eq}
use api_x.Base.Maps.{lookup, insert, delete}
use api_x.Header.{Header}
use api_x.Plugin.{ProxyRequest, ProxyResponse, clone, clone_response}
use api_x.CertLru.{CertLru, remove, move_to_front, make_room, push_front, store}

pub record CachingConfig : Type 0 where
  pub capacity : ℤ
  pub ttl : ℤ
  pub cache_methods : List Text

-- The response of a `cacheEntry`, and its expiry; the key is in the list's element.
pub record CacheEntry : Type 0 where
  pub response : ProxyResponse
  pub expiry : ℕ

pub record CachingPlugin : Type 0 where
  pub cfg : CachingConfig
  pub lru : CertLru CacheEntry

-- `capacity()` and `ttl()`
abbrev pub capacity_of : CachingPlugin → ℕ
capacity_of p = positive_or 1000 p.cfg.capacity

abbrev pub ttl_of : CachingPlugin → ℕ
ttl_of p = positive_or 300_000_000_000 p.cfg.ttl

-- `cacheMethods()`
abbrev pub methods_of : CachingPlugin → List Text
methods_of p =
    if is_empty p.cfg.cache_methods then str "GET" ∷ str "HEAD" ∷ [] else p.cfg.cache_methods

-- `methodAllowed`
unfoldable pub method_allowed : CachingPlugin → Text → Bool
unfolding text_eq
method_allowed p method = any (λ m. text_eq m method) (methods_of p)

-- `cacheKey`
abbrev pub cache_key : ProxyRequest → Text
cache_key req = req.method ++ str ":" ++ req.url.text

-- The list and the map, with the capacity in force.
abbrev pub sized : CachingPlugin → CertLru CacheEntry
sized p = record (p.lru) { capacity = pos (capacity_of p) }

abbrev pub serve_at :
    Option ℕ → CachingPlugin → ℕ → ProxyRequest → CachingPlugin × Option ProxyRequest
serve_at none p now req = (p, none)
serve_at (some a) p now req =
    let entry = (p.lru.heap a).1 in
    if ltb entry.expiry now
    then (
      record p {
        lru = record (p.lru) {
          list = remove a p.lru.list;
          entries = delete (cache_key req) p.lru.entries;
        };
      },
      none,
    )
    else (
      record p { lru = record (p.lru) { list = move_to_front a p.lru.list } },
      some (record (clone req req.body) { mocked_response = some entry.response }),
    )

-- `OnRequest`
unfoldable pub on_request : CachingPlugin → ℕ → ProxyRequest → CachingPlugin × Option ProxyRequest
unfolding method_allowed lookup remove delete move_to_front clone
on_request p now req =
    if method_allowed p req.method
    then serve_at (lookup (cache_key req) p.lru.entries) p now req
    else (p, none)

abbrev pub store_at : Option ℕ → Text → CacheEntry → CertLru CacheEntry → CertLru CacheEntry
store_at (some a) key entry c = record c {
  list = move_to_front a c.list;
  heap = store c.heap a (key, entry);
}
store_at none key entry c = push_front key entry (make_room c)

abbrev pub entry_of : CachingPlugin → ℕ → ProxyResponse → CacheEntry
entry_of p now resp = record { response = resp; expiry = now + ttl_of p }

-- `OnResponse`
unfoldable pub on_response :
    CachingPlugin → ℕ → ProxyRequest → ProxyResponse → CachingPlugin × Option ProxyResponse
unfolding method_allowed lookup move_to_front make_room push_front clone_response
on_response p now req resp =
    if not (method_allowed p req.method)
    then (p, none)
    else if ltb resp.status_code 200 || leb 300 resp.status_code
    then (p, none)
    else (
      record p {
        lru =
            store_at (lookup (cache_key req) p.lru.entries) (cache_key req) (entry_of p now resp)
              (sized p);
      },
      some (clone_response resp resp.body),
    )
