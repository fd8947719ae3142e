-- ===== src/CertLru/Capacity.antt =====
-- The size and the answers of the cache of internal/proxy/cert_lru.go.
use api_x.Base.{
  ℕ, suc, ◌-◌, ◌≤◌, Text, true, Option, none, some, List, [], ◌∷◌, ==_iff, length, ◌≡◌, refl, arith,
}
use api_x.Base.Int.{pos}
use api_x.Base.Strings.{text_eq_refl}
use api_x.Base.Maps.{lookup}
use api_x.CertLru.{
  CertLru, has, remove, move_to_front, back, get, get_at, evict_at, make_room, push_front, put,
  put_at,
}

length-remove : (a : ℕ) (bs : List ℕ) → has a bs ≡ true → suc (length (remove a bs)) ≡ length bs
unfolding remove
length-remove a [] h = cc
length-remove a (b ∷ bs) h = ground (arith, length-remove a bs)

length-move_to_front : (a : ℕ) (bs : List ℕ) → length (move_to_front a bs) ≡ length bs
unfolding move_to_front
length-move_to_front a bs = ground (arith, length-remove a bs)

has-back : (bs : List ℕ) (a : ℕ) → back bs ≡ some a → has a bs ≡ true
unfolding back
has-back [] a h = cc
has-back (b ∷ []) a h = ground arith
has-back (b ∷ c ∷ bs) a h = ground (arith, has-back (c ∷ bs) a h)

back-cons : (b : ℕ) (bs : List ℕ) → (a : ℕ) × (back (b ∷ bs) ≡ some a)
unfolding back
back-cons b [] = (b, refl)
back-cons b (c ∷ bs) = back-cons c bs

empty_of_back : (bs : List ℕ) → back bs ≡ none → length bs ≡ 0
empty_of_back [] h = refl
empty_of_back (b ∷ bs) h = cc ((back-cons b bs).1)

module _ {V : Type 0} where
  evict_at-length :
      (o : Option ℕ) (c : CertLru V)
      → back c.list ≡ o
      → length (evict_at o c).list ≡ length c.list - 1
  evict_at-length none c e = ground (arith, empty_of_back c.list e)
  evict_at-length (some tail) c e =
      ground (arith, length-remove tail c.list, has-back c.list tail e)

  make_room-length :
      (c : CertLru V) (cap : ℕ)
      → c.capacity ≡ pos (suc cap)
      → length c.list ≤ suc cap
      → length (make_room c).list ≤ cap
  unfolding make_room
  make_room-length c cap e le = ground (arith, evict_at-length (back c.list) c refl)

  put_at-length :
      (o : Option ℕ) (host : Text) (v : V) (c : CertLru V) (cap : ℕ)
      → c.capacity ≡ pos (suc cap)
      → length c.list ≤ suc cap
      → length (put_at o host v c).list ≤ suc cap
  unfolding push_front
  put_at-length none host v c cap e le = omega (arith, make_room-length c cap e le)
  put_at-length (some a) host v c cap e le = rw (length-move_to_front a c.list) le

  get_at-length : (o : Option ℕ) (c : CertLru V) → length (get_at o c).0.list ≡ length c.list
  get_at-length none c = refl
  get_at-length (some a) c = length-move_to_front a c.list

  -- With a positive capacity, neither `put` nor `get` takes the cache over it.
  pub put-get_bounded :
      (host host' : Text) (v : V) (c : CertLru V) (cap : ℕ)
      → c.capacity ≡ pos (suc cap)
      → length c.list ≤ suc cap
      → (length (put host v c).list ≤ suc cap) × (length (get host' c).0.list ≤ suc cap)
  unfolding put get
  put-get_bounded host host' v c cap e le = (
    put_at-length (lookup host c.entries) host v c cap e le,
    rw (get_at-length (lookup host' c.entries) c) le,
  )

  push_front-get :
      (host : Text) (v : V) (c : CertLru V) → (get host (push_front host v c)).1 ≡ some v
  unfolding get push_front
  push_front-get host v c = rw (text_eq_refl host, (==_iff c.next c.next).1 refl)

  put_at-get :
      (o : Option ℕ) (host : Text) (v : V) (c : CertLru V)
      → lookup host c.entries ≡ o
      → (get host (put_at o host v c)).1 ≡ some v
  unfolding get
  put_at-get none host v c e = push_front-get host v (make_room c)
  put_at-get (some a) host v c e = rw (e, (==_iff a a).1 refl)

  -- What `put` has stored `get` returns, whether the host was cached before or not, and at any capacity.
  pub get-put : (host : Text) (v : V) (c : CertLru V) → (get host (put host v c)).1 ≡ some v
  unfolding put
  get-put host v c = put_at-get (lookup host c.entries) host v c refl
