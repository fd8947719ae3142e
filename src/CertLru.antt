-- ===== src/CertLru.antt =====
-- internal/proxy/cert_lru.go: the least recently used cache of certificates. An element of the
-- `container/list` is an address; its key and value are on a heap, so that the map and the list share
-- it as in the code. The value is any type: nothing looks into a certificate.
pub mod Capacity
mod Examples
use api_x.Base.{
  ℕ, suc, ◌+◌, Text, Bool, true, false, ◌||◌, Option, none, some, List, [], ◌∷◌, ◌==◌,
  if◌then◌else◌, length, any,
}
use api_x.Base.Int.{ℤ, pos, leb_ℤ}
use api_x.Base.Maps.{Assoc, lookup, insert, delete}

pub record CertLru (V : Type 0) : Type 0 where
  pub capacity : ℤ
  pub list : List ℕ  -- the front first
  pub entries : Assoc ℕ
  pub heap : ℕ → Text × V
  pub next : ℕ  -- the first address that is free

-- `newCertLRU`; what stands at a free address is never read
abbrev pub new_cert_lru : {V : Type 0} → (ℕ → Text × V) → ℤ → CertLru V
new_cert_lru heap capacity = record {
  capacity = capacity;
  list = [];
  entries = [];
  heap = heap;
  next = 0;
}

abbrev pub has : ℕ → List ℕ → Bool
has a = any (λ b. b == a)

-- `list.Remove(elem)`
unfoldable pub remove : ℕ → List ℕ → List ℕ
remove a [] = []
remove a (b ∷ bs) = if b == a then bs else b ∷ remove a bs

-- `list.MoveToFront(elem)`, which leaves a list alone that the element is not of
unfoldable pub move_to_front : ℕ → List ℕ → List ℕ
unfolding remove
move_to_front a bs = if has a bs then a ∷ remove a bs else bs

-- `list.Back()`
unfoldable pub back : List ℕ → Option ℕ
back [] = none
back (a ∷ []) = some a
back (a ∷ b ∷ bs) = back (b ∷ bs)

abbrev pub store : {V : Type 0} → (ℕ → V) → ℕ → V → ℕ → V
store h a v b = if a == b then v else h b

module _ {V : Type 0} where
  abbrev pub get_at : Option ℕ → CertLru V → CertLru V × Option V
  get_at none c = (c, none)
  get_at (some a) c = (record c { list = move_to_front a c.list }, some (c.heap a).1)

  -- `get`
  unfoldable pub get : Text → CertLru V → CertLru V × Option V
  unfolding lookup move_to_front
  get host c = get_at (lookup host c.entries) c

  -- The removal of the tail.
  abbrev pub evict_at : Option ℕ → CertLru V → CertLru V
  evict_at none c = c
  evict_at (some tail) c = record c {
    list = remove tail c.list;
    entries = delete (c.heap tail).0 c.entries;
  }

  unfoldable pub make_room : CertLru V → CertLru V
  unfolding back remove delete
  make_room c = if leb_ℤ c.capacity (pos (length c.list)) then evict_at (back c.list) c else c

  unfoldable pub push_front : Text → V → CertLru V → CertLru V
  unfolding insert
  push_front host v c = record c {
    list = c.next ∷ c.list;
    entries = insert host c.next c.entries;
    heap = store c.heap c.next (host, v);
    next = suc c.next;
  }

  abbrev pub put_at : Option ℕ → Text → V → CertLru V → CertLru V
  put_at (some a) host v c = record c {
    list = move_to_front a c.list;
    heap = store c.heap a ((c.heap a).0, v);
  }
  put_at none host v c = push_front host v (make_room c)

  -- `put`
  unfoldable pub put : Text → V → CertLru V → CertLru V
  unfolding lookup move_to_front make_room push_front
  put host v c = put_at (lookup host c.entries) host v c
