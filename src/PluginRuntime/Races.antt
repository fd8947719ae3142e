-- ===== src/PluginRuntime/Races.antt =====
-- Interleavings of the calls of internal/pluginrt/runtime.go, as a step relation, and what two
-- overlapping calls of `Unregister` for one name do.
use api_x.Base.{
  ℕ, ◌<◌, Text, ◌≡◌, ◌≢◌, refl, true, false, none, some, List, [], ◌∷◌, ==_iff, arith, Option-cases,
  inl, inr,
}
use api_x.Base.Strings.{text_eq_iff, text_eq_refl}
use api_x.PluginRuntime.{
  Plugin, Runtime, PluginMeta, meta_of, is_pos, remove_first, register, unregister, wake,
  begin_plugin_use, done, list_from, list,
}
use api_x.PluginRuntime.Invariant.{
  count, waiters, waits_at, without_waiter, System, IsValid, empty, empty-IsValid, register-IsValid,
  begin-IsValid, done-IsValid, waiters-without, waiters_of_waits, count-append,
}
use api_x.PluginRuntime.Draining.{NotDraining, unregister-IsValid, wake-IsValid}

-- One call, or one section of `Unregister`, by any goroutine. A name is unregistered only while no
-- other `Unregister` drains it.
pub data Step (s t : System) : Type 0 where
  registers : (p : Plugin) → t ≡ record s { rt = (register p s.rt).0 } → Step s t
  unregisters :
      (name : Text)
      → NotDraining name s.rt
      → t ≡ record s { rt = (unregister name s.rt).0 }
      → Step s t
  wakes :
      (name : Text) (a : ℕ)
      → waits_at name a s.rt.waiting ≡ true
      → t ≡ record s { rt = wake name a (without_waiter name s.rt.waiting) s.rt }
      → Step s t
  begins :
      (name : Text) (p : Plugin)
      → (begin_plugin_use name s.rt).1 ≡ some p
      → t ≡ record { rt = (begin_plugin_use name s.rt).0; users = name ∷ s.users }
      → Step s t
  ends :
      (name : Text)
      → 0 < count name s.users
      → t ≡ record { rt = done name s.rt; users = remove_first name s.users }
      → Step s t

pub data Reach : System → Type 0 where
  start : Reach empty
  next : {s t : System} → Reach s → Step s t → Reach t

Step-IsValid : {s t : System} → Step s t → IsValid s → IsValid t
Step-IsValid {s} (registers p e) v = rw e (register-IsValid s v p)
Step-IsValid {s} (unregisters name live e) v = rw e (unregister-IsValid s v name live)
Step-IsValid {s} (wakes name a h e) v = rw e (wake-IsValid s v name a h)
Step-IsValid {s} (begins name p used e) v = rw e (begin-IsValid s v name used)
Step-IsValid {s} (ends name busy e) v = rw e (done-IsValid s v name busy)

-- Every reachable registry is valid: in-flight counts are the uses not yet given back, the order
-- lists exactly the plugins that are not draining, each once, and each draining one has one waiter.
pub Reach-IsValid : {s : System} → Reach s → IsValid s
Reach-IsValid start = empty-IsValid
Reach-IsValid (next r st) = Step-IsValid st (Reach-IsValid r)

-- A plugin in use is registered: `Unregister` has not removed it, and its `done` finds its entry.
pub in_use-registered :
    {s : System} (name : Text)
    → Reach s
    → 0 < count name s.users
    → (a : ℕ) × (s.rt.plugins name ≡ some a) × (is_pos (s.rt.heap a).in_flight ≡ true)
in_use-registered {s} name r busy = elim (Option-cases (s.rt.plugins name)) [
  | inl e ↦ absurd (ground (arith, (Reach-IsValid r).at_name name))
  | inr (a, e) ↦ (a, e, ground (arith, (Reach-IsValid r).at_name name))
]

list_from_total :
    (s : System)
    → IsValid s
    → (names : List Text) → ((n : Text) → 0 < count n names → 0 < count n s.rt.order)
    → (metas : List PluginMeta) × (list_from names s.rt ≡ some metas)
unfolding list_from
list_from_total s v [] within = ([], refl)
list_from_total s v (name ∷ names) within =
    let here : 0 < count name s.rt.order = within name (ground (arith, text_eq_refl name)) in
    let (metas, e) = list_from_total s v names (λ n h. within n (ground arith)) in
    elim (Option-cases (s.rt.plugins name)) [
      | inl f ↦ absurd (ground (arith, v.at_name name))
      | inr (a, f) ↦ (meta_of (s.rt.heap a).plugin ∷ metas, rw (f, e))
    ]

-- `List` never panics.
pub list_total : {s : System} → Reach s → (metas : List PluginMeta) × (list s.rt ≡ some metas)
unfolding list
list_total {s} r = list_from_total s (Reach-IsValid r) s.rt.order (λ n h. h)

-- A waiting `Unregister` whose plugin has no use left removes it when it wakes, and the name is free.
pub wake_removes :
    {s : System} (name : Text) (a : ℕ)
    → Reach s
    → waits_at name a s.rt.waiting ≡ true
    → count name s.users ≡ 0
    → ((wake name a (without_waiter name s.rt.waiting) s.rt).plugins name ≡ none)
      × (waiters name (wake name a (without_waiter name s.rt.waiting) s.rt).waiting ≡ 0)
unfolding wake
wake_removes {s} name a r h idle =
    let v = Reach-IsValid r in
    ground (
      arith,
      v.waits name a,
      v.at_name name,
      text_eq_refl name,
      waiters-without name name s.rt.waiting,
      waiters_of_waits name a s.rt.waiting,
    )

-- A name of the order that the map does not have makes `List` panic.
list_from_dangling :
    (n : Text) (names : List Text) (r : Runtime)
    → 0 < count n names
    → r.plugins n ≡ none
    → list_from names r ≡ none
unfolding list_from
list_from_dangling n [] r h e = absurd (omega arith)
list_from_dangling n (name ∷ names) r h e =
    ground (arith, text_eq_iff name n, list_from_dangling n names r)

-- The rest of two calls of `Unregister` that both wait for the entry `a` of one name, with a
-- `Register` of that name between their ends.
abbrev pub race : Text → ℕ → List (Text × ℕ) → Plugin → Runtime → Runtime
race n a rest q r = wake n a [] (register q (wake n a rest r)).0

race-dangling :
    (n : Text) (a : ℕ) (rest : List (Text × ℕ)) (q : Plugin) (r : Runtime)
    → q.name ≡ n
    → a ≢ r.next
    → is_pos (r.heap a).in_flight ≡ false
    → ((race n a rest q r).plugins n ≡ none) × (0 < count n (race n a rest q r).order)
unfolding register wake
race-dangling n a rest q r same old idle =
    ground (arith, text_eq_refl n, ==_iff r.next a, count-append n n r.order)

-- If two calls of `Unregister` wait for one entry and nothing of it is in flight, then the first to
-- wake frees the name, a `Register` may take it again, and the second to wake deletes the new
-- plugin from the map and not from the order: then `List` panics.
pub race-panics :
    (n : Text) (a : ℕ) (rest : List (Text × ℕ)) (q : Plugin) (r : Runtime)
    → q.name ≡ n
    → a ≢ r.next
    → is_pos (r.heap a).in_flight ≡ false
    → list (race n a rest q r) ≡ none
unfolding list
race-panics n a rest q r same old idle =
    let (gone, listed) = race-dangling n a rest q r same old idle in
    list_from_dangling n (race n a rest q r).order (race n a rest q r) listed gone
