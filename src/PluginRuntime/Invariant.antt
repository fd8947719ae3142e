-- ===== src/PluginRuntime/Invariant.antt =====
-- The registry of internal/pluginrt/runtime.go under any interleaving of its calls, provided that
-- no second `Unregister` of a name starts while one is draining it.
use api_x.Base.{
  ℕ, suc, ◌-◌, ◌<◌, Text, ◌≡◌, ◌≢◌, refl, Bool, true, false, ◌&&◌, Option, none, some, List, [],
  ◌∷◌, ◌++◌, arith, ◌==◌, ==_iff, if◌then◌else◌, Option-cases, inl, inr, ◌⊎◌,
}
use api_x.Base.Int.{pos}
use api_x.Base.Strings.{text_eq, text_eq_iff}
use api_x.PluginRuntime.{
  Plugin, Runtime, new_runtime, register, remove_first, begin_plugin_use, done,
}

-- How often a name stands in a list.
abbrev pub count : Text → List Text → ℕ
count k [] = 0
count k (j ∷ js) = if text_eq j k then suc (count k js) else count k js

-- How many calls of `Unregister` wait for a name.
abbrev pub waiters : Text → List (Text × ℕ) → ℕ
waiters k [] = 0
waiters k ((j, a) ∷ ws) = if text_eq j k then suc (waiters k ws) else waiters k ws

-- A call of `Unregister` waits for the name with this entry.
abbrev pub waits_at : Text → ℕ → List (Text × ℕ) → Bool
waits_at k a [] = false
waits_at k a ((j, b) ∷ ws) = if text_eq j k && (b == a) then true else waits_at k a ws

-- The waiting calls without the one for a name.
abbrev pub without_waiter : Text → List (Text × ℕ) → List (Text × ℕ)
without_waiter k [] = []
without_waiter k ((j, a) ∷ ws) = if text_eq j k then ws else (j, a) ∷ without_waiter k ws

-- The runtime, and the names of the plugins that are in use: one for each `done` still to be called.
pub record System : Type 0 where
  pub rt : Runtime
  pub users : List Text

-- What the registry holds of one name, by what the map has for it.
abbrev pub IsGood : Option ℕ → Text → System → Type 0
IsGood none n s = (count n s.rt.order ≡ 0) × (count n s.users ≡ 0) × (waiters n s.rt.waiting ≡ 0)
IsGood (some a) n s =
    (a < s.rt.next)
    × ((s.rt.heap a).in_flight ≡ pos (count n s.users))
    × (count n s.rt.order ≡ (if (s.rt.heap a).draining then 0 else 1))
    × (waiters n s.rt.waiting ≡ (if (s.rt.heap a).draining then 1 else 0))

pub record IsValid (s : System) : Type 0 where
  pub at_name : (n : Text) → IsGood (s.rt.plugins n) n s
  pub distinct : (n m : Text) (a : ℕ) → s.rt.plugins n ≡ some a → s.rt.plugins m ≡ some a → n ≡ m
  pub waits : (n : Text) (a : ℕ) → waits_at n a s.rt.waiting ≡ true → s.rt.plugins n ≡ some a

pub count-append :
    (k j : Text) (js : List Text)
    → count k (js ++ j ∷ []) ≡ (if text_eq j k then suc (count k js) else count k js)
count-append k j [] = refl
count-append k j (i ∷ js) = ground (arith, count-append k j js)

pub count-remove_first :
    (k j : Text) (js : List Text)
    → count k (remove_first j js) ≡ (if text_eq j k then count k js - 1 else count k js)
unfolding remove_first
count-remove_first k j [] = ground arith
count-remove_first k j (i ∷ js) =
    ground (arith, count-remove_first k j js, text_eq_iff i j, text_eq_iff i k, text_eq_iff j k)

pub waiters-without :
    (k j : Text) (ws : List (Text × ℕ))
    → waiters k (without_waiter j ws) ≡ (if text_eq j k then waiters k ws - 1 else waiters k ws)
waiters-without k j [] = ground arith
waiters-without k j ((i, a) ∷ ws) =
    ground (arith, waiters-without k j ws, text_eq_iff i j, text_eq_iff i k, text_eq_iff j k)

-- A waiting call is counted.
pub waiters_of_waits :
    (k : Text) (a : ℕ) (ws : List (Text × ℕ)) → waits_at k a ws ≡ true → 0 < waiters k ws
waiters_of_waits k a [] h = cc
waiters_of_waits k a ((j, b) ∷ ws) h = ground (arith, waiters_of_waits k a ws)

pub waits_of_without :
    (k j : Text) (a : ℕ) (ws : List (Text × ℕ))
    → waits_at k a (without_waiter j ws) ≡ true
    → waits_at k a ws ≡ true
waits_of_without k j a [] h = h
waits_of_without k j a ((i, b) ∷ ws) h = ground (arith, waits_of_without k j a ws)

-- The name whose only waiter is taken out has none left.
pub waits_of_without_ne :
    (k j : Text) (a : ℕ) (ws : List (Text × ℕ))
    → waits_at k a (without_waiter j ws) ≡ true
    → waiters j ws ≡ 1
    → k ≢ j
waits_of_without_ne k j a ws h one same =
    let some_left = waiters_of_waits k a (without_waiter j ws) h in
    ground (arith, waiters-without k j ws, text_eq_iff j k)

abbrev pub empty : System
empty = record { rt = new_runtime; users = [] }

-- The empty runtime is valid.
pub empty-IsValid : IsValid empty
empty-IsValid = record {
  at_name = λ n. (refl, refl, refl);
  distinct = λ n m a p q. cc;
  waits = λ n a h. cc;
}

module _ (s : System) (v : IsValid s) where
  -- `Register` keeps the registry valid, whether or not the name is taken.
  pub register-IsValid : (p : Plugin) → IsValid (record s { rt = (register p s.rt).0 })
  unfolding register
  register-IsValid p = record {
    at_name = λ n. ground (
      arith,
      v.at_name n,
      v.at_name p.name,
      text_eq_iff p.name n,
      count-append n p.name s.rt.order,
      ==_iff s.rt.next s.rt.next,
    );
    distinct = λ n m a. ground (
      arith,
      v.at_name n,
      v.at_name m,
      v.at_name p.name,
      v.distinct n m a,
      text_eq_iff p.name n,
      text_eq_iff p.name m,
    );
    waits = λ n a. ground (arith, v.waits n a, text_eq_iff p.name n);
  }

  -- What the map has for a name, as the lemmas below split it.
  abbrev Found : Text → Type 0
  Found n = (s.rt.plugins n ≡ none) ⊎ ((a : ℕ) × (s.rt.plugins n ≡ some a))

  at_begin :
      (name n : Text) {p : Plugin}
      → (begin_plugin_use name s.rt).1 ≡ some p
      → Found name
      → Found n
      → IsGood
          ((begin_plugin_use name s.rt).0.plugins n)
          n
          (record { rt = (begin_plugin_use name s.rt).0; users = name ∷ s.users })
  unfolding begin_plugin_use
  at_begin name n used (inl e) there = cc (used)
  at_begin name n used (inr (a, e)) (inl f) = ground (arith, v.at_name n, text_eq_iff name n)
  at_begin name n used (inr (a, e)) (inr (b, f)) =
      ground
        (arith, v.at_name n, v.at_name name, v.distinct n name a, text_eq_iff name n, ==_iff a b)

  at_done :
      (name n : Text)
      → 0 < count name s.users
      → Found name
      → Found n
      → IsGood
          ((done name s.rt).plugins n)
          n
          (record { rt = done name s.rt; users = remove_first name s.users })
  unfolding done
  at_done name n busy (inl e) there = ground (arith, v.at_name name)
  at_done name n busy (inr (a, e)) (inl f) =
      ground (arith, v.at_name n, count-remove_first n name s.users, text_eq_iff name n)
  at_done name n busy (inr (a, e)) (inr (b, f)) = ground (
    arith,
    v.at_name n,
    v.at_name name,
    v.distinct n name a,
    text_eq_iff name n,
    ==_iff a b,
    count-remove_first n name s.users,
  )

  -- `beginPluginUse` keeps the registry valid and counts the new use.
  pub begin-IsValid :
      (name : Text) {p : Plugin}
      → (begin_plugin_use name s.rt).1 ≡ some p
      → IsValid (record { rt = (begin_plugin_use name s.rt).0; users = name ∷ s.users })
  unfolding begin_plugin_use
  begin-IsValid name used = record {
    at_name = λ n.
        at_begin name n used (Option-cases (s.rt.plugins name)) (Option-cases (s.rt.plugins n));
    distinct = λ n m a. ground (arith, v.distinct n m a);
    waits = λ n a. ground (arith, v.waits n a);
  }

  -- The function that `beginPluginUse` returned keeps it valid, and ends that use.
  pub done-IsValid :
      (name : Text)
      → 0 < count name s.users
      → IsValid (record { rt = done name s.rt; users = remove_first name s.users })
  unfolding done
  done-IsValid name busy = record {
    at_name =
        λ n. at_done name n busy (Option-cases (s.rt.plugins name)) (Option-cases (s.rt.plugins n));
    distinct = λ n m a. ground (arith, v.distinct n m a);
    waits = λ n a. ground (arith, v.waits n a);
  }
