-- ===== src/PluginRuntime/Draining.antt =====
-- `Unregister` of internal/pluginrt/runtime.go: its two sections under the mutex keep the registry
-- valid when it is the only one for its name.
use api_x.Base.{ℕ, Text, ◌≡◌, true, false, none, some, arith, ==_iff, Option-cases, inl, inr, ◌⊎◌}
use api_x.Base.Strings.{text_eq_iff}
use api_x.PluginRuntime.{Runtime, unregister, wake}
use api_x.PluginRuntime.Invariant.{
  waits_at, without_waiter, System, IsGood, IsValid, count-remove_first, waiters-without,
  waiters_of_waits, waits_of_without, waits_of_without_ne,
}

-- No call of `Unregister` is draining the name.
abbrev pub NotDraining : Text → Runtime → Type 0
NotDraining name r = (a : ℕ) → r.plugins name ≡ some a → (r.heap a).draining ≡ false

module _ (s : System) (v : IsValid s) where
  abbrev Found : Text → Type 0
  Found n = (s.rt.plugins n ≡ none) ⊎ ((a : ℕ) × (s.rt.plugins n ≡ some a))

  at_unregister :
      (name n : Text)
      → NotDraining name s.rt
      → Found name
      → Found n
      → IsGood ((unregister name s.rt).0.plugins n) n (record s { rt = (unregister name s.rt).0 })
  unfolding unregister
  at_unregister name n live (inl e) there = ground (arith, v.at_name n)
  at_unregister name n live (inr (a, e)) (inl f) =
      ground (arith, v.at_name n, text_eq_iff name n, count-remove_first n name s.rt.order)
  at_unregister name n live (inr (a, e)) (inr (b, f)) = ground (
    arith,
    v.at_name n,
    v.at_name name,
    v.distinct n name a,
    live a,
    text_eq_iff name n,
    ==_iff a b,
    count-remove_first n name s.rt.order,
  )

  waits_unregister :
      (name n : Text) (b : ℕ)
      → NotDraining name s.rt
      → Found name
      → waits_at n b (unregister name s.rt).0.waiting ≡ true
      → (unregister name s.rt).0.plugins n ≡ some b
  unfolding unregister
  waits_unregister name n b live (inl e) h = ground (arith, v.waits n b)
  waits_unregister name n b live (inr (a, e)) h = ground (
    arith,
    v.waits n b,
    v.at_name name,
    live a,
    text_eq_iff name n,
    ==_iff a b,
    waiters_of_waits n b s.rt.waiting,
  )

  -- The first section of `Unregister` keeps the registry valid.
  pub unregister-IsValid :
      (name : Text) → NotDraining name s.rt → IsValid (record s { rt = (unregister name s.rt).0 })
  unfolding unregister
  unregister-IsValid name live = record {
    at_name = λ n.
        at_unregister name n live (Option-cases (s.rt.plugins name))
          (Option-cases (s.rt.plugins n));
    distinct = λ n m a. ground (arith, v.distinct n m a);
    waits = λ n a. waits_unregister name n a live (Option-cases (s.rt.plugins name));
  }

  at_wake :
      (name n : Text) (a : ℕ)
      → waits_at name a s.rt.waiting ≡ true
      → Found n
      → IsGood
          ((wake name a (without_waiter name s.rt.waiting) s.rt).plugins n)
          n
          (record s { rt = wake name a (without_waiter name s.rt.waiting) s.rt })
  unfolding wake
  at_wake name n a h (inl f) =
      ground (
        arith,
        v.waits name a,
        v.at_name n,
        text_eq_iff name n,
        waiters-without n name s.rt.waiting,
      )
  at_wake name n a h (inr (b, f)) = ground (
    arith,
    v.waits name a,
    v.at_name n,
    v.at_name name,
    v.distinct n name a,
    text_eq_iff name n,
    ==_iff a b,
    waiters-without n name s.rt.waiting,
    waiters_of_waits name a s.rt.waiting,
  )

  -- A woken `Unregister` keeps the registry valid.
  pub wake-IsValid :
      (name : Text) (a : ℕ)
      → waits_at name a s.rt.waiting ≡ true
      → IsValid (record s { rt = wake name a (without_waiter name s.rt.waiting) s.rt })
  unfolding wake
  wake-IsValid name a h = record {
    at_name = λ n. at_wake name n a h (Option-cases (s.rt.plugins n));
    distinct = λ n m b. ground (arith, v.distinct n m b);
    waits = λ n b. ground (
      arith,
      v.waits n b,
      v.waits name a h,
      v.at_name name,
      waits_of_without n name b s.rt.waiting,
      waits_of_without_ne n name b s.rt.waiting,
      waiters_of_waits name a s.rt.waiting,
      text_eq_iff name n,
    );
  }
