-- ===== src/PluginRuntime/Chain.antt =====
-- `RunRequest` and `RunResponse` of internal/pluginrt/runtime.go: the hooks of every plugin in
-- order. The two differ only in the hook, which is a parameter here.
use mathlib.Core.Path.{fun_ext}
use api_x.Base.{
  ℕ, zero, suc, Text, ◌≡◌, refl, false, Option, none, some, List, [], ◌∷◌, ◌++◌, arith, ==_iff,
  if_false, Option-cases, inl, inr, ◌⊎◌, ◌∙◌, ap,
}
use api_x.Base.Int.{ℤ, pos, negsuc}
use mathlib.Core.Option
use api_x.Plugin.{ProxyRequest, ProxyResponse}
use api_x.PluginRuntime.{
  Outcome, returns, fails, panics, Plugin, Entry, Runtime, store, succ_ℤ, pred_ℤ, use_entry,
  done_at, begin_plugin_use, done,
}

pub data HookError : Type 0 where
  failed panicked : Text → HookError

pub data Result (A : Type 0) : Type 0 where
  ok : A → Result A
  err : Text → HookError → Result A  -- the name of the plugin that the chain stopped at

Result-cases :
    {A : Type 0} (o : Result A)
    → ((a : A) × (o ≡ ok a)) ⊎ ((name : Text) × (e : HookError) × (o ≡ err name e))
Result-cases (ok a) = inl (a, refl)
Result-cases (err name e) = inr (name, e, refl)

abbrev pub or_same {ℓ} : {A : Type ℓ} → Option A → A → A
or_same none a = a
or_same (some b) a = b

-- What becomes of the value after one hook: a hook that is not implemented is skipped, `nil` leaves
-- the value as it is, and `safeOnRequest` and `safeOnResponse` turn a panic into an error.
abbrev after_hook : {A : Type 0} → Text → Option (A → Outcome A) → A → Result A
after_hook name none a = ok a
after_hook name (some h) a = elim (h a) [
  | returns m ↦ ok (or_same m a)
  | fails e ↦ err name (failed e)
  | panics e ↦ err name (panicked e)
]

module _ {A : Type 0} (hook_of : Plugin → Option (A → Outcome A)) where
  -- The loop over the snapshot of the order.
  unfoldable pub run_chain : List Text → A → Runtime → Result A × Runtime
  unfolding begin_plugin_use done
  run_chain [] a r = (ok a, r)
  run_chain (name ∷ names) a r = elim (begin_plugin_use name r).1 [
    | none ↦ run_chain names a r
    | some p ↦
        let r' = done name (begin_plugin_use name r).0 in
        elim (after_hook name (hook_of p) a) [
          | ok b ↦ run_chain names b r'
          | err n e ↦ (err n e, r')
        ]
  ]

  -- The specification: the hooks of a list of plugins, one after another, up to the first error.
  unfoldable pub run_hooks : List (Text × Plugin) → A → Result A
  run_hooks [] a = ok a
  run_hooks ((name, p) ∷ ps) a = elim (after_hook name (hook_of p) a) [
    | ok b ↦ run_hooks ps b
    | err n e ↦ err n e
  ]

unfoldable pub run_request : ProxyRequest → Runtime → Result ProxyRequest × Runtime
unfolding run_chain
run_request req r = run_chain (λ p. p.request_hook) r.order req r

unfoldable pub run_response :
    ProxyRequest → ProxyResponse → Runtime → Result ProxyResponse × Runtime
unfolding run_chain
run_response req resp r = run_chain (λ p. Option.map (λ h. h req) p.response_hook) r.order resp r

-- The plugins of a list of names that take requests: registered, and not draining.
unfoldable pub routed : List Text → Runtime → List (Text × Plugin)
unfolding begin_plugin_use
routed [] r = []
routed (name ∷ names) r =
    let rest = routed names r in
    elim (begin_plugin_use name r).1 [ none ↦ rest | some p ↦ (name, p) ∷ rest ]

pred_ℤ-succ_ℤ : (n : ℤ) → pred_ℤ (succ_ℤ n) ≡ n
pred_ℤ-succ_ℤ (pos n) = refl
pred_ℤ-succ_ℤ (negsuc zero) = refl
pred_ℤ-succ_ℤ (negsuc (suc n)) = refl

store-store_back :
    (h : ℕ → Entry) (a : ℕ) (x : Entry)
    → store
        (store h a x)
        a
        (record (store h a x a) { in_flight = pred_ℤ (store h a x a).in_flight })
      ≡ store h a (record x { in_flight = pred_ℤ x.in_flight })
store-store_back h a x = fun_ext λ b. ground (arith, ==_iff a b, ==_iff a a)

store_same : (h : ℕ → Entry) (a : ℕ) (e : Entry) → e ≡ h a → store h a e ≡ h
store_same h a e same = fun_ext λ b. ground (arith, ==_iff a b)

done_at-use_entry : (a : ℕ) (r : Runtime) → done_at (some a) (use_entry a r) ≡ r
unfolding done_at use_entry
done_at-use_entry a r =
    let e = record (r.heap a) { in_flight = succ_ℤ (r.heap a).in_flight } in
    let back = store-store_back r.heap a e ∙ store_same r.heap a _ (rw pred_ℤ-succ_ℤ) in
    ap (λ h. record r { heap = h }) back

begin-live :
    (name : Text) (a : ℕ) (r : Runtime)
    → r.plugins name ≡ some a
    → (r.heap a).draining ≡ false
    → begin_plugin_use name r ≡ (use_entry a r, some (r.heap a).plugin)
unfolding begin_plugin_use
begin-live name a r e live = rw e (if_false _ _ live)

done-use_entry :
    (name : Text) (a : ℕ) (r : Runtime) → r.plugins name ≡ some a → done name (use_entry a r) ≡ r
unfolding done use_entry
done-use_entry name a r e = rw e (done_at-use_entry a r)

live_of_begin :
    (name : Text) (r : Runtime) {p : Plugin}
    → (begin_plugin_use name r).1 ≡ some p
    → (a : ℕ) × (r.plugins name ≡ some a) × ((r.heap a).draining ≡ false)
unfolding begin_plugin_use
live_of_begin name r used = ground arith

-- Taking a plugin into use and giving it back leaves the runtime as it was.
done-begin :
    (name : Text) (r : Runtime) {p : Plugin}
    → (begin_plugin_use name r).1 ≡ some p
    → done name (begin_plugin_use name r).0 ≡ r
done-begin name r used =
    let (a, e, live) = live_of_begin name r used in
    rw (begin-live name a r e live) (done-use_entry name a r e)

routed-used :
    (name : Text) (ms : List Text) (r : Runtime) {p : Plugin}
    → (begin_plugin_use name r).1 ≡ some p
    → routed (name ∷ ms) r ≡ (name, p) ∷ routed ms r
unfolding routed
routed-used name ms r used = rw (used, routed)

routed-append : (ns ms : List Text) (r : Runtime) → routed (ns ++ ms) r ≡ routed ns r ++ routed ms r
unfolding routed
routed-append [] ms r = refl
routed-append (n ∷ ns) ms r = ground (arith, routed-append ns ms r)

module _ {A : Type 0} (hook_of : Plugin → Option (A → Outcome A)) where
  -- The chain is the hooks of the plugins that take requests, up to the first error, and it leaves
  -- the runtime as it was: every use is given back, after an error or a panic too.
  pub run_chain-eq-hooks :
      (names : List Text) (a : A) (r : Runtime)
      → run_chain hook_of names a r ≡ (run_hooks hook_of (routed names r) a, r)
  unfolding run_chain run_hooks routed
  run_chain-eq-hooks [] a r = refl
  run_chain-eq-hooks (name ∷ names) a r = elim (Option-cases (begin_plugin_use name r).1) [
    | inl e ↦ rw (e, run_chain, routed) (run_chain-eq-hooks names a r)
    | inr (p, e) ↦ elim (Result-cases (after_hook name (hook_of p) a)) [
      | inl (b, ok_b) ↦
          rw (e, run_chain, routed, ok_b, run_hooks)
            (rw (done-begin name r e) (run_chain-eq-hooks names b r))
      | inr (n, x, err_x) ↦ rw (e, run_chain, routed, err_x, run_hooks) (rw (done-begin name r e))
    ]
  ]

  run_hooks-append :
      (ps qs : List (Text × Plugin)) (a b : A)
      → run_hooks hook_of ps a ≡ ok b
      → run_hooks hook_of (ps ++ qs) a ≡ run_hooks hook_of qs b
  unfolding run_hooks
  run_hooks-append [] qs a b h = ground arith
  run_hooks-append ((name, p) ∷ ps) qs a b h = elim (Result-cases (after_hook name (hook_of p) a)) [
    | inl (c, e) ↦ rw (e, run_hooks) (run_hooks-append ps qs c b (rw (e, run_hooks) at h))
    | inr (n, x, e) ↦ cc (rw (e, run_hooks) at h)
  ]

  -- The first plugin whose hook fails or panics ends the chain with that error, whatever plugins
  -- stand behind it.
  pub first_error_stops :
      (ns : List Text) (name : Text) (ms : List Text) (a b : A) (r : Runtime) (p : Plugin)
      (n : Text) (e : HookError)
      → (run_chain hook_of ns a r).0 ≡ ok b
      → (begin_plugin_use name r).1 ≡ some p
      → after_hook name (hook_of p) b ≡ err n e
      → run_chain hook_of (ns ++ name ∷ ms) a r ≡ (err n e, r)
  unfolding run_hooks
  first_error_stops ns name ms a b r p n e before used failing =
      let before' : run_hooks hook_of (routed ns r) a ≡ ok b = rw run_chain-eq-hooks at before in
      let rest : routed (name ∷ ms) r ≡ (name, p) ∷ routed ms r = routed-used name ms r used in
      rw (
        run_chain-eq-hooks,
        routed-append,
        rest,
        run_hooks-append (routed ns r) _ a b before',
        run_hooks,
        failing,
      )
