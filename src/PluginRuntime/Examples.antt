-- ===== src/PluginRuntime/Examples.antt =====
-- Runs of internal/pluginrt/runtime.go at concrete inputs, and the theorems applied to them.
use api_x.Base.{Text, str, ◌≡◌, refl, Option, none, some, [], ◌∷◌, ◌++◌, arith, if◌then◌else◌}
use Prim.Native.String.{String}
use api_x.Base.Strings.{text_eq}
use api_x.PluginRuntime.{
  Outcome, returns, panics, Plugin, Runtime, new_runtime, register, unregister, wake,
  begin_plugin_use, done, list,
}
use api_x.PluginRuntime.Chain.{err, panicked, run_chain, run_hooks, routed, run_chain-eq-hooks}
use api_x.PluginRuntime.Invariant.{System, IsValid}
use api_x.PluginRuntime.Races.{
  registers, unregisters, begins, ends, Reach, start, next, Reach-IsValid, race, race-panics,
}

program : Unit {0}
unfolding register unregister wake begin_plugin_use done list run_chain run_hooks routed text_eq
program = tt

-- The hooks of these plugins take the version of the plugin as their value.
abbrev named : String → Plugin
named name = record {
  name = str name;
  version = str name;
  description = [];
  request_hook = none;
  response_hook = none;
}

abbrev hook_of : Plugin → Option (Text → Outcome Text)
hook_of p =
    some (λ t.
      if text_eq p.name (str "b") then panics (str "boom") else returns (some (t ++ p.version)))

abbrev two : Runtime
two = (register (named "b") (register (named "a") new_runtime).0).0

-- A plugin that panics ends the chain, and nothing stays in flight.
chain_panics : run_chain hook_of two.order [] two ≡ (err (str "b") (panicked (str "boom")), two)
unfolding program
chain_panics = rw run_chain-eq-hooks

run_chain-eq-hooks_example :
    run_chain hook_of (str "a" ∷ str "b" ∷ []) [] two
    ≡ (run_hooks hook_of (routed (str "a" ∷ str "b" ∷ []) two) [], two)
run_chain-eq-hooks_example = run_chain-eq-hooks hook_of (str "a" ∷ str "b" ∷ []) [] two

abbrev busy : System
busy = record { rt = (begin_plugin_use (str "a") two).0; users = str "a" ∷ [] }

busy-Reach : Reach busy
unfolding program
busy-Reach =
    next (next (next start (registers (named "a") refl)) (registers (named "b") refl))
      (begins (str "a") (named "a") refl refl)

Reach-IsValid_example : IsValid busy
Reach-IsValid_example = Reach-IsValid busy-Reach

-- `Unregister` of the plugin in use waits; its use ends before it wakes.
abbrev waiting : System
waiting = record busy { rt = (unregister (str "a") busy.rt).0 }

abbrev ended : System
ended = record { rt = done (str "a") waiting.rt; users = [] }

ended-Reach : Reach ended
unfolding program
ended-Reach =
    next (next busy-Reach (unregisters (str "a") (λ a e. ground arith) refl))
      (ends (str "a") (omega arith) refl)

-- Two overlapping calls of `Unregister` for the plugin in use, which is then given back.
abbrev overlapping : Runtime
overlapping = done (str "a") (unregister (str "a") waiting.rt).0

race-panics_example : list (race (str "a") 0 ((str "a", 0) ∷ []) (named "a") overlapping) ≡ none
unfolding program
race-panics_example =
    race-panics (str "a") 0 ((str "a", 0) ∷ []) (named "a") overlapping refl (λ e. omega arith) refl
