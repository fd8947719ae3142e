-- ===== src/Replay/Running.antt =====
-- What internal/replay/engine.go and scenario.go send, and in which order.
use api_x.Base.{
  ℕ, Text, is_blank, Bool, true, false, Option, none, some, List, [], ◌∷◌, ◌+◌, ◌≡◌, refl, ◌⊎◌, inl,
  inr, arith, map, ap, Bool-cases,
}
use api_x.Base.Int.{ℤ, pos, ltb_ℤ}
use api_x.Base.Maps.{Assoc, lookup}
use api_x.Header.{Header, is_valid_header_value, set_valid_headers}
use api_x.Header.Laws.{set_valid_headers-CameFrom}
use api_x.Replay.Sending.{
  StoredRequest, BuiltRequest, ReplayRequest, Outside, build, build_stored, apply_overrides,
  ScenarioStep, ScenarioResult, run_steps, run_scenario, delayed,
}

-- The numbers from one on beside the elements of a list.
abbrev pub numbered : ℕ → List ScenarioStep → List (ℕ × Text)
numbered i [] = []
numbered i (step ∷ steps) = (i, step.request_id) ∷ numbered (i + 1) steps

abbrev pub index_and_id : ScenarioResult → ℕ × Text
index_and_id r = (r.step_index, r.request_id)

module _ {S : Type 0} (out : Outside S) where
  not_cancelled :
      (wait : ℤ → S → S × Bool) (d : ℤ) (s : S)
      → ((c : ℤ) (t : S) → (wait c t).1 ≡ false)
      → (delayed wait d s).1 ≡ false
  unfolding delayed
  not_cancelled wait d s live = elim (Bool-cases (ltb_ℤ (pos 0) d)) [
    | inl e ↦ rw (e) (live d s)
    | inr e ↦ rw (e)
  ]

  steps_in_order :
      (wait : ℤ → S → S × Bool) (i : ℕ) (steps : List ScenarioStep) (s : S)
      → ((d : ℤ) (t : S) → (wait d t).1 ≡ false)
      → map index_and_id (run_steps out wait i steps s) ≡ numbered i steps
  unfolding run_steps
  steps_in_order wait i [] s live = refl
  steps_in_order wait i (step ∷ steps) s live =
      rw (not_cancelled wait step.delay_before s live)
        (ap (◌∷◌ (i, step.request_id)) (steps_in_order wait (i + 1) steps _ live))

  -- While the context does not end, a scenario has one result for each of its steps, in their order and
  -- under their numbers, whatever fails at the steps.
  pub runs_every_step :
      (wait : ℤ → S → S × Bool) (steps : List ScenarioStep) (s : S)
      → ((d : ℤ) (t : S) → (wait d t).1 ≡ false)
      → map index_and_id (run_scenario out wait steps s) ≡ numbered 0 steps
  unfolding run_scenario
  runs_every_step wait steps s live = steps_in_order wait 0 steps s live

  from_record :
      (req : ReplayRequest) (found : Option (Option StoredRequest)) (b : BuiltRequest)
      → build_stored out req found ≡ inr b
      → (r : StoredRequest) × (b.header ≡ set_valid_headers [] r.headers)
  unfolding build_stored
  from_record req none b h = absurd (ground arith)
  from_record req (some none) b h = absurd (ground arith)
  from_record req (some (some r)) b h = (r, ground arith)

  came_valid :
      (dst : Header) (src : Assoc Text) (k : Text) (vs : List Text)
      → lookup k (set_valid_headers dst src) ≡ some vs
      → (lookup k dst ≡ some vs) ⊎ ((v : Text) × (vs ≡ v ∷ []) × (is_valid_header_value v ≡ true))
  came_valid dst src k vs h = set_valid_headers-CameFrom src dst k vs h

  -- Every header that is replayed for a stored request has one value, which is a valid header value, from
  -- the record or from the overrides.
  pub replayed_values_valid :
      (req : ReplayRequest) (s : S) (b : BuiltRequest) (k : Text) (vs : List Text)
      → is_blank req.request_id ≡ false
      → build out req s ≡ inr b
      → lookup k (apply_overrides out req b).header ≡ some vs
      → (v : Text) × (vs ≡ v ∷ []) × (is_valid_header_value v ≡ true)
  unfolding build apply_overrides lookup
  replayed_values_valid req s b k vs stored e h =
      let (r, same) = from_record req (out.get_transaction req.request_id s) b (rw (stored) at e) in
      elim (came_valid b.header req.override_headers k vs h) [
        | inr there ↦ there
        | inl before ↦ elim (came_valid [] r.headers k vs (rw (same) at before)) [
          | inr there ↦ there
          | inl none_there ↦ absurd (ground arith)
        ]
      ]
