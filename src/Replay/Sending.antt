-- ===== src/Replay/Sending.antt =====
-- internal/replay: sources.go, engine.go and scenario.go, sending stored or given requests again. The
-- database, `http.NewRequest` and the client are an interface over a state.
use api_x.Base.{
  ℕ, Text, is_blank, Bool, true, false, Option, none, some, List, [], ◌∷◌, ◌+◌, ◌⊎◌, inl, inr,
  if◌then◌else◌,
}
use api_x.Base.Int.{ℤ, pos, ltb_ℤ}
use api_x.Base.Maps.{Assoc}
use api_x.Header.{Header, set_valid_headers}

pub record StoredRequest : Type 0 where
  pub method : Text
  pub url : Text
  pub headers : Assoc Text
  pub body : Text

-- A request that is built, and one that the caller gives; a body that cannot be read is `none`.
pub record BuiltRequest : Type 0 where
  pub method : Text
  pub url : Text
  pub header : Header
  pub body : Text

pub record RawRequest : Type 0 where
  pub method : Text
  pub url : Text
  pub header : Header
  pub body : Option Text

pub record ReplayRequest : Type 0 where
  pub request_id : Text
  pub raw_request : Option RawRequest
  pub override_headers : Assoc Text
  pub override_body : Text
  pub override_method : Text
  pub follow_redirects : Bool

pub data ReplayError : Type 0 where
  not_loaded not_found not_built body_not_read no_source not_sent : ReplayError

-- `GetTransaction` fails (the outer `none`), or has no such record; `new_request` tells whether a method
-- and a URL make a request; `send` is the client's `Do`, following redirects or not.
pub record Outside (S : Type 0) : Type 0 where
  pub get_transaction : Text → S → Option (Option StoredRequest)
  pub new_request : Text → Text → Bool
  pub send : BuiltRequest → Bool → S → S × Option ℕ

module _ {S : Type 0} (out : Outside S) where
  abbrev overridden : Text → Text → Text
  overridden override body = if is_blank override then body else override

  abbrev built : Bool → BuiltRequest → ReplayError ⊎ BuiltRequest
  built true b = inr b
  built false b = inl not_built

  -- `(*storedRequestBuilder).Build`
  unfoldable pub build_stored :
      ReplayRequest → Option (Option StoredRequest) → ReplayError ⊎ BuiltRequest
  unfolding set_valid_headers
  build_stored req none = inl not_loaded
  build_stored req (some none) = inl not_found
  build_stored req (some (some r)) = built (out.new_request r.method r.url) (record {
    method = r.method;
    url = r.url;
    header = set_valid_headers [] r.headers;
    body = overridden req.override_body r.body;
  })

  abbrev build_with : RawRequest → Option Text → ReplayError ⊎ BuiltRequest
  build_with raw none = inl body_not_read
  build_with raw (some body) =
      built (out.new_request raw.method raw.url)
        (record { method = raw.method; url = raw.url; header = raw.header; body = body })

  -- `(*rawRequestBuilder).Build`
  unfoldable pub build_raw : ReplayRequest → RawRequest → ReplayError ⊎ BuiltRequest
  build_raw req raw =
      build_with raw (if is_blank req.override_body then raw.body else some req.override_body)

  abbrev build_given : ReplayRequest → Option RawRequest → ReplayError ⊎ BuiltRequest
  build_given req none = inl no_source
  build_given req (some raw) = build_raw req raw

  -- The loop over the builders: the first that can handle the request.
  unfoldable pub build : ReplayRequest → S → ReplayError ⊎ BuiltRequest
  unfolding build_stored build_raw
  build req s =
      if is_blank req.request_id
      then build_given req req.raw_request
      else build_stored req (out.get_transaction req.request_id s)

  -- What is sent, with the overrides of headers and method.
  unfoldable pub apply_overrides : ReplayRequest → BuiltRequest → BuiltRequest
  unfolding set_valid_headers
  apply_overrides req b = record b {
    header = set_valid_headers b.header req.override_headers;
    method = if is_blank req.override_method then b.method else req.override_method;
  }

  abbrev status_of : Option ℕ → ReplayError ⊎ ℕ
  status_of none = inl not_sent
  status_of (some code) = inr code

  abbrev send_built : ReplayRequest → S → ReplayError ⊎ BuiltRequest → S × (ReplayError ⊎ ℕ)
  send_built req s (inl e) = (s, inl e)
  send_built req s (inr b) =
      let (s', reply) = out.send (apply_overrides req b) req.follow_redirects s in
      (s', status_of reply)

  -- `ReplayRequest`: the status of the response, or an error
  unfoldable pub replay_request : ReplayRequest → S → S × (ReplayError ⊎ ℕ)
  unfolding build apply_overrides
  replay_request req s = send_built req s (build req s)

pub record ScenarioStep : Type 0 where
  pub request_id : Text
  pub delay_before : ℤ
  pub override_headers : Assoc Text

-- The durations are left out.
pub record ScenarioResult : Type 0 where
  pub step_index : ℕ
  pub request_id : Text
  pub outcome : Option (ReplayError ⊎ ℕ)  -- none where the context ended during the delay

abbrev pub step_request : ScenarioStep → ReplayRequest
step_request step = record {
  request_id = step.request_id;
  raw_request = none;
  override_headers = step.override_headers;
  override_body = [];
  override_method = [];
  follow_redirects = false;
}

-- The delay before a step: the state after it, and whether the context ended.
unfoldable pub delayed : {S : Type 0} → (ℤ → S → S × Bool) → ℤ → S → S × Bool
delayed wait d s = if ltb_ℤ (pos 0) d then wait d s else (s, false)

-- The loop of `RunScenario`, from a step on; `wait` tells whether the context ends during a delay.
unfoldable pub run_steps :
    {S : Type 0} → Outside S → (ℤ → S → S × Bool) → ℕ → List ScenarioStep → S → List ScenarioResult
unfolding replay_request delayed
run_steps out wait i [] s = []
run_steps out wait i (step ∷ steps) s =
    let (waited, cancelled) = delayed wait step.delay_before s in
    let (s', outcome) = replay_request out (step_request step) waited in
    let later = run_steps out wait (i + 1) steps s' in
    if cancelled
    then record { step_index = i; request_id = step.request_id; outcome = none } ∷ []
    else record { step_index = i; request_id = step.request_id; outcome = some outcome } ∷ later

-- `RunScenario`
unfoldable pub run_scenario :
    {S : Type 0} → Outside S → (ℤ → S → S × Bool) → List ScenarioStep → S → List ScenarioResult
unfolding run_steps
run_scenario out wait steps s = run_steps out wait 0 steps s
