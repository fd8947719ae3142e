-- ===== src/Learn/Observing/Endpoints.antt =====
-- What openapi.go proposes for one endpoint comes from the observations of that endpoint alone.
use api_x.Base.{
  ℕ, ◌+◌, Text, is_blank, Option, none, some, List, [], ◌∷◌, ◌++◌, All, length, if◌then◌else◌, ◌≡◌,
  refl, sym, ap, ◌∙◌, arith, Bool-cases, inl, inr,
}
use api_x.Base.Strings.{text_eq, text_eq_iff}
use api_x.Base.Maps.{Assoc, lookup, insert, lookup-insert}
use mathlib.Core.List.{append-nil, append_assoc}
use api_x.Learn.Values.{Value, null, HasNoNull}
use api_x.Learn.Schema.{Schema, non_nil, infer_schema_from_samples}
use api_x.Learn.Schema.Conforming.{Conforms}
use api_x.Learn.Schema.Inferred.{All-Conforms_eq, samples-Conform}
use api_x.Learn.Observing.{
  Observation, EndpointAggregate, LearnLib, list_of_option, parse_json_body, method_of, key_of,
  add_observation, aggregate, schema_if_any, build_operation,
}

module _ (lib : LearnLib) where
  -- The observations of one endpoint: those of its key, with a method.
  abbrev pub seen_at : Text → List Observation → List Observation
  seen_at key [] = []
  seen_at key (obs ∷ rest) =
      let later = seen_at key rest in
      if is_blank (method_of lib obs)
      then later
      else if text_eq (key_of lib obs) key
      then obs ∷ later
      else later

  -- The aggregate of an endpoint on its own.
  unfoldable pub follow : List Observation → Option EndpointAggregate → Option EndpointAggregate
  follow [] o = o
  follow (obs ∷ rest) o = follow rest (some (add_observation lib obs o))

  -- In the map, the aggregate of a key is the one of its own observations.
  pub aggregate-refines-follow :
      (key : Text) (observations : List Observation) (m : Assoc EndpointAggregate)
      → lookup key (aggregate lib observations m) ≡ follow (seen_at key observations) (lookup key m)
  unfolding aggregate follow
  aggregate-refines-follow key [] m = refl
  aggregate-refines-follow key (obs ∷ rest) m = elim (Bool-cases (is_blank (method_of lib obs))) [
    | inl no_method ↦ rw no_method (aggregate-refines-follow key rest m)
    | inr has_method ↦
        let k = key_of lib obs in
        let made = add_observation lib obs (lookup k m) in
        rw
          (
            has_method,
            aggregate-refines-follow key rest (insert k made m),
            lookup-insert k key made m,
          )
          (elim (Bool-cases (text_eq k key)) [
            | inl same ↦ rw (same, (text_eq_iff k key).0 same) refl
            | inr other ↦ rw other refl
          ])
  ]

  -- The JSON bodies of the requests, in order.
  abbrev pub bodies : List Observation → List Value
  bodies [] = []
  bodies (obs ∷ rest) = list_of_option (parse_json_body lib obs.request_body) ++ bodies rest

  abbrev samples_in : Option EndpointAggregate → List Value
  samples_in none = []
  samples_in (some agg) = agg.request_body_samples

  abbrev count_in : Option EndpointAggregate → ℕ
  count_in none = 0
  count_in (some agg) = agg.observed_count

  samples-add_observation :
      (obs : Observation) (o : Option EndpointAggregate)
      → (add_observation lib obs o).request_body_samples
        ≡ samples_in o ++ list_of_option (parse_json_body lib obs.request_body)
  unfolding add_observation
  samples-add_observation obs none = refl
  samples-add_observation obs (some agg) = refl

  count-add_observation :
      (obs : Observation) (o : Option EndpointAggregate)
      → (add_observation lib obs o).observed_count ≡ count_in o + 1
  unfolding add_observation
  count-add_observation obs none = refl
  count-add_observation obs (some agg) = refl

  samples-follow :
      (observations : List Observation) (o : Option EndpointAggregate)
      → samples_in (follow observations o) ≡ samples_in o ++ bodies observations
  unfolding follow
  samples-follow [] o = sym (append-nil (samples_in o))
  samples-follow (obs ∷ rest) o =
      rw (samples-follow rest (some (add_observation lib obs o)), samples-add_observation obs o)
        (append_assoc (samples_in o) (list_of_option (parse_json_body lib obs.request_body))
          (bodies rest))

  count-follow :
      (observations : List Observation) (o : Option EndpointAggregate)
      → count_in (follow observations o) ≡ count_in o + length observations
  unfolding follow
  count-follow [] o = omega arith
  count-follow (obs ∷ rest) o =
      rw (count-follow rest (some (add_observation lib obs o)), count-add_observation obs o)
        (omega arith)

  plain_non_nil : (vs : List Value) → All HasNoNull vs → non_nil vs ≡ vs
  unfolding non_nil HasNoNull
  plain_non_nil [] h = refl
  plain_non_nil (null ∷ vs) h = absurd (h.0)
  plain_non_nil (v ∷ vs) h = ap (◌∷◌ v) (plain_non_nil vs h.1)

  schema_kept :
      (vs : List Value) → All HasNoNull vs → All (Conforms (infer_schema_from_samples vs)) vs
  schema_kept vs h = let clean = plain_non_nil vs h in rw clean at (samples-Conform vs (rw clean h))

  fits :
      (vs : List Value) (s : Schema)
      → schema_if_any vs ≡ some s
      → All HasNoNull vs
      → All (Conforms s) vs
  fits [] s e h = tt
  fits (v ∷ vs) s e h =
      let same : infer_schema_from_samples (v ∷ vs) ≡ s = cc in
      All-Conforms_eq s (infer_schema_from_samples (v ∷ vs)) (v ∷ vs) (sym same)
        (schema_kept (v ∷ vs) h)

  -- The operation that is proposed for an endpoint counts its observations, and if none of their JSON
  -- bodies has a null, all of these keep to the schema of its request body.
  pub proposal-Conforms :
      (observations : List Observation) (key : Text) (agg : EndpointAggregate)
      → lookup key (aggregate lib observations []) ≡ some agg
      → All HasNoNull (bodies (seen_at key observations))
      → ((build_operation lib agg).observed ≡ length (seen_at key observations))
        × ((s : Schema)
            → (build_operation lib agg).request_body ≡ some s
            → All (Conforms s) (bodies (seen_at key observations)))
  unfolding build_operation lookup
  proposal-Conforms observations key agg found plain =
      let all = sym (aggregate-refines-follow key observations []) ∙ found in
      let mine = seen_at key observations in
      let counted = count-follow mine none in
      let sampled = samples-follow mine none in
      let body : agg.request_body_samples ≡ bodies mine = ap samples_in (sym all) ∙ sampled in
      let number : agg.observed_count ≡ count_in none + length mine =
        ap count_in (sym all) ∙ counted in
      (omega (arith, number), λ s e. fits (bodies mine) s (ap schema_if_any (sym body) ∙ e) plain)
