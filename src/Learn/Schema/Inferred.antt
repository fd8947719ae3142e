-- ===== src/Learn/Schema/Inferred.antt =====
-- Every sample keeps to the schema that openapi.go infers from all of them.
use api_x.Base.{
  ℕ, zero, suc, ◌<◌, Text, str, true, none, some, List, [], ◌∷◌, map, All, All-mono, All-both,
  append-All, ◌≡◌, refl, arith, Bool-cases, Option-cases, inl, inr,
}
use api_x.Base.Int.{ℤ}
use api_x.Base.Strings.{text_eq}
use api_x.Learn.Values.{
  Value, integer, fraction, array, object, Items, nil, item, Fields, end, field, list_of,
  lookup_field, greater, depth, depth_items, depth_fields, HasNoNull, ItemsHaveNoNull,
  FieldsHaveNoNull,
}
use api_x.Learn.Schema.{
  Schema, one_of, unique_types, scalar_of, objects_of, arrays_of, samples_of, infer_object_schema,
  all_items, or_string, infer_array_schema, infer_schema_value, max_depth, non_nil, schema_of,
  infer_schema_from_samples,
}
use api_x.Learn.Schema.Conforming.{is_of, Conforms, Typed, unique_types-Typed, scalar_of-Conforms}
use api_x.Learn.Schema.Objects.{
  AtField, samples_of-All, object-Conforms, array-Conforms, objects_of-map, arrays_of-map,
}

-- A sample that is nested less than a bound, and has no null.
abbrev Plain : ℕ → Value → Type 0
Plain bound v = (depth v < bound) × HasNoNull v

greater_lt : (a b n : ℕ) → greater a b < n → (a < n) × (b < n)
greater_lt a b n h = ground arith

field-Plain :
    (bound : ℕ) (key : Text) (fs : Fields)
    → depth_fields fs < bound
    → FieldsHaveNoNull fs
    → AtField key (Plain bound) fs
unfolding depth HasNoNull lookup_field
field-Plain bound key end d h v e = cc
field-Plain bound key (field k w fs) d h v e = elim (Bool-cases (text_eq k key)) [
  | inl here ↦
      let e' = rw here at e in
      let same : w ≡ v = cc in rw (← same) ((greater_lt (depth w) (depth_fields fs) bound d).0, h.0)
  | inr there ↦
      field-Plain bound key fs (greater_lt (depth w) (depth_fields fs) bound d).1 h.1 v
        (rw there at e)
]

items-Plain :
    (bound : ℕ) (xs : Items)
    → depth_items xs < bound
    → ItemsHaveNoNull xs
    → All (Plain bound) (list_of xs)
unfolding depth HasNoNull
items-Plain bound nil d h = tt
items-Plain bound (item v xs) d h =
    let (first, rest) = greater_lt (depth v) (depth_items xs) bound d in
    ((first, h.0), items-Plain bound xs rest h.1)

object-Plain :
    (bound : ℕ) (key : Text) (objs : List Fields)
    → All (Plain (suc bound)) (map object objs)
    → All (AtField key (Plain bound)) objs
unfolding depth HasNoNull
object-Plain bound key [] h = tt
object-Plain bound key (fs ∷ objs) h =
    (field-Plain bound key fs (omega (arith, h.0.0)) h.0.1, object-Plain bound key objs h.1)

array-Plain :
    (bound : ℕ) (arrays : List Items)
    → All (Plain (suc bound)) (map array arrays)
    → All (Plain bound) (all_items arrays)
unfolding depth HasNoNull
array-Plain bound [] h = tt
array-Plain bound (xs ∷ arrays) h =
    append-All (Plain bound) (list_of xs) (all_items arrays)
      (items-Plain bound xs (omega (arith, h.0.0)) h.0.1) (array-Plain bound arrays h.1)

All-map {ℓ κ} :
    {A : Type ℓ} {B : Type ℓ} (P : B → Type κ) (f : A → B) (xs : List A)
    → All (λ x. P (f x)) xs
    → All P (map f xs)
All-map P f [] h = tt
All-map P f (x ∷ xs) h = (h.0, All-map P f xs h.1)

module _ (fuel : ℕ)
    (ih : (ws : List Value) → All (Plain fuel) ws → All (Conforms (infer_schema_value fuel ws)) ws)
    (samples : List Value) (plain : All (Plain (suc fuel)) samples) where
  objects-Conform :
      (objs : List Fields)
      → objects_of samples ≡ some objs
      → All (Conforms (infer_object_schema (infer_schema_value fuel) objs)) samples
  objects-Conform objs found =
      let e = objects_of-map samples objs found in
      let plain' = rw e at plain in
      let kept = λ (key : Text).
        ih (samples_of key objs)
          (samples_of-All (Plain fuel) key objs (object-Plain fuel key objs plain')) in
      rw e (All-map _ object objs (object-Conforms (infer_schema_value fuel) objs kept))

  or_string-Conforms :
      (ws : List Value)
      → All (Plain fuel) ws
      → All (Conforms (or_string (infer_schema_value fuel) ws)) ws
  or_string-Conforms [] h = tt
  or_string-Conforms (w ∷ ws) h = ih (w ∷ ws) h

  arrays-Conform :
      (arrays : List Items)
      → arrays_of samples ≡ some arrays
      → All (Conforms (infer_array_schema (infer_schema_value fuel) arrays)) samples
  arrays-Conform arrays found =
      let e = arrays_of-map samples arrays found in
      let items = array-Plain fuel arrays (rw e at plain) in
      let s = or_string (infer_schema_value fuel) (all_items arrays) in
      rw e (
        All-map _ array arrays
          (array-Conforms s arrays (or_string-Conforms (all_items arrays) items)))

  scalars-Conform : All (Conforms (scalar_of (unique_types samples))) samples
  scalars-Conform =
      All-mono samples
        (λ v (h : HasNoNull v × Typed (unique_types samples) v).
          scalar_of-Conforms (unique_types samples) v h.0 h.1)
        (All-both _ _ samples (All-mono samples (λ v (h : Plain (suc fuel) v). h.1) plain)
          (unique_types-Typed samples))

module _ (fuel : ℕ) (v : Value) (vs : List Value) where
  infer-objects :
      (objs : List Fields)
      → objects_of (v ∷ vs) ≡ some objs
      → infer_schema_value (suc fuel) (v ∷ vs) ≡ infer_object_schema (infer_schema_value fuel) objs
  unfolding infer_schema_value
  infer-objects objs found = rw (found, infer_schema_value)

  infer-arrays :
      (arrays : List Items)
      → objects_of (v ∷ vs) ≡ none
      → arrays_of (v ∷ vs) ≡ some arrays
      → infer_schema_value (suc fuel) (v ∷ vs) ≡ infer_array_schema (infer_schema_value fuel) arrays
  unfolding infer_schema_value
  infer-arrays arrays no_objs found = rw (no_objs, found, infer_schema_value)

  infer-scalars :
      objects_of (v ∷ vs) ≡ none
      → arrays_of (v ∷ vs) ≡ none
      → infer_schema_value (suc fuel) (v ∷ vs) ≡ scalar_of (unique_types (v ∷ vs))
  unfolding infer_schema_value
  infer-scalars no_objs no_arrays = rw (no_objs, no_arrays, infer_schema_value)

pub All-Conforms_eq :
    (s s' : Schema) (vs : List Value) → s ≡ s' → All (Conforms s') vs → All (Conforms s) vs
All-Conforms_eq s s' vs e h = rw e h

-- With fuel beyond the depth of the samples.
infer-Conforms :
    (fuel : ℕ) (vs : List Value)
    → All (Plain fuel) vs
    → All (Conforms (infer_schema_value fuel vs)) vs
infer-Conforms fuel [] h = tt
infer-Conforms zero (v ∷ vs) h = absurd (omega (arith, h.0.0))
infer-Conforms (suc fuel) (v ∷ vs) h =
    let samples = v ∷ vs in
    elim (Option-cases (objects_of samples)) [
      | inr (objs, found) ↦
          All-Conforms_eq _ _ samples (infer-objects fuel v vs objs found)
            (objects-Conform fuel (infer-Conforms fuel) samples h objs found)
      | inl none_obj ↦ elim (Option-cases (arrays_of samples)) [
        | inr (arrays, found) ↦
            All-Conforms_eq _ _ samples (infer-arrays fuel v vs arrays none_obj found)
              (arrays-Conform fuel (infer-Conforms fuel) samples h arrays found)
        | inl none_arr ↦
            All-Conforms_eq _ _ samples (infer-scalars fuel v vs none_obj none_arr)
              (scalars-Conform fuel (infer-Conforms fuel) samples h)
      ]
    ]

max_depth_lt : (vs : List Value) (n : ℕ) → max_depth vs < n → All (λ v. depth v < n) vs
max_depth_lt [] n h = tt
max_depth_lt (v ∷ vs) n h =
    let (first, rest) = greater_lt (depth v) (max_depth vs) n h in (first, max_depth_lt vs n rest)

schema_of-Conforms : (vs : List Value) → All HasNoNull vs → All (Conforms (schema_of vs)) vs
schema_of-Conforms [] h = tt
schema_of-Conforms (v ∷ vs) h =
    infer-Conforms (suc (max_depth (v ∷ vs))) (v ∷ vs)
      (All-both _ _ (v ∷ vs) (max_depth_lt (v ∷ vs) (suc (max_depth (v ∷ vs))) (omega arith)) h)

-- Of samples with no null inside them, every one keeps to the schema that is inferred from all.
pub samples-Conform :
    (samples : List Value)
    → All HasNoNull (non_nil samples)
    → All (Conforms (infer_schema_from_samples samples)) (non_nil samples)
unfolding infer_schema_from_samples
samples-Conform samples h = schema_of-Conforms (non_nil samples) h

-- Samples that are whole numbers and others get a choice of two types, and a whole number has both.
pub mixed_numbers :
    (n : ℤ) (s : Text)
    → (infer_schema_from_samples (integer n ∷ fraction s ∷ [])
        ≡ one_of (str "integer" ∷ str "number" ∷ []))
      × (is_of (str "integer") (integer n) ≡ true)
      × (is_of (str "number") (integer n) ≡ true)
unfolding infer_schema_from_samples depth text_eq
mixed_numbers n s = (refl, refl, refl)
