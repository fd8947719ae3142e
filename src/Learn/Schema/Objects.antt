-- ===== src/Learn/Schema/Objects.antt =====
-- Objects and arrays against the schemas of openapi.go, where their values keep to theirs.
use api_x.Base.{
  ◌≤◌, Text, some, List, [], ◌∷◌, map, length, All, All-both, All-every, All-append, ◌==◌, ==_iff,
  ◌≡◌, refl, ap, arith, Bool-cases, Option-cases, inl, inr,
}
use api_x.Base.Sort.{sort_strings}
use api_x.Learn.Values.{Value, array, object, Items, Fields, list_of, lookup_field}
use api_x.Learn.Schema.{
  Schema, array_of, objects_of, arrays_of, samples_of, key_set, props_of, required_of,
  infer_object_schema, all_items,
}
use api_x.Learn.Schema.Conforming.{Has, Conforms, PropsConform}

-- What holds of a field of an object.
abbrev pub AtField : Text → (Value → Type 0) → Fields → Type 0
AtField key P fs = (v : Value) → lookup_field key fs ≡ some v → P v

module _ (P : Value → Type 0) (key : Text) where
  pub samples_of-All : (objs : List Fields) → All (AtField key P) objs → All P (samples_of key objs)
  unfolding samples_of
  samples_of-All [] h = tt
  samples_of-All (fs ∷ objs) h = elim (Option-cases (lookup_field key fs)) [
    | inl e ↦ rw e (samples_of-All objs h.1)
    | inr (v, e) ↦ rw e (h.0 v e, samples_of-All objs h.1)
  ]

  pub All-samples_of : (objs : List Fields) → All P (samples_of key objs) → All (AtField key P) objs
  unfolding samples_of
  All-samples_of [] h = tt
  All-samples_of (fs ∷ objs) h = elim (Option-cases (lookup_field key fs)) [
    | inl e ↦ (λ v e'. cc, All-samples_of objs (rw e at h))
    | inr (w, e) ↦
        let h' = rw e at h in
        (λ v e'. let same : w ≡ v = cc in rw (← same) h'.0, All-samples_of objs h'.1)
  ]

length-samples_of : (key : Text) (objs : List Fields) → length (samples_of key objs) ≤ length objs
unfolding samples_of
length-samples_of key [] = omega arith
length-samples_of key (fs ∷ objs) = elim (Option-cases (lookup_field key fs)) [
  | inl e ↦ rw e (omega (arith, length-samples_of key objs))
  | inr (v, e) ↦ rw e (omega (arith, length-samples_of key objs))
]

-- A name with as many samples as there are objects stands in each of them.
counted-Has :
    (key : Text) (objs : List Fields)
    → length (samples_of key objs) ≡ length objs
    → All (Has key) objs
unfolding samples_of
counted-Has key [] h = tt
counted-Has key (fs ∷ objs) h = elim (Option-cases (lookup_field key fs)) [
  | inl e ↦ let h' = rw e at h in absurd (omega (arith, h', length-samples_of key objs))
  | inr (v, e) ↦ let h' = rw e at h in ((v, e), counted-Has key objs (omega (arith, h')))
]

required_of-Has :
    (objs : List Fields) (ks : List Text)
    → All (λ fs. All (λ key. Has key fs) (required_of objs ks)) objs
required_of-Has objs [] = All-every objs (λ fs. tt)
required_of-Has objs (key ∷ ks) = elim (Bool-cases (length (samples_of key objs) == length objs)) [
  | inr fewer ↦ rw fewer (required_of-Has objs ks)
  | inl every ↦
      rw every
        (All-both _ _ objs (counted-Has key objs ((==_iff _ _).0 every)) (required_of-Has objs ks))
]

module _ (infer : List Value → Schema) (objs : List Fields)
    (kept : (key : Text) → All (Conforms (infer (samples_of key objs))) (samples_of key objs)) where
  props_of-Conform : (ks : List Text) → All (PropsConform (props_of infer objs ks)) objs
  unfolding PropsConform
  props_of-Conform [] = All-every objs (λ fs. tt)
  props_of-Conform (key ∷ ks) =
      All-both _ _ objs
        (All-samples_of (Conforms (infer (samples_of key objs))) key objs (kept key))
        (props_of-Conform ks)

  pub object-Conforms : All (λ fs. Conforms (infer_object_schema infer objs) (object fs)) objs
  unfolding Conforms infer_object_schema
  object-Conforms =
      let ks = sort_strings (key_set objs) in
      All-both _ _ objs (props_of-Conform ks) (required_of-Has objs ks)

-- Arrays whose items all keep to a schema.
pub array-Conforms :
    (s : Schema) (arrays : List Items)
    → All (Conforms s) (all_items arrays)
    → All (λ xs. Conforms (array_of s) (array xs)) arrays
unfolding Conforms
array-Conforms s [] h = tt
array-Conforms s (xs ∷ arrays) h =
    let (first, rest) = All-append (Conforms s) (list_of xs) (all_items arrays) h in
    (first, array-Conforms s arrays rest)

pub objects_of-map :
    (vs : List Value) (parts : List Fields) → objects_of vs ≡ some parts → vs ≡ map object parts
unfolding objects_of
objects_of-map [] [] e = refl
objects_of-map [] (p ∷ parts) e = cc
objects_of-map (object p ∷ vs) parts e = elim (Option-cases (objects_of vs)) [
  | inl gone ↦ let e' = rw gone at e in cc
  | inr (rest, found) ↦
      let e' = rw found at e in
      let same : p ∷ rest ≡ parts = cc in
      rw (← same) (ap (◌∷◌ (object p)) (objects_of-map vs rest found))
]
objects_of-map (_ ∷ vs) parts e = cc

pub arrays_of-map :
    (vs : List Value) (parts : List Items) → arrays_of vs ≡ some parts → vs ≡ map array parts
unfolding arrays_of
arrays_of-map [] [] e = refl
arrays_of-map [] (p ∷ parts) e = cc
arrays_of-map (array p ∷ vs) parts e = elim (Option-cases (arrays_of vs)) [
  | inl gone ↦ let e' = rw gone at e in cc
  | inr (rest, found) ↦
      let e' = rw found at e in
      let same : p ∷ rest ≡ parts = cc in
      rw (← same) (ap (◌∷◌ (array p)) (arrays_of-map vs rest found))
]
arrays_of-map (_ ∷ vs) parts e = cc
