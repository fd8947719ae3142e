-- ===== src/Learn/Schema/Conforming.antt =====
-- The samples keep to the schema that is inferred from them.
use api_x.Base.{
  Text, str, Bool, true, ◌||◌, some, List, [], ◌∷◌, any, All, All-mono, ◌≡◌, refl, ◌∙◌, arith,
  Bool-cases, inl, inr,
}
use api_x.Base.Strings.{text_eq, text_eq_iff, text_eq_refl}
use api_x.Base.Sort.{any-sort_strings}
use api_x.Learn.Values.{
  Value, null, boolean, integer, fraction, text, array, object, Fields, list_of, lookup_field,
  HasNoNull,
}
use api_x.Learn.Schema.{
  Schema, typed, one_of, array_of, object_of, Props, no_props, prop, value_type, add_text, type_set,
  unique_types, scalar_of,
}

-- A value is of a type of JSON Schema.
abbrev pub is_of : Text → Value → Bool
is_of t (object fs) = text_eq t (str "object")
is_of t (array xs) = text_eq t (str "array")
is_of t (text s) = text_eq t (str "string")
is_of t (boolean b) = text_eq t (str "boolean")
is_of t (integer n) = text_eq t (str "integer") || text_eq t (str "number")
is_of t (fraction s) = text_eq t (str "number")
is_of t null = text_eq t (str "null")

abbrev pub Has : Text → Fields → Type 0
Has key fs = (v : Value) × (lookup_field key fs ≡ some v)

-- A value keeps to a schema; of several types it has one at least.
unfoldable mutual
  pub Conforms : Schema → Value → Type 0
  Conforms (typed t) v = is_of t v ≡ true
  Conforms (one_of ts) v = any (λ t. is_of t v) ts ≡ true
  Conforms (array_of s) (array xs) = All (Conforms s) (list_of xs)
  Conforms (array_of s) _ = ⊥
  Conforms (object_of props required) (object fs) =
      PropsConform props fs × All (λ key. Has key fs) required
  Conforms (object_of props required) _ = ⊥

  pub PropsConform : Props → Fields → Type 0
  PropsConform no_props fs = Unit
  PropsConform (prop key s props) fs =
      ((v : Value) → lookup_field key fs ≡ some v → Conforms s v) × PropsConform props fs

is_of-value_type : (v : Value) → HasNoNull v → is_of (value_type v) v ≡ true
unfolding value_type HasNoNull
is_of-value_type null h = absurd h
is_of-value_type (boolean b) h = text_eq_refl (str "boolean")
is_of-value_type (integer n) h = unfold text_eq in refl
is_of-value_type (fraction s) h = text_eq_refl (str "number")
is_of-value_type (text s) h = text_eq_refl (str "string")
is_of-value_type (array xs) h = text_eq_refl (str "array")
is_of-value_type (object fs) h = text_eq_refl (str "object")

any-add_text :
    (s t : Text) (set : List Text)
    → any (λ x. text_eq x s) set ≡ true
    → any (λ x. text_eq x s) (add_text t set) ≡ true
unfolding add_text
any-add_text s t set h = ground (arith, h)

any-add_text_self : (s : Text) (set : List Text) → any (λ x. text_eq x s) (add_text s set) ≡ true
unfolding add_text
any-add_text_self s set = elim (Bool-cases (any (λ x. text_eq x s) set)) [
  | inl there ↦ rw there there
  | inr new ↦ rw (new, text_eq_refl s)
]

-- The type of the value is in the list.
abbrev pub Typed : List Text → Value → Type 0
Typed ts v = any (λ t. text_eq t (value_type v)) ts ≡ true

type_set-Typed : (vs : List Value) → All (Typed (type_set vs)) vs
unfolding type_set
type_set-Typed [] = tt
type_set-Typed (v ∷ vs) = (
  any-add_text_self (value_type v) (type_set vs),
  All-mono vs (λ w h. any-add_text (value_type w) (value_type v) (type_set vs) h)
      (type_set-Typed vs),
)

pub unique_types-Typed : (vs : List Value) → All (Typed (unique_types vs)) vs
unfolding unique_types
unique_types-Typed vs =
    All-mono vs (λ v h. any-sort_strings (λ t. text_eq t (value_type v)) (type_set vs) ∙ h)
      (type_set-Typed vs)

is_of-of_type :
    (t : Text) (v : Value) → HasNoNull v → text_eq t (value_type v) ≡ true → is_of t v ≡ true
is_of-of_type t v h e = rw ((text_eq_iff t (value_type v)).0 e) (is_of-value_type v h)

any-is_of : (ts : List Text) (v : Value) → HasNoNull v → Typed ts v → any (λ t. is_of t v) ts ≡ true
any-is_of [] v h e = cc
any-is_of (t ∷ ts) v h e = elim (Bool-cases (text_eq t (value_type v))) [
  | inl same ↦ rw (is_of-of_type t v h same)
  | inr other ↦ ground (arith, any-is_of ts v h (rw other at e))
]

pub scalar_of-Conforms :
    (ts : List Text) (v : Value) → HasNoNull v → Typed ts v → Conforms (scalar_of ts) v
unfolding Conforms
scalar_of-Conforms [] v h e = cc
scalar_of-Conforms (t ∷ []) v h e = is_of-of_type t v h (ground arith)
scalar_of-Conforms (t ∷ s ∷ ts) v h e = any-is_of (t ∷ s ∷ ts) v h e
