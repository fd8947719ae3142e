-- ===== src/Learn/Schema.antt =====
-- The schemas of internal/learn/openapi.go. The order in which Go ranges over a map decides nothing
-- here: names are sorted, and an object has at most one value of a name.
pub mod Conforming
pub mod Objects
pub mod Inferred
use api_x.Base.{
  ℕ, zero, suc, Text, str, Bool, true, false, Option, none, some, List, [], ◌∷◌, ◌++◌, any, length,
  ◌==◌, ltb, if◌then◌else◌,
}
use api_x.Base.Strings.{text_eq}
use api_x.Base.Sort.{sort_strings}
use api_x.Learn.Values.{
  Value, null, boolean, integer, fraction, text, array, object, Items, Fields, list_of,
  lookup_field, field_names, greater, depth,
}

-- A schema: a type, one of several types, an array of items, or an object with its properties and the
-- required ones.
mutual
  pub data Schema : Type 0 where
    typed : Text → Schema
    one_of : List Text → Schema
    array_of : Schema → Schema
    object_of : Props → List Text → Schema

  pub data Props : Type 0 where
    no_props : Props
    prop : Text → Schema → Props → Props

-- `valueType`
unfoldable pub value_type : Value → Text
value_type (object fs) = str "object"
value_type (array xs) = str "array"
value_type (text s) = str "string"
value_type (boolean b) = str "boolean"
value_type (integer n) = str "integer"
value_type (fraction s) = str "number"
value_type null = str "string"

-- A text is put into a set.
unfoldable pub add_text : Text → List Text → List Text
unfolding text_eq
add_text s set = if any (λ t. text_eq t s) set then set else s ∷ set

unfoldable pub type_set : List Value → List Text
unfolding value_type add_text
type_set [] = []
type_set (v ∷ vs) = add_text (value_type v) (type_set vs)

-- `uniqueTypes`
unfoldable pub unique_types : List Value → List Text
unfolding sort_strings type_set
unique_types vs = sort_strings (type_set vs)

abbrev pub scalar_of : List Text → Schema
scalar_of (t ∷ []) = typed t
scalar_of ts = one_of ts

-- The values as objects, if all of them are.
unfoldable pub objects_of : List Value → Option (List Fields)
objects_of [] = some []
objects_of (object fs ∷ vs) = elim (objects_of vs) [ none ↦ none | some rest ↦ some (fs ∷ rest) ]
objects_of (_ ∷ vs) = none

-- The values as arrays, if all of them are.
unfoldable pub arrays_of : List Value → Option (List Items)
arrays_of [] = some []
arrays_of (array xs ∷ vs) = elim (arrays_of vs) [ none ↦ none | some rest ↦ some (xs ∷ rest) ]
arrays_of (_ ∷ vs) = none

abbrev pub onto : Option Value → List Value → List Value
onto none vs = vs
onto (some v) vs = v ∷ vs

-- `propertySamples[key]`; its length is `requiredCounts[key]`
unfoldable pub samples_of : Text → List Fields → List Value
unfolding lookup_field
samples_of key [] = []
samples_of key (fs ∷ objs) = onto (lookup_field key fs) (samples_of key objs)

abbrev add_names : List Text → List Text → List Text
add_names [] set = set
add_names (s ∷ ss) set = add_text s (add_names ss set)

-- The keys of `propertySamples`.
unfoldable pub key_set : List Fields → List Text
unfolding add_text
key_set [] = []
key_set (fs ∷ objs) = add_names (field_names fs) (key_set objs)

abbrev pub props_of : (List Value → Schema) → List Fields → List Text → Props
props_of infer objs [] = no_props
props_of infer objs (key ∷ ks) = prop key (infer (samples_of key objs)) (props_of infer objs ks)

abbrev pub required_of : List Fields → List Text → List Text
required_of objs [] = []
required_of objs (key ∷ ks) =
    let rest = required_of objs ks in
    if length (samples_of key objs) == length objs then key ∷ rest else rest

-- `inferObjectSchema`
unfoldable pub infer_object_schema : (List Value → Schema) → List Fields → Schema
unfolding sort_strings key_set samples_of
infer_object_schema infer objs =
    let ks = sort_strings (key_set objs) in object_of (props_of infer objs ks) (required_of objs ks)

abbrev pub all_items : List Items → List Value
all_items [] = []
all_items (xs ∷ rest) = list_of xs ++ all_items rest

abbrev or_string : (List Value → Schema) → List Value → Schema
or_string infer [] = typed (str "string")
or_string infer (v ∷ vs) = infer (v ∷ vs)

-- `inferArraySchema`
abbrev pub infer_array_schema : (List Value → Schema) → List Items → Schema
infer_array_schema infer arrays = array_of (or_string infer (all_items arrays))

-- `inferSchemaValue` below a depth of nesting.
unfoldable pub infer_schema_value : ℕ → List Value → Schema
unfolding objects_of arrays_of infer_object_schema unique_types
infer_schema_value fuel [] = typed (str "string")
infer_schema_value zero (v ∷ vs) = scalar_of (unique_types (v ∷ vs))
infer_schema_value (suc fuel) (v ∷ vs) = elim (objects_of (v ∷ vs)) [
  | some objs ↦ infer_object_schema (infer_schema_value fuel) objs
  | none ↦ elim (arrays_of (v ∷ vs)) [
    | some arrays ↦ infer_array_schema (infer_schema_value fuel) arrays
    | none ↦ scalar_of (unique_types (v ∷ vs))
  ]
]

abbrev pub max_depth : List Value → ℕ
max_depth [] = 0
max_depth (v ∷ vs) = greater (depth v) (max_depth vs)

unfoldable pub non_nil : List Value → List Value
non_nil [] = []
non_nil (null ∷ vs) = non_nil vs
non_nil (v ∷ vs) = v ∷ non_nil vs

abbrev pub schema_of : List Value → Schema
schema_of [] = typed (str "object")
schema_of (v ∷ vs) = infer_schema_value (suc (max_depth (v ∷ vs))) (v ∷ vs)

-- `inferSchemaFromSamples`, with the depth of the samples as fuel
unfoldable pub infer_schema_from_samples : List Value → Schema
unfolding non_nil infer_schema_value
infer_schema_from_samples samples = schema_of (non_nil samples)
