-- ===== src/Learn/Values.antt =====
-- What encoding/json makes of a document, for internal/learn/openapi.go and
-- internal/graphql/metadata.go.
use api_x.Base.{ℕ, suc, Text, Bool, Option, none, some, List, [], ◌∷◌, ltb, if◌then◌else◌}
use api_x.Base.Int.{ℤ}
use api_x.Base.Strings.{text_eq}

-- A number is a whole one that an int64 holds, or another one, which is known by its text.
mutual
  pub data Value : Type 0 where
    null : Value
    boolean : Bool → Value
    integer : ℤ → Value
    fraction : Text → Value
    text : Text → Value
    array : Items → Value
    object : Fields → Value

  pub data Items : Type 0 where
    nil : Items
    item : Value → Items → Items

  pub data Fields : Type 0 where
    end : Fields
    field : Text → Value → Fields → Fields

abbrev pub list_of : Items → List Value
list_of nil = []
list_of (item v xs) = v ∷ list_of xs

-- `obj[key]`
unfoldable pub lookup_field : Text → Fields → Option Value
lookup_field key end = none
lookup_field key (field k v fs) = if text_eq k key then some v else lookup_field key fs

abbrev pub field_names : Fields → List Text
field_names end = []
field_names (field k v fs) = k ∷ field_names fs

abbrev pub greater : ℕ → ℕ → ℕ
greater a b = if ltb a b then b else a

unfoldable mutual
  pub depth : Value → ℕ
  depth (array xs) = suc (depth_items xs)
  depth (object fs) = suc (depth_fields fs)
  depth _ = 0

  pub depth_items : Items → ℕ
  depth_items nil = 0
  depth_items (item v xs) = greater (depth v) (depth_items xs)

  pub depth_fields : Fields → ℕ
  depth_fields end = 0
  depth_fields (field k v fs) = greater (depth v) (depth_fields fs)

-- No null stands anywhere in it.
unfoldable mutual
  pub HasNoNull : Value → Type 0
  HasNoNull null = ⊥
  HasNoNull (array xs) = ItemsHaveNoNull xs
  HasNoNull (object fs) = FieldsHaveNoNull fs
  HasNoNull _ = Unit

  pub ItemsHaveNoNull : Items → Type 0
  ItemsHaveNoNull nil = Unit
  ItemsHaveNoNull (item v xs) = HasNoNull v × ItemsHaveNoNull xs

  pub FieldsHaveNoNull : Fields → Type 0
  FieldsHaveNoNull end = Unit
  FieldsHaveNoNull (field k v fs) = HasNoNull v × FieldsHaveNoNull fs
