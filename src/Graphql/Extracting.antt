-- ===== src/Graphql/Extracting.antt =====
-- What metadata.go extracts.
use api_x.Base.{
  ◌<◌, Text, true, false, Option, none, some, List, [], ◌∷◌, ◌≡◌, arith, ◌⊎◌, inl, inr, Bool-cases,
}
use api_x.Base.Maps.{Assoc}
use api_x.Learn.Values.{
  Value, Fields, null, boolean, integer, fraction, text, array, object, list_of,
}
use api_x.Graphql.{
  RequestMetadata, parse_operation, parse_operations, operation_of, first_of, extract_request,
  is_read,
}

module _ (unmarshal : Text → Option Value) (marshal : Value → Text) where
  parse_operation-one :
      (obj : Fields) (op : RequestMetadata)
      → parse_operation unmarshal marshal obj ≡ some op
      → (op.is_batch ≡ false) × (op.operation_count ≡ 1)
  unfolding parse_operation
  parse_operation-one obj op h = ground arith

  batch_counted :
      (ops : List RequestMetadata) (op : RequestMetadata)
      → first_of unmarshal marshal ops ≡ some op
      → (0 < op.operation_count) × ((op.is_batch ≡ true) ⊎ (op.operation_count ≡ 1))
  batch_counted [] op h = absurd (ground arith)
  batch_counted (first ∷ ops) op h = ground arith

  -- A request for which an operation is found counts at least one, and only a batch counts more.
  pub counted :
      (v : Option Value) (op : RequestMetadata)
      → operation_of unmarshal marshal v ≡ some op
      → (0 < op.operation_count) × ((op.is_batch ≡ true) ⊎ (op.operation_count ≡ 1))
  counted none op h = absurd (ground arith)
  counted (some null) op h = absurd (ground arith)
  counted (some (boolean b)) op h = absurd (ground arith)
  counted (some (integer n)) op h = absurd (ground arith)
  counted (some (fraction s)) op h = absurd (ground arith)
  counted (some (text s)) op h = absurd (ground arith)
  counted (some (array items)) op h =
      batch_counted (parse_operations unmarshal marshal (list_of items)) op h
  counted (some (object obj)) op h =
      let (single, one) = parse_operation-one obj op h in (omega arith, inr one)

  pub extract_request-counted :
      (headers : Assoc Text) (body : Text) (op : RequestMetadata)
      → extract_request unmarshal marshal headers body ≡ some op
      → (0 < op.operation_count) × ((op.is_batch ≡ true) ⊎ (op.operation_count ≡ 1))
  unfolding extract_request
  extract_request-counted headers body op h =
      elim (Bool-cases (is_read unmarshal marshal headers body)) [
        | inl read ↦ counted (unmarshal body) op (rw (read, extract_request) at h)
        | inr unread ↦ absurd (ground arith)
      ]
