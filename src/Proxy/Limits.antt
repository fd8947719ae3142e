-- ===== src/Proxy/Limits.antt =====
-- internal/proxy: request_limits.go, body_limits.go, and internal/http/read_body.go, the limits on what
-- clients send. Limits of zero or less do not limit.
pub mod Bounds
use api_x.Base.{
  ℕ, ◌+◌, ◌*◌, Text, Bool, true, false, ◌&&◌, Option, none, some, List, [], ◌∷◌, length, ltb,
  if◌then◌else◌, ◌⊎◌, inl, inr,
}
use api_x.Base.Int.{ℤ, pos, ltb_ℤ}
use api_x.Header.{Header}

-- The fields of the configuration that the checks read.
pub record RequestLimits : Type 0 where
  pub max_url_length : ℤ
  pub max_header_value_bytes : ℤ
  pub max_total_header_bytes : ℤ
  pub max_headers_per_request : ℤ

pub data LimitError : Type 0 where
  url_too_long header_value_too_large total_headers_too_large too_many_header_fields : LimitError

-- `limit > 0 && n > limit`
abbrev pub exceeds : ℤ → ℕ → Bool
exceeds limit n = ltb_ℤ (pos 0) limit && ltb_ℤ limit (pos n)

module _ (cfg : RequestLimits) where
  -- The inner loop: the bytes counted so far, or an error.
  unfoldable pub check_values : Text → List Text → ℕ → LimitError ⊎ ℕ
  check_values key [] total = inr total
  check_values key (value ∷ values) total =
      let total' = total + (length key + length value) in
      let later = check_values key values total' in
      if exceeds cfg.max_header_value_bytes (length value)
      then inl header_value_too_large
      else if exceeds cfg.max_total_header_bytes total'
      then inl total_headers_too_large
      else later

  -- The outer loop, over the header in the order of the range loop: the fields and bytes so far.
  unfoldable pub check_header : Header → ℕ → ℕ → LimitError ⊎ ℕ
  unfolding check_values
  check_header [] fields total = inr fields
  check_header ((key, values) ∷ h) fields total = elim (check_values key values total) [
    | inl e ↦ inl e
    | inr total' ↦ check_header h (fields + length values) total'
  ]

  abbrev pub check_fields : LimitError ⊎ ℕ → Option LimitError
  check_fields (inl e) = some e
  check_fields (inr fields) =
      if exceeds cfg.max_headers_per_request fields then some too_many_header_fields else none

  -- `validateInboundRequest`: the error, if there is one
  unfoldable pub validate_inbound_request : Text → Header → Option LimitError
  unfolding check_header
  validate_inbound_request url h =
      if exceeds cfg.max_url_length (length url)
      then some url_too_long
      else check_fields (check_header h 0 0)

-- `maxBodyBytes`, for a size that is not negative
abbrev pub max_body_bytes : ℕ → ℕ
max_body_bytes max_body_size_mb = max_body_size_mb * 1024 * 1024

-- `ReadLimitedBody`, of a reader that does not fail
unfoldable pub read_limited_body : ℕ → Text → Option Text
read_limited_body max_bytes body = if ltb max_bytes (length body) then none else some body
