-- ===== src/Proxy/Limits/Bounds.antt =====
-- Which requests the limits of internal/proxy/request_limits.go accept.
use api_x.Base.{
  ℕ, ◌+◌, Text, false, none, List, [], ◌∷◌, length, ◌⊎◌, inl, inr, ◌≡◌, refl, ◌↔◌, arith, All,
}
use api_x.Base.Int.{ℤ}
use api_x.Header.{Header}
use api_x.Proxy.Limits.{
  RequestLimits, LimitError, exceeds, check_values, check_header, validate_inbound_request,
}

-- The number of header fields, and the bytes that a field or a header takes.
abbrev pub field_count : Header → ℕ
field_count [] = 0
field_count ((key, values) ∷ h) = length values + field_count h

abbrev pub value_bytes : Text → List Text → ℕ
value_bytes key [] = 0
value_bytes key (value ∷ values) = length key + length value + value_bytes key values

abbrev pub header_bytes : Header → ℕ
header_bytes [] = 0
header_bytes ((key, values) ∷ h) = value_bytes key values + header_bytes h

sum_cases :
    {A : Type 0} {B : Type 0} (s : A ⊎ B) → ((a : A) × (s ≡ inl a)) ⊎ ((b : B) × (s ≡ inr b))
sum_cases (inl a) = inl (a, refl)
sum_cases (inr b) = inr (b, refl)

module _ (cfg : RequestLimits) where
  -- Every value, the total and the number of fields keep to their limits.
  abbrev pub Within : Text → Header → Type 0
  Within url h =
      (exceeds cfg.max_url_length (length url) ≡ false)
      × All (λ f. All (λ v. exceeds cfg.max_header_value_bytes (length v) ≡ false) f.1) h
      × (exceeds cfg.max_total_header_bytes (header_bytes h) ≡ false)
      × (exceeds cfg.max_headers_per_request (field_count h) ≡ false)

  exceeds_mono : (limit : ℤ) (m n : ℕ) → exceeds limit (m + n) ≡ false → exceeds limit m ≡ false
  exceeds_mono limit m n h = ground arith

  no_bytes : (limit : ℤ) → exceeds limit 0 ≡ false
  no_bytes limit = ground arith

  abbrev ValuesFit : List Text → Type 0
  ValuesFit values = All (λ v. exceeds cfg.max_header_value_bytes (length v) ≡ false) values

  values_sound :
      (key : Text) (values : List Text) (total total' : ℕ)
      → exceeds cfg.max_total_header_bytes total ≡ false
      → check_values cfg key values total ≡ inr total'
      → (total' ≡ total + value_bytes key values)
        × ValuesFit values
        × (exceeds cfg.max_total_header_bytes total' ≡ false)
  unfolding check_values
  values_sound key [] total total' h e = ground arith
  values_sound key (value ∷ values) total total' h e =
      ground (arith, values_sound key values (total + (length key + length value)) total')

  values_complete :
      (key : Text) (values : List Text) (total : ℕ)
      → ValuesFit values
      → exceeds cfg.max_total_header_bytes (total + value_bytes key values) ≡ false
      → check_values cfg key values total ≡ inr (total + value_bytes key values)
  unfolding check_values
  values_complete key [] total fit h = ground arith
  values_complete key (value ∷ values) total fit h = ground (
    arith,
    values_complete key values (total + (length key + length value)),
    exceeds_mono cfg.max_total_header_bytes (total + (length key + length value))
        (value_bytes key values),
  )

  check_values-cases :
      (key : Text) (values : List Text) (total : ℕ)
      → ((e : LimitError) × (check_values cfg key values total ≡ inl e))
        ⊎ ((total' : ℕ) × (check_values cfg key values total ≡ inr total'))
  check_values-cases key values total = sum_cases (check_values cfg key values total)

  header_stops :
      (key : Text) (values : List Text) (h : Header) (fields total : ℕ) (e : LimitError)
      → check_values cfg key values total ≡ inl e
      → check_header cfg ((key, values) ∷ h) fields total ≡ inl e
  unfolding check_header
  header_stops key values h fields total e q = rw (check_header, q)

  header_continues :
      (key : Text) (values : List Text) (h : Header) (fields total total' : ℕ)
      → check_values cfg key values total ≡ inr total'
      → check_header cfg ((key, values) ∷ h) fields total
        ≡ check_header cfg h (fields + length values) total'
  unfolding check_header
  header_continues key values h fields total total' q = rw (check_header, q)

  header_sound :
      (h : Header) (fields total fields' : ℕ)
      → exceeds cfg.max_total_header_bytes total ≡ false
      → check_header cfg h fields total ≡ inr fields'
      → (fields' ≡ fields + field_count h)
        × All (λ f. ValuesFit f.1) h
        × (exceeds cfg.max_total_header_bytes (total + header_bytes h) ≡ false)
  unfolding check_header
  header_sound [] fields total fields' ok e = ground arith
  header_sound ((key, values) ∷ h) fields total fields' ok e =
      elim (check_values-cases key values total) [
        | inl (err, q) ↦ ground (arith, header_stops key values h fields total err)
        | inr (total', q) ↦ ground (
          arith,
          header_continues key values h fields total total',
          values_sound key values total total',
          header_sound h (fields + length values) total' fields',
        )
      ]

  header_complete :
      (h : Header) (fields total : ℕ)
      → All (λ f. ValuesFit f.1) h
      → exceeds cfg.max_total_header_bytes (total + header_bytes h) ≡ false
      → check_header cfg h fields total ≡ inr (fields + field_count h)
  unfolding check_header
  header_complete [] fields total fit ok = ground arith
  header_complete ((key, values) ∷ h) fields total (fit, fits) ok = ground (
    arith,
    header_continues key values h fields total (total + value_bytes key values),
    values_complete key values total,
    exceeds_mono cfg.max_total_header_bytes (total + value_bytes key values) (header_bytes h),
    header_complete h (fields + length values) (total + value_bytes key values),
  )

  -- A request is accepted exactly when its URL, each value, all its fields together and their number
  -- keep to the limits that are positive.
  pub validate_inbound_request_iff :
      (url : Text) (h : Header) → validate_inbound_request cfg url h ≡ none ↔ Within url h
  unfolding validate_inbound_request
  validate_inbound_request_iff url h = elim (sum_cases (check_header cfg h 0 0)) [
    | inl (e, q) ↦ ground (arith, header_complete h 0 0)
    | inr (fields, q) ↦ ground (
      arith,
      header_sound h 0 0 fields (no_bytes cfg.max_total_header_bytes),
      header_complete h 0 0,
    )
  ]
