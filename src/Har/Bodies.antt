-- ===== src/Har/Bodies.antt =====
-- Bodies of har.go on their way out and back.
use api_x.Base.{
  All, ◌<◌, ap, ℕ, Text, str, is_blank, true, false, some, [], ◌∷◌, ◌≡◌, refl, arith, Bool-cases,
  inl, inr,
}
use api_x.Base.Int.{ℤ}
use api_x.Base.Maps.{Assoc}
use api_x.Har.{
  header_value, map_to_har, map_from_har, set_missing_header, Codec, new_har_body, body_pointer,
  with_type, decode_body,
}
use api_x.Har.HeaderMaps.{type_is_there}
use api_x.Har.Json.{body_through, maybe_through}

-- What the round trip relies on of the standard library.
pub record IsLawful (lib : Codec) : Type 0 where
  pub time : (t : lib.Time) → lib.parse_time (lib.format_time t) ≡ some t
  pub time_text : (t : lib.Time) → is_blank (lib.format_time t) ≡ false
  pub base64 : (b : Text) → lib.decode_base64 (lib.encode_base64 b) ≡ some b
  pub base64_utf8 : (b : Text) → lib.is_utf8 (lib.encode_base64 b) ≡ true
  pub time_utf8 : (t : lib.Time) → lib.is_utf8 (lib.format_time t) ≡ true
  pub status_utf8 : (code : ℤ) → lib.is_utf8 (lib.status_text code) ≡ true
  pub ascii_utf8 : (s : Text) → All (λ c. c < 128) s → lib.is_utf8 s ≡ true
  pub json : (s : Text) → lib.is_utf8 s ≡ true → lib.through_json s ≡ s
  pub base64_text : (b : Text) → is_blank (lib.encode_base64 b) ≡ is_blank b

module _ (lib : Codec) (law : IsLawful lib) where
  plain_body :
      (c : ℕ) (s mime : Text)
      → lib.is_utf8 (c ∷ s) ≡ true
      → new_har_body lib (c ∷ s) mime ≡ record { mime_type = mime; text = c ∷ s; encoding = [] }
  unfolding new_har_body
  plain_body c s mime e = rw e

  encoded_body :
      (c : ℕ) (s mime : Text)
      → lib.is_utf8 (c ∷ s) ≡ false
      → new_har_body lib (c ∷ s) mime
        ≡ record { mime_type = mime; text = lib.encode_base64 (c ∷ s); encoding = str "base64" }
  unfolding new_har_body
  encoded_body c s mime e = rw e

  pub decode-new_har_body :
      (body mime : Text) → decode_body lib (some (new_har_body lib body mime)) ≡ some body
  unfolding decode_body
  decode-new_har_body [] mime = unfold new_har_body in refl
  decode-new_har_body (c ∷ s) mime = elim (Bool-cases (lib.is_utf8 (c ∷ s))) [
    | inl e ↦ rw (plain_body c s mime e) refl
    | inr e ↦ rw (encoded_body c s mime e, law.base64_text (c ∷ s)) (law.base64 (c ∷ s))
  ]

  pub decode-body_pointer :
      (body mime : Text)
      → decode_body lib (body_pointer lib (new_har_body lib body mime) body) ≡ some body
  decode-body_pointer [] mime = unfold decode_body in refl
  decode-body_pointer (c ∷ body) mime = decode-new_har_body (c ∷ body) mime

  mime_type-new_har_body : (body mime : Text) → (new_har_body lib body mime).mime_type ≡ mime
  unfolding new_har_body
  mime_type-new_har_body body mime = ground arith

  -- The headers that the import makes of an exported body and its fields.
  pub typed-headers :
      (h : Assoc Text) (body : Text)
      → set_missing_header
          (map_from_har (map_to_har h))
          (str "Content-Type")
          (new_har_body lib body (header_value h (str "Content-Type"))).mime_type
        ≡ map_from_har (map_to_har h)
  typed-headers h body =
      rw (mime_type-new_har_body body (header_value h (str "Content-Type"))) (type_is_there h)

  pub with_type-pointer :
      (h : Assoc Text) (body : Text)
      → with_type lib
          (map_from_har (map_to_har h))
          (body_pointer lib (new_har_body lib body (header_value h (str "Content-Type"))) body)
        ≡ map_from_har (map_to_har h)
  with_type-pointer h [] = refl
  with_type-pointer h (c ∷ s) = typed-headers h (c ∷ s)

  blank_utf8 : lib.is_utf8 [] ≡ true
  blank_utf8 = law.ascii_utf8 [] tt

  base64_name : lib.is_utf8 (str "base64") ≡ true
  base64_name =
      law.ascii_utf8 (str "base64")
        (omega arith, (omega arith, (omega arith, (omega arith, (omega arith, (omega arith, tt))))))

  -- A body whose type is UTF-8 comes back from a document as it was: one that is not UTF-8 is encoded.
  pub through-new_har_body :
      (body mime : Text)
      → lib.is_utf8 mime ≡ true
      → body_through lib (new_har_body lib body mime) ≡ new_har_body lib body mime
  through-new_har_body [] mime m =
      unfold new_har_body in rw (law.json mime m, law.json [] blank_utf8) refl
  through-new_har_body (c ∷ s) mime m = elim (Bool-cases (lib.is_utf8 (c ∷ s))) [
    | inl e ↦
        rw (plain_body c s mime e, law.json mime m, law.json (c ∷ s) e, law.json [] blank_utf8) refl
    | inr e ↦
        rw
          (
            encoded_body c s mime e,
            law.json mime m,
            law.json (lib.encode_base64 (c ∷ s)) (law.base64_utf8 (c ∷ s)),
            law.json (str "base64") base64_name,
          )
          refl
  ]

  pub through-pointer :
      (body mime : Text)
      → lib.is_utf8 mime ≡ true
      → maybe_through lib (body_pointer lib (new_har_body lib body mime) body)
        ≡ body_pointer lib (new_har_body lib body mime) body
  through-pointer [] mime m = refl
  through-pointer (c ∷ s) mime m = ap some (through-new_har_body (c ∷ s) mime m)
