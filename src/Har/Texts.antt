-- ===== src/Har/Texts.antt =====
-- Headers of har.go on their way through a JSON document.
use api_x.Base.{
  Text, true, false, not, List, [], ◌∷◌, All, map, any, ◌≡◌, refl, ◌∙◌, arith, Bool-cases, inl, inr,
}
use api_x.Base.Strings.{text_eq, equal_fold}
use api_x.Base.Maps.{Assoc, keys, lookup}
use api_x.Base.Sort.{sort_strings, any-sort_strings}
use api_x.Har.{header_value, or_blank, kv, map_to_har, Codec}
use api_x.Har.Bodies.{IsLawful}
use api_x.Har.Json.{kv_through}

module _ (lib : Codec) where
  -- Names and values are UTF-8.
  abbrev pub AreTexts : Assoc Text → Type 0
  AreTexts h = All (λ f. (lib.is_utf8 f.0 ≡ true) × (lib.is_utf8 f.1 ≡ true)) h

  module _ (law : IsLawful lib) where
    blank_utf8 : lib.is_utf8 [] ≡ true
    blank_utf8 = law.ascii_utf8 [] tt

    pub header_value-utf8 :
        (h : Assoc Text) (name : Text) → AreTexts h → lib.is_utf8 (header_value h name) ≡ true
    unfolding header_value
    header_value-utf8 [] name texts = blank_utf8
    header_value-utf8 ((k, v) ∷ h) name texts = elim (Bool-cases (equal_fold k name)) [
      | inl here ↦ rw here (texts.0.1)
      | inr there ↦ rw there (header_value-utf8 h name texts.1)
    ]

    lookup-utf8 :
        (h : Assoc Text) (key : Text) → AreTexts h → lib.is_utf8 (or_blank (lookup key h)) ≡ true
    unfolding lookup
    lookup-utf8 [] key texts = blank_utf8
    lookup-utf8 ((k, v) ∷ h) key texts = elim (Bool-cases (text_eq k key)) [
      | inl here ↦ rw here (texts.0.1)
      | inr there ↦ rw there (lookup-utf8 h key texts.1)
    ]

    keys-utf8 : (h : Assoc Text) → AreTexts h → any (λ k. not (lib.is_utf8 k)) (keys h) ≡ false
    keys-utf8 [] texts = refl
    keys-utf8 ((k, v) ∷ h) texts = rw (texts.0.0, keys-utf8 h texts.1) refl

    fields_through :
        (value : Text → Text) (ks : List Text)
        → ((key : Text) → lib.is_utf8 (value key) ≡ true)
        → any (λ k. not (lib.is_utf8 k)) ks ≡ false
        → map (kv_through lib) (map (λ key. kv key (value key)) ks)
          ≡ map (λ key. kv key (value key)) ks
    fields_through value [] valid names = refl
    fields_through value (k ∷ ks) valid names = elim (Bool-cases (lib.is_utf8 k)) [
      | inl e ↦
          rw
            (
              law.json k e,
              law.json (value k) (valid k),
              fields_through value ks valid (rw (e) at names),
            )
            refl
      | inr e ↦ absurd (ground arith)
    ]

    pub through-map_to_har :
        (h : Assoc Text) → AreTexts h → map (kv_through lib) (map_to_har h) ≡ map_to_har h
    unfolding map_to_har
    through-map_to_har h texts =
        fields_through (λ key. or_blank (lookup key h)) (sort_strings (keys h))
          (λ key. lookup-utf8 h key texts)
          (any-sort_strings (λ k. not (lib.is_utf8 k)) (keys h) ∙ keys-utf8 h texts)
