-- ===== src/Har/HeaderMaps.antt =====
-- Headers of har.go on their way out to a list of fields and back.
use api_x.Base.{
  Text, str, is_blank, Bool, true, false, ◌||◌, none, some, List, [], ◌∷◌, map, any, if◌then◌else◌,
  ◌≡◌, refl, ◌∙◌, arith, Bool-cases, inl, inr,
}
use api_x.Base.Strings.{text_eq, text_eq_iff, equal_fold}
use api_x.Base.Maps.{Assoc, keys, lookup, insert, delete, lookup-insert}
use api_x.Base.Sort.{sort_strings, any-sort_strings}
use api_x.Har.{header_value, or_blank, kv, map_to_har, add_all, map_from_har, set_missing_header}

module _ (value : Text → Text) where
  lookup-add_all :
      (j : Text) (ks : List Text) (out : Assoc Text)
      → lookup j (add_all (map (λ key. kv key (value key)) ks) out) ≡ (
          if is_blank j
          then lookup j out
          else if any (λ k. text_eq k j) ks
          then some (value j)
          else lookup j out)
  unfolding add_all
  lookup-add_all j [] out = ground arith
  lookup-add_all j (k ∷ ks) out =
      rw (lookup-add_all j ks (if is_blank k then out else insert k (value k) out))
        (ground (arith, lookup-insert k j (value k) out, text_eq_iff k j))

  any-keys-delete :
      (test : Text → Bool) (k : Text) (m : Assoc Text)
      → (test k || any test (keys (delete k m))) ≡ (test k || any test (keys m))
  unfolding delete
  any-keys-delete test k [] = refl
  any-keys-delete test k ((j, v) ∷ m) = ground (arith, any-keys-delete test k m, text_eq_iff j k)

  any-keys-add_all :
      (test : Text → Bool) (ks : List Text) (out : Assoc Text)
      → test [] ≡ false
      → any test (keys (add_all (map (λ key. kv key (value key)) ks) out))
        ≡ (any test ks || any test (keys out))
  unfolding add_all insert
  any-keys-add_all test [] out h = refl
  any-keys-add_all test ([] ∷ ks) out h = ground (arith, any-keys-add_all test ks out h)
  any-keys-add_all test ((c ∷ k) ∷ ks) out h =
      let out' = insert (c ∷ k) (value (c ∷ k)) out in
      ground (arith, any-keys-add_all test ks out' h, any-keys-delete test (c ∷ k) out)

lookup-none :
    (j : Text) (m : Assoc Text) → any (λ k. text_eq k j) (keys m) ≡ false → lookup j m ≡ none
unfolding lookup
lookup-none j [] h = refl
lookup-none j ((k, v) ∷ m) h = ground (arith, lookup-none j m)

lookup-some :
    (j : Text) (m : Assoc Text)
    → any (λ k. text_eq k j) (keys m) ≡ true
    → some (or_blank (lookup j m)) ≡ lookup j m
unfolding lookup
lookup-some j [] h = cc
lookup-some j ((k, v) ∷ m) h = ground (arith, lookup-some j m)

-- The import finds every header of the export but one without a name.
pub lookup-from-to :
    (j : Text) (h : Assoc Text)
    → lookup j (map_from_har (map_to_har h)) ≡ (if is_blank j then none else lookup j h)
unfolding map_to_har map_from_har
lookup-from-to j h =
    rw
      (
        lookup-add_all (λ key. or_blank (lookup key h)) j (sort_strings (keys h)) [],
        any-sort_strings (λ k. text_eq k j) (keys h),
      )
      (elim (Bool-cases (any (λ k. text_eq k j) (keys h))) [
        | inl there ↦ rw (there, lookup-some j h there)
        | inr gone ↦ rw (gone, lookup-none j h gone)
      ])

header_value-any :
    (h : Assoc Text) (name : Text)
    → is_blank (header_value h name) ≡ false
    → any (λ key. equal_fold key name) (keys h) ≡ true
unfolding header_value
header_value-any [] name e = cc
header_value-any ((k, v) ∷ h) name e = ground (arith, header_value-any h name)

set-blank :
    (h : Assoc Text) (name value : Text)
    → is_blank value ≡ true
    → set_missing_header h name value ≡ h
unfolding set_missing_header
set-blank h name value e = rw e

set-there :
    (h : Assoc Text) (name value : Text)
    → any (λ key. equal_fold key name) (keys h) ≡ true
    → set_missing_header h name value ≡ h
unfolding set_missing_header
set-there h name value e = ground (arith, e)

any-keys-from :
    (test : Text → Bool) (h : Assoc Text)
    → test [] ≡ false
    → any test (keys (map_from_har (map_to_har h))) ≡ any test (keys h)
unfolding map_to_har map_from_har
any-keys-from test h e =
    any-keys-add_all (λ key. or_blank (lookup key h)) test (sort_strings (keys h)) [] e
    ∙ ground (arith, any-sort_strings test (keys h))

no_name : equal_fold [] (str "Content-Type") ≡ false
unfolding equal_fold
no_name = refl

-- The type that the body carries is in the headers already.
pub type_is_there :
    (h : Assoc Text)
    → let h' = map_from_har (map_to_har h) in
      set_missing_header h' (str "Content-Type") (header_value h (str "Content-Type")) ≡ h'
type_is_there h =
    let name = str "Content-Type" in
    elim (Bool-cases (is_blank (header_value h name))) [
      | inl blank ↦ set-blank (map_from_har (map_to_har h)) name (header_value h name) blank
      | inr found ↦
          set-there (map_from_har (map_to_har h)) name (header_value h name)
            (any-keys-from (λ key. equal_fold key name) h no_name ∙ header_value-any h name found)
    ]
