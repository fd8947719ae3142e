-- ===== src/Header/Laws.antt =====
-- What the header helpers of internal/http accept and set.
use mathlib.Core.List.{reverse, reverse-append, reverse-reverse, reverse-cons}
use api_x.Base.{
  ℕ, ◌<◌, Text, ◌≡◌, refl, ◌↔◌, ◌⊎◌, inl, inr, Bool, true, false, ◌||◌, not, Option, none, some,
  List, [], ◌∷◌, ◌++◌, arith, any, Bool-cases, holds_below, holds_below-at, same, eq_of_same, ◌≢◌,
  All, ltb,
}
use api_x.Base.Strings.{trim, trim_left, text_eq}
use api_x.Base.Maps.{Assoc, lookup, lookup-insert}
use api_x.Header.{
  Header, set, canonical_key, canonical_header, set_checked, is_token_byte, name_byte_ok,
  is_valid_header_name, is_valid_header_value, value_byte_ok, is_line_end, set_valid_headers,
}

agree_ascii : holds_below (λ c. same (name_byte_ok c) (is_token_byte c)) 127 ≡ true
unfolding holds_below name_byte_ok is_token_byte
agree_ascii = refl

token_byte-lt : (c : ℕ) → is_token_byte c ≡ true → c < 127
unfolding is_token_byte
token_byte-lt c h = ground arith

name_byte-lt : (c : ℕ) → name_byte_ok c ≡ true → c < 127
unfolding name_byte_ok
name_byte-lt c h = ground arith

-- The test of the loop is that of a token byte.
name_byte_ok-eq-is_token_byte : (c : ℕ) → name_byte_ok c ≡ is_token_byte c
name_byte_ok-eq-is_token_byte c = elim (Bool-cases (ltb c 127)) [
  | inl low ↦ eq_of_same _ _ (
      holds_below-at (λ b. same (name_byte_ok b) (is_token_byte b)) 127 c (ground arith)
        agree_ascii)
  | inr high ↦ ground (arith, token_byte-lt c, name_byte-lt c)
]

-- An RFC 7230 token: not empty, and every byte a token byte.
abbrev pub IsToken : Text → Type 0
IsToken name = (name ≢ []) × All (λ c. is_token_byte c ≡ true) name

All-of_any :
    (name : Text)
    → any (λ c. not (name_byte_ok c)) name ≡ false
    → All (λ c. is_token_byte c ≡ true) name
All-of_any [] h = tt
All-of_any (c ∷ name) h =
    (ground (arith, name_byte_ok-eq-is_token_byte c), All-of_any name (ground arith))

any_of_All :
    (name : Text)
    → All (λ c. is_token_byte c ≡ true) name
    → any (λ c. not (name_byte_ok c)) name ≡ false
any_of_All [] h = refl
any_of_All (c ∷ name) h = ground (arith, name_byte_ok-eq-is_token_byte c, any_of_All name)

pub false_of_not : (b : Bool) → not b ≡ true → b ≡ false
false_of_not b h = ground arith

-- `IsValidHeaderName` accepts exactly the RFC 7230 tokens.
pub is_valid_header_name-iff-IsToken :
    (name : Text) → (is_valid_header_name name ≡ true) ↔ IsToken name
unfolding is_valid_header_name
is_valid_header_name-iff-IsToken [] = (λ h. cc, λ h. absurd (h.0 refl))
is_valid_header_name-iff-IsToken (c ∷ name) =
    (λ h. (λ e. cc, All-of_any (c ∷ name) (false_of_not _ h)), λ h. rw (any_of_All (c ∷ name) h.1))

any-append {ℓ} :
    {A : Type ℓ} (p : A → Bool) (xs ys : List A) → any p (xs ++ ys) ≡ (any p xs || any p ys)
any-append p [] ys = refl
any-append p (x ∷ xs) ys = ground (arith, any-append p xs ys)

-- A value with no byte that `IsValidHeaderValue` refuses: no control byte but the tab.
abbrev pub IsClean : Text → Type 0
IsClean v = any (λ c. not (value_byte_ok c)) v ≡ false

abbrev pub crlf : Text
crlf = 13 ∷ 10 ∷ []

any-reverse : (p : ℕ → Bool) (s : Text) → any p (reverse s) ≡ any p s
any-reverse p [] = refl
any-reverse p (c ∷ s) =
    rw (reverse-cons, any-append p (reverse s) (c ∷ []), any-reverse p s) (ground arith)

trim_left_clean : (s : Text) → IsClean s → trim_left is_line_end s ≡ s
unfolding trim_left
trim_left_clean [] h = refl
trim_left_clean (c ∷ s) h = ground arith

trim_left-crlf :
    (c : ℕ) (s : Text) → IsClean (c ∷ s) → trim_left is_line_end (c ∷ s ++ crlf) ≡ c ∷ s ++ crlf
unfolding trim_left
trim_left-crlf c s h = ground arith

trim_left_line_end :
    (s : Text) → trim_left is_line_end (reverse crlf ++ s) ≡ trim_left is_line_end s
unfolding trim_left
trim_left_line_end s = refl

-- Behind a clean value the trim takes the line end away.
trim-crlf : (c : ℕ) (v : Text) → IsClean (c ∷ v) → trim is_line_end ((c ∷ v) ++ crlf) ≡ c ∷ v
unfolding trim
trim-crlf c v h = rw (
  trim_left-crlf c v h,
  reverse-append (c ∷ v) crlf,
  trim_left_line_end,
  trim_left_clean (reverse (c ∷ v)) (rw (any-reverse _ (c ∷ v)) h),
  reverse-reverse,
)

-- `IsValidHeaderValue` accepts a clean value that ends in a line end, though CR and LF are control
-- bytes.
pub valid_with_line_end : (v : Text) → IsClean v → is_valid_header_value (v ++ crlf) ≡ true
unfolding is_valid_header_value
valid_with_line_end [] h = refl
valid_with_line_end (c ∷ v) h = rw (trim-crlf c v h, h)

-- Where a value of the result comes from: the destination, or one accepted pair of the source.
abbrev pub CameFrom : Header → Text → List Text → Type 0
CameFrom dst k vs =
    (lookup k dst ≡ some vs) ⊎ ((v : Text) × (vs ≡ v ∷ []) × (is_valid_header_value v ≡ true))

set_checked-CameFrom :
    (name : Option Text) (v k : Text) (vs : List Text) (dst : Header)
    → lookup k (set_checked name v dst) ≡ some vs
    → CameFrom dst k vs
unfolding set
set_checked-CameFrom none v k vs dst h = inl h
set_checked-CameFrom (some n) v k vs dst h = elim (Bool-cases (is_valid_header_value v)) [
  | inl valid ↦ elim (Bool-cases (text_eq (canonical_key n) k)) [
    | inl here ↦ inr (v, ground (arith, lookup-insert (canonical_key n) k (v ∷ []) dst), valid)
    | inr other ↦ inl (ground (arith, lookup-insert (canonical_key n) k (v ∷ []) dst))
  ]
  | inr invalid ↦ inl (rw invalid at h)
]

-- Every value that `SetValidHeaders` leaves in the destination was there before, or is one value
-- of the source that passed `IsValidHeaderValue` and stands alone under its name.
pub set_valid_headers-CameFrom :
    (src : Assoc Text) (dst : Header) (k : Text) (vs : List Text)
    → lookup k (set_valid_headers dst src) ≡ some vs
    → CameFrom dst k vs
unfolding set_valid_headers
set_valid_headers-CameFrom [] dst k vs h = inl h
set_valid_headers-CameFrom ((j, v) ∷ src) dst k vs h =
    elim (set_valid_headers-CameFrom src (set_checked (canonical_header j) v dst) k vs h) [
      | inl e ↦ set_checked-CameFrom (canonical_header j) v k vs dst e
      | inr there ↦ inr there
    ]
