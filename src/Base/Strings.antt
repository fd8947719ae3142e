-- ===== src/Base/Strings.antt =====
-- Go's `string` and `[]byte`: a list of bytes, with the functions of `strings` and `bytes` that the
-- code calls. Letter case and white space are those of ASCII: methods, header names, configuration
-- words and media types are ASCII, and other bytes are left as they are.
use Prim.Native.Nat.{ℕ, ◌+◌, ◌-◌, ◌/◌, ◌%◌}
use Prim.Native.Char.{code}
use Prim.Native.String.{String}
use mathlib.Core.Path.{◌≡◌, refl}
use mathlib.Core.Bool.{Bool, true, false, ◌&&◌, ◌||◌}
use mathlib.Core.List.{List, [], ◌∷◌, ◌++◌, map, reverse}
use mathlib.Core.Logic.{◌↔◌}
use native.Mathlib.Omega.{arith}
use api_x.Base.Tests.{◌==◌, leb, ltb, if◌then◌else◌}

abbrev pub Text : Type 0
Text = List ℕ

-- A literal of the source, in ASCII.
abbrev pub str : String → Text
str String.[] = []
str (String.◌∷◌ c s) = code c ∷ str s

-- `s == t`
unfoldable pub text_eq : Text → Text → Bool
text_eq [] [] = true
text_eq (a ∷ s) (b ∷ t) = (a == b) && text_eq s t
text_eq _ _ = false

pub text_eq_iff : (s t : Text) → (text_eq s t ≡ true) ↔ (s ≡ t)
unfolding text_eq
text_eq_iff [] [] = ground arith
text_eq_iff [] (b ∷ t) = ground arith
text_eq_iff (a ∷ s) [] = ground arith
text_eq_iff (a ∷ s) (b ∷ t) = ground (arith, text_eq_iff s t)

pub text_eq_refl : (s : Text) → text_eq s s ≡ true
text_eq_refl s = (text_eq_iff s s).1 refl

-- `s == ""`
abbrev pub is_blank : Text → Bool
is_blank [] = true
is_blank (c ∷ s) = false

-- `strings.HasPrefix(s, t)`
unfoldable pub has_prefix : Text → Text → Bool
has_prefix s [] = true
has_prefix [] (b ∷ t) = false
has_prefix (a ∷ s) (b ∷ t) = (a == b) && has_prefix s t

-- `strings.HasSuffix(s, t)`
unfoldable pub has_suffix : Text → Text → Bool
unfolding has_prefix
has_suffix s t = has_prefix (reverse s) (reverse t)

-- `strings.Contains(s, t)`, `bytes.Contains(s, t)`
unfoldable pub contains : Text → Text → Bool
unfolding has_prefix
contains [] t = has_prefix [] t
contains (a ∷ s) t = has_prefix (a ∷ s) t || contains s t

unfoldable pub lower_byte : ℕ → ℕ
lower_byte c = if leb b'A' c && leb c b'Z' then c + 32 else c

unfoldable pub upper_byte : ℕ → ℕ
upper_byte c = if leb b'a' c && leb c b'z' then c - 32 else c

-- `strings.ToLower(s)`
unfoldable pub to_lower : Text → Text
unfolding lower_byte
to_lower = map lower_byte

-- `strings.ToUpper(s)`
unfoldable pub to_upper : Text → Text
unfolding upper_byte
to_upper = map upper_byte

-- `strings.EqualFold(s, t)`
unfoldable pub equal_fold : Text → Text → Bool
unfolding to_lower text_eq
equal_fold s t = text_eq (to_lower s) (to_lower t)

pub equal_fold_refl : (s : Text) → equal_fold s s ≡ true
unfolding equal_fold
equal_fold_refl s = text_eq_refl (to_lower s)

pub equal_fold_iff : (s t : Text) → (equal_fold s t ≡ true) ↔ (to_lower s ≡ to_lower t)
unfolding equal_fold
equal_fold_iff s t = text_eq_iff (to_lower s) (to_lower t)

-- The bytes that the test accepts are cut from the front.
unfoldable pub trim_left : (ℕ → Bool) → Text → Text
trim_left test [] = []
trim_left test (c ∷ s) = let rest = trim_left test s in if test c then rest else c ∷ s

-- `strings.TrimFunc(s, test)`
unfoldable pub trim : (ℕ → Bool) → Text → Text
unfolding trim_left
trim test s = reverse (trim_left test (reverse (trim_left test s)))

abbrev pub is_space : ℕ → Bool
is_space c = c == 32 || (leb 9 c && leb c 13)

-- `strings.TrimSpace(s)`
unfoldable pub trim_space : Text → Text
unfolding trim
trim_space = trim is_space

folds : equal_fold (str "gEt") (str "GET") ≡ true
unfolding equal_fold
folds = refl

finds : contains (str "/api/users") (str "/users") ≡ true
unfolding contains
finds = refl

trims : trim_space (str " a b ") ≡ str "a b"
unfolding trim_space
trims = refl

-- The decimal digits of a number, on fuel: a number has fewer digits than its successor says.
unfoldable pub digits : ℕ → ℕ → Text
digits ℕ.zero n = []
digits (ℕ.suc fuel) n =
    let more = digits fuel (n / 10) in
    if ltb n 10 then (48 + n) ∷ [] else more ++ (48 + n % 10) ∷ []

-- `strconv.Itoa(n)`
unfoldable pub itoa : ℕ → Text
unfolding digits
itoa n = digits (n + 1) n

-- `strings.Join(parts, sep)`
unfoldable pub join : Text → List Text → Text
join sep [] = []
join sep (s ∷ []) = s
join sep (s ∷ t ∷ parts) = s ++ sep ++ join sep (t ∷ parts)

prints : itoa 1024 ≡ str "1024"
unfolding itoa
prints = refl

abbrev onto_first : ℕ → List Text → List Text
onto_first c [] = (c ∷ []) ∷ []
onto_first c (s ∷ ss) = (c ∷ s) ∷ ss

-- `strings.Split(s, sep)`, for a separator of one byte
unfoldable pub split : Text → ℕ → List Text
split [] sep = [] ∷ []
split (c ∷ s) sep = let rest = split s sep in if c == sep then [] ∷ rest else onto_first c rest
