-- ===== src/Base/Sort.antt =====
-- `sort.Strings`: texts in the order of their bytes.
use mathlib.Core.Path.{◌≡◌, refl, ◌∙◌}
use mathlib.Core.Bool.{Bool, true, false}
use mathlib.Core.List.{List, [], ◌∷◌}
use native.Mathlib.Omega.{arith}
use api_x.Base.Tests.{◌==◌, ltb, if◌then◌else◌}
use api_x.Base.Lists.{any}
use api_x.Base.Strings.{Text}

-- `s <= t`
unfoldable pub text_le : Text → Text → Bool
text_le [] t = true
text_le (a ∷ s) [] = false
text_le (a ∷ s) (b ∷ t) =
    let rest = text_le s t in if ltb a b then true else if a == b then rest else false

unfoldable pub insert_text : Text → List Text → List Text
unfolding text_le
insert_text s [] = s ∷ []
insert_text s (t ∷ ts) = let rest = insert_text s ts in if text_le s t then s ∷ t ∷ ts else t ∷ rest

-- `sort.Strings(ts)`
unfoldable pub sort_strings : List Text → List Text
unfolding insert_text
sort_strings [] = []
sort_strings (t ∷ ts) = insert_text t (sort_strings ts)

any-insert_text :
    (test : Text → Bool) (s : Text) (ts : List Text)
    → any test (insert_text s ts) ≡ any test (s ∷ ts)
unfolding insert_text
any-insert_text test s [] = refl
any-insert_text test s (t ∷ ts) = ground (arith, any-insert_text test s ts)

-- The sorted list has the same members.
pub any-sort_strings :
    (test : Text → Bool) (ts : List Text) → any test (sort_strings ts) ≡ any test ts
unfolding sort_strings
any-sort_strings test [] = refl
any-sort_strings test (t ∷ ts) =
    any-insert_text test t (sort_strings ts) ∙ ground (arith, any-sort_strings test ts)
