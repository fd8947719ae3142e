-- ===== src/Base/Decimal.antt =====
-- Numbers in decimal can be told apart, also where a text follows that does not start with a digit.
use Prim.Native.Nat.{ℕ, zero, suc, ◌+◌, ◌-◌, ◌*◌, ◌/◌, ◌%◌, ◌<◌}
use mathlib.Core.Path.{◌≡◌, refl, sym, ap, ◌∙◌}
use mathlib.Core.Bool.{false, ◌&&◌}
use mathlib.Core.List.{[], ◌∷◌, ◌++◌, append_assoc}
use mathlib.Core.Logic.{inl, inr}
use native.Mathlib.Omega.{arith}
use api_x.Base.Tests.{leb, ltb, if◌then◌else◌, Bool-cases}
use api_x.Base.Strings.{Text, digits, itoa}

-- The number that a text starts with, behind digits that have been read.
number_from : ℕ → Text → ℕ
number_from n [] = n
number_from n (c ∷ s) =
    let rest = number_from (n * 10 + (c - 48)) s in if leb 48 c && leb c 57 then rest else n

number_from-digits :
    (fuel n : ℕ) (s : Text) → n < fuel → number_from 0 (digits fuel n ++ s) ≡ number_from n s
unfolding digits number_from
number_from-digits zero n s h = absurd (omega arith)
number_from-digits (suc fuel) n s h = elim (Bool-cases (ltb n 10)) [
  | inl small ↦ rw small (ground arith)
  | inr big ↦
      rw (big, append_assoc (digits fuel (n / 10)) ((48 + n % 10) ∷ []) s)
        (number_from-digits fuel (n / 10) ((48 + n % 10) ∷ s) (ground arith) ∙ ground arith)
]

-- A text that a number may be followed by.
abbrev pub IsPast : Text → Type 0
IsPast [] = Unit
IsPast (c ∷ s) = (leb 48 c && leb c 57) ≡ false

number_from-past : (n : ℕ) (s : Text) → IsPast s → number_from n s ≡ n
unfolding number_from
number_from-past n [] h = refl
number_from-past n (c ∷ s) h = rw h

read_back : (n : ℕ) (s : Text) → IsPast s → number_from 0 (itoa n ++ s) ≡ n
unfolding itoa
read_back n s h = number_from-digits (n + 1) n s (omega arith) ∙ number_from-past n s h

pub eq_of_itoa : (m n : ℕ) (s t : Text) → IsPast s → IsPast t → itoa m ++ s ≡ itoa n ++ t → m ≡ n
eq_of_itoa m n s t hs ht e = sym (read_back m s hs) ∙ ap (number_from 0) e ∙ read_back n t ht

pub eq_zero_of_itoa : (n : ℕ) → itoa n ≡ [] → n ≡ 0
eq_zero_of_itoa n e =
    sym (read_back n [] tt) ∙ ap (λ t. number_from 0 (t ++ [])) e ∙ number_from_nil
  where
    number_from_nil : number_from 0 [] ≡ 0
    number_from_nil = unfold number_from in refl
