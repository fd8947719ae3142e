-- ===== src/Learn/PathPattern/Joined.antt =====
-- Whole templates of path_pattern.go, whose parts `strings.Join` puts together.
use api_x.Base.{
  ℕ, zero, suc, ◌+◌, ◌/◌, Text, str, List, [], ◌∷◌, ◌++◌, All, ◌≡◌, ◌≢◌, ◌↔◌, refl, sym, ap, ◌∙◌,
  arith, ltb, ◌==◌, Bool-cases, inl, inr,
}
use api_x.Base.Strings.{digits, itoa, join}
use mathlib.Core.List.{append_assoc}
use api_x.Learn.PathPattern.{param_name, Segment, number, uuid, literal, template_from, template_of}
use api_x.Learn.PathPattern.Templates.{Alike, HasNoBrace, parts_of, parts-iff-Alike}

-- No byte of it is a slash.
abbrev pub IsWhole : Text → Type 0
IsWhole s = All (λ c. c ≢ b'/') s

IsWhole-append : (s t : Text) → IsWhole s → IsWhole t → IsWhole (s ++ t)
IsWhole-append [] t g h = h
IsWhole-append (c ∷ s) t g h = (g.0, IsWhole-append s t g.1 h)

digits-IsWhole : (fuel n : ℕ) → IsWhole (digits fuel n)
unfolding digits
digits-IsWhole zero n = tt
digits-IsWhole (suc fuel) n = elim (Bool-cases (ltb n 10)) [
  | inl small ↦ rw small (λ e. omega arith, tt)
  | inr big ↦ rw big (
      IsWhole-append (digits fuel (n / 10)) _ (digits-IsWhole fuel (n / 10)) (λ e. omega arith, tt))
]

-- What a part is up to the next slash.
first_same :
    (s t u v : Text) → IsWhole s → IsWhole t → s ++ b'/' ∷ u ≡ t ++ b'/' ∷ v → (s ≡ t) × (u ≡ v)
first_same [] [] u v g h e = (refl, cc)
first_same [] (c ∷ t) u v g h e = absurd (h.0 (cc))
first_same (c ∷ s) [] u v g h e = absurd (g.0 (cc))
first_same (c ∷ s) (d ∷ t) u v g h e =
    let (same, rest) = first_same s t u v g.1 h.1 (cc) in (cc, rest)

ends_before_slash : (s t v : Text) → IsWhole s → s ≡ t ++ b'/' ∷ v → ⊥
ends_before_slash [] [] v g e = cc
ends_before_slash [] (d ∷ t) v g e = cc
ends_before_slash (c ∷ s) [] v g e = g.0 (cc)
ends_before_slash (c ∷ s) (d ∷ t) v g e = ends_before_slash s t v g.1 (cc)

join-cons :
    (s t : Text) (ts : List Text)
    → join (str "/") (s ∷ t ∷ ts) ≡ s ++ b'/' ∷ join (str "/") (t ∷ ts)
unfolding join
join-cons s t ts = append_assoc s (str "/") (join (str "/") (t ∷ ts))

join_inj :
    (s t : Text) (ss ts : List Text)
    → All IsWhole (s ∷ ss)
    → All IsWhole (t ∷ ts)
    → join (str "/") (s ∷ ss) ≡ join (str "/") (t ∷ ts)
    → s ∷ ss ≡ t ∷ ts
unfolding join
join_inj s t [] [] g h e = cc
join_inj s t [] (t' ∷ ts) g h e =
    absurd (ends_before_slash s t (join (str "/") (t' ∷ ts)) g.0 (e ∙ join-cons t t' ts))
join_inj s t (s' ∷ ss) [] g h e =
    absurd (ends_before_slash t s (join (str "/") (s' ∷ ss)) h.0 (sym e ∙ join-cons s s' ss))
join_inj s t (s' ∷ ss) (t' ∷ ts) g h e =
    let (same, rest) =
      first_same s t (join (str "/") (s' ∷ ss)) (join (str "/") (t' ∷ ts)) g.0 h.0
        (sym (join-cons s s' ss) ∙ e ∙ join-cons t t' ts) in
    let tails = join_inj s' t' ss ts g.1 h.1 rest in cc

-- No literal holds a slash.
abbrev pub HasNoSlash : Segment → Type 0
HasNoSlash (literal s) = IsWhole s
HasNoSlash _ = Unit

param_name-IsWhole : (seen : ℕ) → IsWhole (param_name seen)
unfolding param_name itoa
param_name-IsWhole seen = elim (Bool-cases (seen == 0)) [
  | inl first ↦ rw first (λ e. omega arith, (λ e. omega arith, tt))
  | inr later ↦ rw later (
      IsWhole-append (str "id") (itoa (seen + 1)) (λ e. omega arith, (λ e. omega arith, tt))
        (digits-IsWhole (seen + 1 + 1) (seen + 1)))
]

braced-IsWhole : (name : Text) → IsWhole name → IsWhole (b'{' ∷ name ++ b'}' ∷ [])
braced-IsWhole name h = (λ e. omega arith, IsWhole-append name (b'}' ∷ []) h (λ e. omega arith, tt))

parts-IsWhole : (seen : ℕ) (ss : List Segment) → All HasNoSlash ss → All IsWhole (parts_of seen ss)
unfolding template_from
parts-IsWhole seen [] h = tt
parts-IsWhole seen (literal s ∷ ss) h = (h.0, parts-IsWhole seen ss h.1)
parts-IsWhole seen (number ∷ ss) h =
    (braced-IsWhole _ (param_name-IsWhole seen), parts-IsWhole (seen + 1) ss h.1)
parts-IsWhole seen (uuid ∷ ss) h =
    (braced-IsWhole _ (param_name-IsWhole seen), parts-IsWhole (seen + 1) ss h.1)

same_parts :
    (s t : Segment) (ss ts : List Segment)
    → All HasNoSlash (s ∷ ss)
    → All HasNoSlash (t ∷ ts)
    → (template_of (s ∷ ss)).0 ≡ (template_of (t ∷ ts)).0
    → parts_of 0 (s ∷ ss) ≡ parts_of 0 (t ∷ ts)
unfolding template_from
same_parts s t ss ts g h e =
    join_inj _ _ _ _ (parts-IsWhole 0 (s ∷ ss) g) (parts-IsWhole 0 (t ∷ ts) h) (cc)

-- Two paths of at least one segment, none of whose literals starts with a brace or holds a slash, have one
-- template exactly if they are alike: equal literals, and parameters of any kind, at the same places.
pub template-iff-Alike :
    (s t : Segment) (ss ts : List Segment)
    → All HasNoBrace (s ∷ ss)
    → All HasNoBrace (t ∷ ts)
    → All HasNoSlash (s ∷ ss)
    → All HasNoSlash (t ∷ ts)
    → ((template_of (s ∷ ss)).0 ≡ (template_of (t ∷ ts)).0) ↔ Alike (s ∷ ss) (t ∷ ts)
template-iff-Alike s t ss ts g h g' h' =
    let (to, from) = parts-iff-Alike 0 (s ∷ ss) (t ∷ ts) g h in
    (
      λ e. to (same_parts s t ss ts g' h' e),
      λ alike. ap (λ parts. b'/' ∷ join (str "/") parts) (from alike),
    )

-- A segment that is unescaped to a text with a slash has the template of two segments.
slash_collides :
    (template_of (literal (str "a/b") ∷ [])).0
    ≡ (template_of (literal (str "a") ∷ literal (str "b") ∷ [])).0
unfolding template_from join
slash_collides = refl
