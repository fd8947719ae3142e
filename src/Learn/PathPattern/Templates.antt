-- ===== src/Learn/PathPattern/Templates.antt =====
-- The templates of path_pattern.go: their parameters, and the paths that share one.
use api_x.Base.{
  ℕ, zero, suc, ◌+◌, ◌≤◌, Text, str, List, [], ◌∷◌, ◌++◌, All, All-mono, ◌≡◌, ◌≢◌, ◌↔◌, refl, sym,
  ap, ◌∙◌, arith, Bool-cases, Option-cases, inl, inr,
}
use api_x.Base.Strings.{itoa, join}
use api_x.Base.Decimal.{eq_of_itoa, eq_zero_of_itoa}
use mathlib.Core.List.{append-nil}
use api_x.Learn.PathPattern.{
  PathParameter, UrlLib, param_name, Segment, number, uuid, literal, part, template_from,
  segments_of, parts_of_path, template_of, is_root, of_path, normalize_path,
}

tails : (s t : Text) → str "id" ++ s ≡ str "id" ++ t → s ≡ t
tails s t e = cc

-- Different counts give different names.
param_name_inj : (a b : ℕ) → param_name a ≡ param_name b → a ≡ b
unfolding param_name
param_name_inj zero zero e = refl
param_name_inj zero (suc b) e =
    absurd (
      omega (arith, eq_zero_of_itoa (suc b + 1) (sym (tails [] (itoa (suc b + 1)) (ground arith)))))
param_name_inj (suc a) zero e =
    absurd (omega (arith, eq_zero_of_itoa (suc a + 1) (tails (itoa (suc a + 1)) [] (ground arith))))
param_name_inj (suc a) (suc b) e =
    let same = tails (itoa (suc a + 1)) (itoa (suc b + 1)) (ground arith) in
    let same' =
      eq_of_itoa (suc a + 1) (suc b + 1) [] [] tt tt
        (append-nil (itoa (suc a + 1)) ∙ same ∙ sym (append-nil (itoa (suc b + 1)))) in
    omega (arith, same')

-- No two of the parameters have one name.
abbrev pub HaveOwnNames : List PathParameter → Type 0
HaveOwnNames [] = Unit
HaveOwnNames (p ∷ ps) = All (λ q. q.name ≢ p.name) ps × HaveOwnNames ps

-- A parameter that is named after so many others.
abbrev NamedFrom : ℕ → PathParameter → Type 0
NamedFrom seen p = (k : ℕ) × (seen ≤ k) × (p.name ≡ param_name k)

later_NamedFrom :
    (seen : ℕ) (ps : List PathParameter) → All (NamedFrom (seen + 1)) ps → All (NamedFrom seen) ps
later_NamedFrom seen ps = All-mono ps (λ p (k, le, e). (k, omega (arith, le), e))

not_taken :
    (seen : ℕ) (ps : List PathParameter)
    → All (NamedFrom (seen + 1)) ps
    → All (λ q. q.name ≢ param_name seen) ps
not_taken seen ps =
    All-mono ps
      (λ p (k, le, e) same. absurd (omega (arith, le, param_name_inj k seen (sym e ∙ same))))

template-names :
    (seen : ℕ) (ss : List Segment)
    → All (NamedFrom seen) (template_from seen ss).1 × HaveOwnNames (template_from seen ss).1
unfolding template_from
template-names seen [] = (tt, tt)
template-names seen (literal s ∷ ss) = template-names seen ss
template-names seen (number ∷ ss) =
    let (named, own) = template-names (seen + 1) ss in
    (
      ((seen, omega arith, refl), later_NamedFrom seen (template_from (seen + 1) ss).1 named),
      (not_taken seen (template_from (seen + 1) ss).1 named, own),
    )
template-names seen (uuid ∷ ss) =
    let (named, own) = template-names (seen + 1) ss in
    (
      ((seen, omega arith, refl), later_NamedFrom seen (template_from (seen + 1) ss).1 named),
      (not_taken seen (template_from (seen + 1) ss).1 named, own),
    )

of_path-HaveOwnNames : (lib : UrlLib) (path : Text) → HaveOwnNames (of_path lib path).1
unfolding of_path
of_path-HaveOwnNames lib path = elim (Bool-cases (is_root (parts_of_path path))) [
  | inl root ↦ rw root tt
  | inr deep ↦ rw deep (template-names 0 (segments_of lib (parts_of_path path))).1
]

-- The parameters of a normalized URL have names of their own.
pub normalize_path-HaveOwnNames :
    (lib : UrlLib) (raw_url : Text) → HaveOwnNames (normalize_path lib raw_url).1
unfolding normalize_path
normalize_path-HaveOwnNames lib raw_url = elim (Option-cases (lib.escaped_path raw_url)) [
  | inl wrong ↦ rw wrong tt
  | inr (path, e) ↦ rw e (of_path-HaveOwnNames lib path)
]

-- Segments that a template does not tell apart: parameters of any kind, and equal literals.
abbrev pub Alike : List Segment → List Segment → Type 0
Alike [] [] = Unit
Alike (literal s ∷ ss) (literal t ∷ ts) = (s ≡ t) × Alike ss ts
Alike (literal s ∷ ss) _ = ⊥
Alike (_ ∷ ss) (literal t ∷ ts) = ⊥
Alike (_ ∷ ss) (_ ∷ ts) = Alike ss ts
Alike _ _ = ⊥

-- No literal starts with a brace.
abbrev pub HasNoBrace : Segment → Type 0
HasNoBrace (literal (c ∷ s)) = c ≢ b'{'
HasNoBrace _ = Unit

-- Such a literal is no parameter.
not_literal :
    (s name : Text) (ts us : List Text) → HasNoBrace (literal s) → s ∷ ts ≡ (b'{' ∷ name) ∷ us → ⊥
not_literal [] name ts us h e = cc
not_literal (c ∷ s) name ts us h e = h (cc)

abbrev pub parts_of : ℕ → List Segment → List Text
parts_of seen ss = (template_from seen ss).0

parts-Alike : (seen : ℕ) (ss ts : List Segment) → Alike ss ts → parts_of seen ss ≡ parts_of seen ts
unfolding template_from
parts-Alike seen [] [] h = refl
parts-Alike seen (literal s ∷ ss) (literal t ∷ ts) h =
    rw (h.0) (ap (◌∷◌ t) (parts-Alike seen ss ts h.1))
parts-Alike seen (number ∷ ss) (number ∷ ts) h =
    ap (◌∷◌ (part number (param_name seen))) (parts-Alike (seen + 1) ss ts h)
parts-Alike seen (number ∷ ss) (uuid ∷ ts) h =
    ap (◌∷◌ (part number (param_name seen))) (parts-Alike (seen + 1) ss ts h)
parts-Alike seen (uuid ∷ ss) (number ∷ ts) h =
    ap (◌∷◌ (part number (param_name seen))) (parts-Alike (seen + 1) ss ts h)
parts-Alike seen (uuid ∷ ss) (uuid ∷ ts) h =
    ap (◌∷◌ (part number (param_name seen))) (parts-Alike (seen + 1) ss ts h)
parts-Alike seen [] (_ ∷ ts) h = elim h [ ]
parts-Alike seen (number ∷ ss) [] h = elim h [ ]
parts-Alike seen (number ∷ ss) (literal t ∷ ts) h = elim h [ ]
parts-Alike seen (uuid ∷ ss) [] h = elim h [ ]
parts-Alike seen (uuid ∷ ss) (literal t ∷ ts) h = elim h [ ]
parts-Alike seen (literal s ∷ ss) [] h = elim h [ ]
parts-Alike seen (literal s ∷ ss) (number ∷ ts) h = elim h [ ]
parts-Alike seen (literal s ∷ ss) (uuid ∷ ts) h = elim h [ ]

Alike-parts :
    (seen : ℕ) (ss ts : List Segment)
    → All HasNoBrace ss
    → All HasNoBrace ts
    → parts_of seen ss ≡ parts_of seen ts
    → Alike ss ts
unfolding template_from
Alike-parts seen [] [] g h e = tt
Alike-parts seen [] (t ∷ ts) g h e = cc
Alike-parts seen (literal s ∷ ss) [] g h e = cc
Alike-parts seen (number ∷ ss) [] g h e = cc
Alike-parts seen (uuid ∷ ss) [] g h e = cc
Alike-parts seen (literal s ∷ ss) (literal t ∷ ts) g h e = (cc, Alike-parts seen ss ts g.1 h.1 (cc))
Alike-parts seen (literal s ∷ ss) (number ∷ ts) g h e = not_literal s _ _ _ g.0 e
Alike-parts seen (literal s ∷ ss) (uuid ∷ ts) g h e = not_literal s _ _ _ g.0 e
Alike-parts seen (number ∷ ss) (literal t ∷ ts) g h e = not_literal t _ _ _ h.0 (sym e)
Alike-parts seen (uuid ∷ ss) (literal t ∷ ts) g h e = not_literal t _ _ _ h.0 (sym e)
Alike-parts seen (number ∷ ss) (number ∷ ts) g h e = Alike-parts (seen + 1) ss ts g.1 h.1 (cc)
Alike-parts seen (number ∷ ss) (uuid ∷ ts) g h e = Alike-parts (seen + 1) ss ts g.1 h.1 (cc)
Alike-parts seen (uuid ∷ ss) (number ∷ ts) g h e = Alike-parts (seen + 1) ss ts g.1 h.1 (cc)
Alike-parts seen (uuid ∷ ss) (uuid ∷ ts) g h e = Alike-parts (seen + 1) ss ts g.1 h.1 (cc)

-- Lists of segments without a brace at the start of a literal have the same parts exactly if they are alike.
pub parts-iff-Alike :
    (seen : ℕ) (ss ts : List Segment)
    → All HasNoBrace ss
    → All HasNoBrace ts
    → (parts_of seen ss ≡ parts_of seen ts) ↔ Alike ss ts
parts-iff-Alike seen ss ts g h = (Alike-parts seen ss ts g h, parts-Alike seen ss ts)

abbrev pub IsLiteral : Segment → Type 0
IsLiteral (literal s) = Unit
IsLiteral _ = ⊥

literals :
    (m n : ℕ) (ss : List Segment)
    → All IsLiteral ss
    → (template_from m ss ≡ template_from n ss) × ((template_from m ss).1 ≡ [])
unfolding template_from
literals m n [] h = (refl, refl)
literals m n (literal s ∷ ss) h =
    let (same, blank) = literals m n ss h.1 in (ap (λ t. (s ∷ t.0, t.1)) same, blank)
literals m n (number ∷ ss) h = absurd (h.0)
literals m n (uuid ∷ ss) h = absurd (h.0)

-- A literal that is spelled like the parameter has its template, but not the parameter, where only
-- literals follow.
pub literal_collides :
    (ss : List Segment)
    → All IsLiteral ss
    → ((template_of (literal (str "{id}") ∷ ss)).0 ≡ (template_of (number ∷ ss)).0)
      × ((template_of (literal (str "{id}") ∷ ss)).1 ≡ [])
      × ((template_of (number ∷ ss)).1
          ≡ record { name = str "id"; kind = str "integer"; format = [] } ∷ [])
unfolding template_from
literal_collides ss h =
    let (same, blank) = literals 0 1 ss h in
    let (_, blank') = literals 1 1 ss h in
    (
      ap (λ t. b'/' ∷ join (str "/") (str "{id}" ∷ t.0)) same,
      blank,
      ap (◌∷◌ (record { name = str "id"; kind = str "integer"; format = [] })) blank',
    )
