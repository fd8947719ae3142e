-- ===== src/Replay/Comparing.antt =====
-- What internal/replay/diff.go reports of headers.
use api_x.Base.{Text, true, Option, none, some, List, [], ◌∷◌, ◌++◌, ◌≡◌, refl, arith}
use api_x.Base.Maps.{Assoc, lookup}
use api_x.Base.Strings.{text_eq_iff}
use api_x.Replay.{
  ReplayDiff, StoredResponse, ReplayedResponse, normalise_headers, joined_onto, or_blank, is_some,
  changed, added, diff_responses,
}

append_none : {A : Type 0} (xs ys : List A) → xs ++ ys ≡ [] → (xs ≡ []) × (ys ≡ [])
append_none [] ys h = (refl, h)
append_none (x ∷ xs) ys h = absurd (ground arith)

unchanged :
    (orig replay : Assoc Text) (k v : Text)
    → changed orig replay ≡ []
    → lookup k orig ≡ some v
    → or_blank (lookup k replay) ≡ v
unfolding changed lookup
unchanged [] replay k v h e = ground arith
unchanged ((j, ov) ∷ orig) replay k v h e =
    ground (
      arith,
      text_eq_iff j k,
      text_eq_iff ov (or_blank (lookup j replay)),
      unchanged orig replay k v,
    )

nothing_added :
    (replay orig : Assoc Text) (k v : Text)
    → added replay orig ≡ []
    → lookup k replay ≡ some v
    → is_some (lookup k orig) ≡ true
unfolding added lookup
nothing_added [] orig k v h e = ground arith
nothing_added ((j, rv) ∷ replay) orig k v h e =
    ground (arith, text_eq_iff j k, nothing_added replay orig k v)

agree :
    (k : Text) (o r : Option Text)
    → ((v : Text) → o ≡ some v → or_blank r ≡ v)
    → ((v : Text) → r ≡ some v → is_some o ≡ true)
    → or_blank r ≡ or_blank o
agree k (some v) r same known = same v refl
agree k none none same known = refl
agree k none (some v) same known = absurd (ground (arith, known v refl))

-- When no header is reported as different, every header has the same value in both responses, where a
-- missing one counts as blank; names are compared in lower case, and the values of a name are joined.
pub no_diffs_agree :
    (o : StoredResponse) (r : ReplayedResponse) (d : ReplayDiff) (k : Text)
    → diff_responses (some o) (some r) ≡ some d
    → d.header_diffs ≡ []
    → or_blank (lookup k (joined_onto [] r.header))
      ≡ or_blank (lookup k (normalise_headers o.headers))
unfolding diff_responses
no_diffs_agree o r d k h none_reported =
    let orig = normalise_headers o.headers in
    let replay = joined_onto [] r.header in
    let diffs : changed orig replay ++ added replay orig ≡ [] = ground (arith, h, none_reported) in
    let (c, a) = append_none (changed orig replay) (added replay orig) diffs in
    agree k (lookup k orig) (lookup k replay) (λ v e. unchanged orig replay k v c e)
      (λ v e. nothing_added replay orig k v a e)
