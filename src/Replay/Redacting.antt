-- ===== src/Replay/Redacting.antt =====
-- What the copy of internal/replay/filter.go leaves of the headers of a request.
use api_x.Base.{Text, Bool, true, some, List, [], ◌∷◌, ◌++◌, ◌≡◌, arith, any, if◌then◌else◌}
use api_x.Base.Maps.{Assoc, lookup}
use api_x.Base.Strings.{text_eq, text_eq_iff, to_lower, equal_fold}
use api_x.Replay.{RecordingFilter, redacted, is_excluded, redact_headers}

any_within :
    (test : Text → Bool) (before : List Text) (x : Text) (after : List Text)
    → test x ≡ true
    → any test (before ++ x ∷ after) ≡ true
any_within test [] x after h = ground arith
any_within test (y ∷ before) x after h = ground (arith, any_within test before x after h)

redact-lookup :
    (f : RecordingFilter) (headers : Assoc Text) (k v : Text)
    → lookup k headers ≡ some v
    → lookup k (redact_headers f headers) ≡ some (if is_excluded f k then redacted else v)
unfolding redact_headers lookup
redact-lookup f [] k v h = ground arith
redact-lookup f ((j, w) ∷ headers) k v h =
    ground (arith, text_eq_iff j k, redact-lookup f headers k v)

-- In the copy of the headers that RedactHeaders gives, which nothing but tests asks for, a header that the
-- filter excludes, in whatever spelling of its name, stands as redacted, whatever its value, and
-- whatever else the filter excludes.
pub excluded_value_hidden :
    (f : RecordingFilter) (before : List Text) (name : Text) (after : List Text)
    (headers : Assoc Text) (k v : Text)
    → f.exclude_headers ≡ before ++ name ∷ after
    → equal_fold name k ≡ true
    → lookup k headers ≡ some v
    → lookup k (redact_headers f headers) ≡ some redacted
unfolding equal_fold
excluded_value_hidden f before name after headers k v e same h =
    let test : Text → Bool = λ x. text_eq (to_lower x) (to_lower k) in
    let excluded : is_excluded f k ≡ true = rw (e) (any_within test before name after same) in
    rw (redact-lookup f headers k v h, excluded)
