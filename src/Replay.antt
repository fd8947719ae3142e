-- ===== src/Replay.antt =====
-- internal/replay: filter.go, which requests are recorded and with which headers, and diff.go, the
-- comparison of a replayed response with the stored one. Sending is in Sending.
pub mod Sending
pub mod Redacting
pub mod Comparing
pub mod Running
mod Examples
use api_x.Base.{
  ℕ, Text, str, is_blank, Bool, true, false, ◌&&◌, not, Option, none, some, List, [], ◌∷◌, ◌++◌,
  length, any, is_empty, ◌==◌, if◌then◌else◌,
}
use api_x.Base.Int.{ℤ, pos, negsuc}
use api_x.Base.Maps.{Assoc, lookup, insert}
use api_x.Base.Strings.{text_eq, to_lower, equal_fold, has_prefix, join}
use api_x.Header.{Header}

pub record RecordingFilter : Type 0 where
  pub include_paths : List Text
  pub exclude_paths : List Text
  pub include_hosts : List Text
  pub exclude_headers : List Text

-- `ShouldRecord`, for a request with a URL: its host, or else the URL's, and the path
unfoldable pub should_record : RecordingFilter → Text → Text → Text → Bool
unfolding equal_fold has_prefix
should_record f req_host url_host path =
    let host = if is_blank req_host then url_host else req_host in
    if not (is_empty f.include_hosts) && not (any (λ h. equal_fold host h) f.include_hosts)
    then false
    else if any (λ p. has_prefix path p) f.exclude_paths
    then false
    else if is_empty f.include_paths
    then true
    else any (λ p. has_prefix path p) f.include_paths

abbrev pub redacted : Text
redacted = str "[REDACTED]"

abbrev pub is_excluded : RecordingFilter → Text → Bool
is_excluded f k = any (λ h. text_eq (to_lower h) (to_lower k)) f.exclude_headers

-- `RedactHeaders`; the map that is copied keeps its entries
unfoldable pub redact_headers : RecordingFilter → Assoc Text → Assoc Text
unfolding to_lower text_eq
redact_headers f [] = []
redact_headers f ((k, v) ∷ headers) =
    (k, if is_excluded f k then redacted else v) ∷ redact_headers f headers

pub record HeaderDiff : Type 0 where
  pub name : Text
  pub original : Text
  pub replayed : Text

pub record ReplayDiff : Type 0 where
  pub status_match : Bool
  pub status_original : ℕ
  pub status_replayed : ℕ
  pub header_diffs : List HeaderDiff
  pub body_match : Bool
  pub body_size_original : ℤ
  pub body_size_replayed : ℤ

pub record StoredResponse : Type 0 where
  pub status_code : ℕ
  pub headers : Assoc Text
  pub body : Text

-- `content_length` is -1 where the response did not say.
pub record ReplayedResponse : Type 0 where
  pub status_code : ℕ
  pub header : Header
  pub content_length : ℤ

-- The loop of `normaliseHeaders`, in the order of the range loop.
unfoldable pub normalise_onto : Assoc Text → Assoc Text → Assoc Text
unfolding insert to_lower
normalise_onto out [] = out
normalise_onto out ((k, v) ∷ h) = normalise_onto (insert (to_lower k) v out) h

-- `normaliseHeaders`
unfoldable pub normalise_headers : Assoc Text → Assoc Text
unfolding normalise_onto
normalise_headers h = normalise_onto [] h

-- The replayed headers with the values of a name joined.
unfoldable pub joined_onto : Assoc Text → Header → Assoc Text
unfolding insert to_lower join
joined_onto out [] = out
joined_onto out ((k, vals) ∷ h) = joined_onto (insert (to_lower k) (join (str ", ") vals) out) h

abbrev pub or_blank : Option Text → Text
or_blank none = []
or_blank (some v) = v

abbrev pub is_some : {A : Type 0} → Option A → Bool
is_some none = false
is_some (some a) = true

-- The loop over the original headers.
unfoldable pub changed : Assoc Text → Assoc Text → List HeaderDiff
unfolding lookup text_eq
changed [] replay = []
changed ((k, ov) ∷ rest) replay =
    let rv = or_blank (lookup k replay) in
    let later = changed rest replay in
    if text_eq ov rv then later else record { name = k; original = ov; replayed = rv } ∷ later

-- The loop over the replayed headers, of those that the original has not.
unfoldable pub added : Assoc Text → Assoc Text → List HeaderDiff
unfolding lookup
added [] orig = []
added ((k, rv) ∷ rest) orig =
    let later = added rest orig in
    if is_some (lookup k orig)
    then later
    else record { name = k; original = []; replayed = rv } ∷ later

abbrev pub size_of : ℤ → ℤ
size_of (pos n) = pos n
size_of (negsuc n) = pos 0

abbrev same_size : ℤ → ℤ → Bool
same_size (pos m) (pos n) = m == n
same_size _ _ = false

abbrev no_diff : ReplayDiff
no_diff = record {
  status_match = false;
  status_original = 0;
  status_replayed = 0;
  header_diffs = [];
  body_match = false;
  body_size_original = pos 0;
  body_size_replayed = pos 0;
}

-- `DiffResponses`; none is the panic on a replayed response that is nil
unfoldable pub diff_responses : Option StoredResponse → Option ReplayedResponse → Option ReplayDiff
unfolding normalise_headers joined_onto changed added
diff_responses none none = some no_diff
diff_responses none (some r) =
    some (record no_diff { status_replayed = r.status_code; body_size_replayed = r.content_length })
diff_responses (some o) none = none
diff_responses (some o) (some r) =
    let orig = normalise_headers o.headers in
    let replay = joined_onto [] r.header in
    let size = pos (length o.body) in
    some (record {
      status_match = o.status_code == r.status_code;
      status_original = o.status_code;
      status_replayed = r.status_code;
      header_diffs = changed orig replay ++ added replay orig;
      body_match = same_size size (size_of r.content_length);
      body_size_original = size;
      body_size_replayed = size_of r.content_length;
    })
