-- ===== src/Replay/Examples.antt =====
-- Recording, comparing and replaying at concrete inputs, and the theorems of this folder applied to them.
use api_x.Base.{ℕ, str, true, false, none, some, List, [], ◌∷◌, ◌≡◌, refl, if◌then◌else◌}
use api_x.Base.Int.{pos}
use api_x.Base.Maps.{lookup}
use api_x.Base.Strings.{equal_fold, text_eq}
use api_x.Replay.{RecordingFilter, redacted, redact_headers, StoredResponse, ReplayedResponse}
use api_x.Replay.Redacting.{excluded_value_hidden}
use api_x.Replay.Sending.{StoredRequest, BuiltRequest, ReplayRequest, Outside, ScenarioStep}

abbrev no_tokens : RecordingFilter
no_tokens = record {
  include_paths = [];
  exclude_paths = [];
  include_hosts = [];
  exclude_headers = str "cookie" ∷ str "authorization" ∷ [];
}

excluded_value_hidden_example :
    lookup
      (str "Authorization")
      (redact_headers no_tokens ((str "A", str "1") ∷ (str "Authorization", str "secret") ∷ []))
    ≡ some redacted
unfolding equal_fold lookup
excluded_value_hidden_example =
    excluded_value_hidden no_tokens (str "cookie" ∷ []) (str "authorization") []
      ((str "A", str "1") ∷ (str "Authorization", str "secret") ∷ []) (str "Authorization")
      (str "secret") refl refl refl

abbrev before : StoredResponse
before = record { status_code = 200; headers = (str "Etag", str "1, 2") ∷ []; body = str "abc" }

abbrev again : ReplayedResponse
again = record {
  status_code = 200;
  header = (str "ETag", str "1" ∷ str "2" ∷ []) ∷ [];
  content_length = pos 3;
}

abbrev stored : StoredRequest
stored = record { method = str "GET"; url = str "/x"; headers = (str "A", str "1") ∷ []; body = [] }

-- A database with one record.
abbrev out : Outside ℕ
out = record {
  get_transaction = λ id s. if text_eq id (str "1") then some (some stored) else some none;
  new_request = λ method url. true;
  send = λ b follow s. (s, some 200);
}

abbrev steps : List ScenarioStep
steps =
    record { request_id = str "1"; delay_before = pos 5; override_headers = [] }
    ∷ record { request_id = str "2"; delay_before = pos 0; override_headers = [] }
    ∷ []

abbrev request : ReplayRequest
request = record {
  request_id = str "1";
  raw_request = none;
  override_headers = (str "B", str "2") ∷ [];
  override_body = [];
  override_method = [];
  follow_redirects = false;
}

abbrev built_request : BuiltRequest
built_request = record {
  method = str "GET";
  url = str "/x";
  header = (str "A", str "1" ∷ []) ∷ [];
  body = [];
}
