-- ===== src/Har.antt =====
-- internal/har/har.go: traffic to HAR entries and back. What it calls is a section parameter: base64,
-- the test for UTF-8, the formatting and parsing of times, status texts, and the query of a URL.
-- encoding/json stands between the entries and the file (Json), and is a parameter too. Left out are the
-- fields that the import does not read: versions, sizes and timings.
pub mod Records
pub mod HeaderMaps
pub mod Bodies
pub mod Json
pub mod Texts
pub mod Restoring
pub mod RoundTrip
mod Examples
use api_x.Base.{
  ℕ, ◌+◌, Text, str, is_blank, Bool, true, false, ◌||◌, not, Option, none, some, List, [], ◌∷◌,
  ◌++◌, map, any, is_empty, if◌then◌else◌,
}
use api_x.Base.Int.{ℤ, pos, ltb_ℤ}
use api_x.Base.Strings.{text_eq, equal_fold}
use api_x.Base.Maps.{Assoc, keys, lookup, insert}
use api_x.Base.Sort.{sort_strings}
use api_x.Har.Records.{
  RequestRecord, ResponseRecord, ImportedTransaction, HarKv, HarBody, HarRequest, HarResponse,
  HarEntry,
}

-- `headerValue`: the first entry of that name, in the order of the range loop
unfoldable pub header_value : Assoc Text → Text → Text
unfolding equal_fold
header_value [] name = []
header_value ((k, v) ∷ h) name = if equal_fold k name then v else header_value h name

-- `firstNonEmpty` of two values
abbrev pub first_non_empty : Text → Text → Text
first_non_empty a b = if is_blank a then b else a

abbrev pub or_blank : Option Text → Text
or_blank none = []
or_blank (some v) = v

abbrev pub kv : Text → Text → HarKv
kv name value = record { name = name; value = value }

-- `mapToHAR`
unfoldable pub map_to_har : Assoc Text → List HarKv
unfolding sort_strings lookup
map_to_har headers =
    map (λ key. kv key (or_blank (lookup key headers))) (sort_strings (keys headers))

-- The loop of `mapFromHAR`.
unfoldable pub add_all : List HarKv → Assoc Text → Assoc Text
unfolding insert
add_all [] out = out
add_all (h ∷ hs) out = add_all hs (if is_blank h.name then out else insert h.name h.value out)

-- `mapFromHAR`
unfoldable pub map_from_har : List HarKv → Assoc Text
unfolding add_all
map_from_har hs = add_all hs []

abbrev or_nil : Option (List Text) → List Text
or_nil none = []
or_nil (some vs) = vs

abbrev each_value : Assoc (List Text) → List Text → List HarKv
each_value values [] = []
each_value values (key ∷ ks) = map (kv key) (or_nil (lookup key values)) ++ each_value values ks

-- `queryString`, of the parsed query if the URL parses
unfoldable pub query_string : Option (Assoc (List Text)) → List HarKv
unfolding sort_strings lookup
query_string none = []
query_string (some values) = each_value values (sort_strings (keys values))

-- `setMissingHeader`
unfoldable pub set_missing_header : Assoc Text → Text → Text → Assoc Text
unfolding equal_fold insert
set_missing_header headers name value =
    if is_blank value
    then headers
    else if any (λ key. equal_fold key name) (keys headers)
    then headers
    else insert name value headers

-- `hasResponse`
unfoldable pub has_response : HarResponse → Bool
has_response resp =
    ltb_ℤ (pos 0) resp.status
    || not (is_empty resp.headers)
    || not (is_blank resp.content.text)
    || not (is_blank resp.status_text)

-- What the code calls of the standard library.
pub record Codec : Type 1 where
  pub Time : Type 0
  pub format_time : Time → Text  -- Time.UTC().Format(time.RFC3339Nano)
  pub parse_time : Text → Option Time  -- time.Parse(time.RFC3339Nano, s)
  pub is_utf8 : Text → Bool  -- utf8.Valid
  pub encode_base64 : Text → Text
  pub decode_base64 : Text → Option Text
  pub status_text : ℤ → Text  -- http.StatusText
  pub through_json : Text → Text  -- a string behind json.Marshal and json.Unmarshal
  pub query_of : Text → Option (Assoc (List Text))  -- url.Parse and Query

pub data ParseError : Type 0 where
  missing_url bad_time bad_request_body bad_response_body : ParseError

pub data Parsed (A : Type 0) : Type 0 where
  ok : A → Parsed A
  failed : ParseError → Parsed A

infixl 5 ◌>>=◌
abbrev pub ◌>>=◌ : {A B : Type 0} → Parsed A → (A → Parsed B) → Parsed B
ok a >>= f = f a
failed e >>= f = failed e

abbrev pub or_fail : {A : Type 0} → ParseError → Option A → Parsed A
or_fail e none = failed e
or_fail e (some a) = ok a

module _ (lib : Codec) where
  open lib use {
    Time, format_time, parse_time, is_utf8, encode_base64, decode_base64, status_text, query_of,
  }

  -- `newHARBody`
  unfoldable pub new_har_body : Text → Text → HarBody
  new_har_body body mime_type =
      if is_blank body
      then record { mime_type = mime_type; text = []; encoding = [] }
      else if is_utf8 body
      then record { mime_type = mime_type; text = body; encoding = [] }
      else record { mime_type = mime_type; text = encode_base64 body; encoding = str "base64" }

  -- `bodyPointer`, of the body's length
  abbrev pub body_pointer : HarBody → Text → Option HarBody
  body_pointer b body = if is_blank body then none else some b

  abbrev no_response : HarResponse
  no_response = record {
    status = pos 0;
    status_text = [];
    headers = [];
    content = record { mime_type = []; text = []; encoding = [] };
    redirect_url = [];
  }

  abbrev pub export_response : Option ResponseRecord → HarResponse
  export_response none = no_response
  export_response (some resp) = record {
    status = resp.status_code;
    status_text = first_non_empty resp.status_text (status_text resp.status_code);
    headers = map_to_har resp.headers;
    content = new_har_body resp.body (header_value resp.headers (str "Content-Type"));
    redirect_url = header_value resp.headers (str "Location");
  }

  -- `exportEntry`
  unfoldable pub export_entry : RequestRecord Time → Option ResponseRecord → HarEntry
  unfolding map_to_har new_har_body header_value query_string
  export_entry req resp = record {
    started_date_time = format_time req.timestamp;
    time = req.duration_ms;
    request = record {
      method = req.method;
      url = req.url;
      headers = map_to_har req.headers;
      query_string = query_string (query_of req.url);
      post_data =
          body_pointer (new_har_body req.body (header_value req.headers (str "Content-Type")))
            req.body;
    };
    response = export_response resp;
  }

  -- `decodeBody`; a nil body and an empty one are both the empty text here
  unfoldable pub decode_body : Option HarBody → Option Text
  unfolding equal_fold
  decode_body none = some []
  decode_body (some body) =
      if is_blank body.text
      then some []
      else if equal_fold body.encoding (str "base64")
      then decode_base64 body.text
      else some body.text

  abbrev pub with_type : Assoc Text → Option HarBody → Assoc Text
  with_type headers none = headers
  with_type headers (some body) = set_missing_header headers (str "Content-Type") body.mime_type

  abbrev time_of : Time → Text → Parsed Time
  time_of now t = if is_blank t then ok now else or_fail bad_time (parse_time t)

  -- The response of `parseEntry`.
  unfoldable pub parse_response : Text → HarResponse → Parsed (Option ResponseRecord)
  unfolding has_response decode_body map_from_har set_missing_header
  parse_response id resp =
      if has_response resp
      then (or_fail bad_response_body (decode_body (some resp.content)) >>= λ body. ok (
          some (record {
            request_id = id;
            status_code = resp.status;
            status_text = first_non_empty resp.status_text (status_text resp.status);
            headers = with_type (map_from_har resp.headers) (some resp.content);
            body = body;
          })))
      else ok none

  -- `parseEntry`, with the time of the import and the fresh identifier
  unfoldable pub parse_entry : Time → Text → HarEntry → Parsed (ImportedTransaction Time)
  unfolding decode_body map_from_har set_missing_header parse_response
  parse_entry now id entry = if is_blank entry.request.url then failed missing_url else do
    timestamp ← time_of now entry.started_date_time
    body ← or_fail bad_request_body (decode_body entry.request.post_data)
    response ← parse_response id entry.response
    ok (record {
      request = record {
        id = id;
        method = first_non_empty entry.request.method (str "GET");
        url = entry.request.url;
        headers = with_type (map_from_har entry.request.headers) entry.request.post_data;
        body = body;
        timestamp = timestamp;
        duration_ms = entry.time;
      };
      response = response;
    })

  -- The loop of `MarshalTransactions`, over the requests, some of them nil, with their responses.
  unfoldable pub export_entries :
      List (Option (RequestRecord Time)) → List (Option ResponseRecord) → List HarEntry
  unfolding export_entry
  export_entries (some req ∷ reqs) (resp ∷ resps) =
      export_entry req resp ∷ export_entries reqs resps
  export_entries (none ∷ reqs) (resp ∷ resps) = export_entries reqs resps
  export_entries _ _ = []

  -- The loop of `ParseTransactions`, with a fresh identifier for each entry: an entry that fails
  -- fails the import.
  unfoldable pub parse_entries :
      Time → List (Text × HarEntry) → Parsed (List (ImportedTransaction Time))
  unfolding parse_entry
  parse_entries now [] = ok []
  parse_entries now ((id, entry) ∷ entries) = do
    tx ← parse_entry now id entry
    txs ← parse_entries now entries
    ok (tx ∷ txs)
