-- ===== src/Har/Json.antt =====
-- encoding/json between the entries of har.go and its documents: a string comes back as it was where it is
-- UTF-8, and every other field as it was.
use api_x.Base.{Option, none, some, List, map, length, ◌==◌, if◌then◌else◌}
use api_x.Har.{Codec, export_entries}
use api_x.Har.Records.{RequestRecord, ResponseRecord, HarKv, HarBody, HarEntry}

module _ (lib : Codec) where
  open lib use {Time, through_json}

  abbrev pub kv_through : HarKv → HarKv
  kv_through h = record { name = through_json h.name; value = through_json h.value }

  abbrev pub body_through : HarBody → HarBody
  body_through b = record {
    mime_type = through_json b.mime_type;
    text = through_json b.text;
    encoding = through_json b.encoding;
  }

  abbrev pub maybe_through : Option HarBody → Option HarBody
  maybe_through none = none
  maybe_through (some b) = some (body_through b)

  -- An entry that is written into a document, as it is read again.
  unfoldable pub entry_through : HarEntry → HarEntry
  entry_through e = record {
    started_date_time = through_json e.started_date_time;
    time = e.time;
    request = record {
      method = through_json e.request.method;
      url = through_json e.request.url;
      headers = map kv_through e.request.headers;
      query_string = map kv_through e.request.query_string;
      post_data = maybe_through e.request.post_data;
    };
    response = record {
      status = e.response.status;
      status_text = through_json e.response.status_text;
      headers = map kv_through e.response.headers;
      content = body_through e.response.content;
      redirect_url = through_json e.response.redirect_url;
    };
  }

  -- `MarshalTransactions`: the entries of the document, as they are read again
  unfoldable pub marshal_transactions :
      List (Option (RequestRecord Time)) → List (Option ResponseRecord) → Option (List HarEntry)
  unfolding export_entries entry_through
  marshal_transactions reqs resps =
      if length reqs == length resps
      then some (map entry_through (export_entries lib reqs resps))
      else none
