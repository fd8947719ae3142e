-- ===== src/Har/Restoring.antt =====
-- One transaction of har.go on its way out, through a document and back.
use api_x.Base.{
  Text, str, is_blank, true, false, Option, none, some, List, [], if◌then◌else◌, ◌≡◌, refl, arith,
  ap, ◌∙◌,
}
use api_x.Base.Int.{ℤ, pos, ltb_ℤ}
use api_x.Base.Maps.{Assoc, lookup}
use api_x.Har.{
  header_value, first_non_empty, map_to_har, map_from_har, has_response, Codec, ok, export_response,
  export_entry, parse_response, parse_entry,
}
use api_x.Har.HeaderMaps.{lookup-from-to}
use api_x.Har.Json.{entry_through}
use api_x.Har.Records.{RequestRecord, ResponseRecord, ImportedTransaction, HarKv, HarEntry}
use api_x.Har.Texts.{AreTexts, header_value-utf8, through-map_to_har}
use api_x.Har.Bodies.{
  IsLawful, decode-new_har_body, decode-body_pointer, typed-headers, with_type-pointer,
  through-new_har_body, through-pointer,
}

-- The same headers, but one without a name.
abbrev pub Named : Assoc Text → Assoc Text → Type 0
Named h' h = (name : Text) → lookup name h' ≡ (if is_blank name then none else lookup name h)

-- The response has a status, if there is one, and its texts are UTF-8.
abbrev pub HasStatus : Codec → Option ResponseRecord → Type 0
HasStatus lib none = Unit
HasStatus lib (some r) =
    (ltb_ℤ (pos 0) r.status_code ≡ true)
    × (lib.is_utf8 r.status_text ≡ true)
    × AreTexts lib r.headers

-- The request has a URL, and its texts are UTF-8.
abbrev pub HasUrl : (lib : Codec) → RequestRecord lib.Time → Type 0
HasUrl lib req =
    (is_blank req.url ≡ false)
    × (lib.is_utf8 req.url ≡ true)
    × (lib.is_utf8 req.method ≡ true)
    × AreTexts lib req.headers

-- A response as it comes back, for the request with the identifier.
pub record RestoresResponse (status_text : ℤ → Text) (id : Text) (r r' : ResponseRecord)
    : Type 0 where
  pub request_id : r'.request_id ≡ id
  pub status_code : r'.status_code ≡ r.status_code
  pub text : r'.status_text ≡ first_non_empty r.status_text (status_text r.status_code)
  pub headers : Named r'.headers r.headers
  pub body : r'.body ≡ r.body

abbrev pub RestoresMaybe :
    (ℤ → Text) → Text → Option ResponseRecord → Option ResponseRecord → Type 0
RestoresMaybe status_text id none none = Unit
RestoresMaybe status_text id (some r) (some r') = RestoresResponse status_text id r r'
RestoresMaybe status_text id _ _ = ⊥

-- A transaction as it comes back.
pub record Restores (lib : Codec) (fresh : Text) (req : RequestRecord lib.Time)
    (resp : Option ResponseRecord) (tx : ImportedTransaction lib.Time) : Type 0 where
  pub id : tx.request.id ≡ fresh
  pub method : tx.request.method ≡ first_non_empty req.method (str "GET")
  pub url : tx.request.url ≡ req.url
  pub headers : Named tx.request.headers req.headers
  pub body : tx.request.body ≡ req.body
  pub timestamp : tx.request.timestamp ≡ req.timestamp
  pub duration : tx.request.duration_ms ≡ req.duration_ms
  pub response : RestoresMaybe lib.status_text fresh resp tx.response

module _ (lib : Codec) (law : IsLawful lib) where
  abbrev restored_response : Text → ResponseRecord → ResponseRecord
  restored_response id r = record {
    request_id = id;
    status_code = r.status_code;
    status_text =
        first_non_empty (first_non_empty r.status_text (lib.status_text r.status_code))
          (lib.status_text r.status_code);
    headers = map_from_har (map_to_har r.headers);
    body = r.body;
  }

  parse-export_response :
      (id : Text) (r : ResponseRecord)
      → ltb_ℤ (pos 0) r.status_code ≡ true
      → parse_response lib id (export_response lib (some r)) ≡ ok (some (restored_response id r))
  unfolding parse_response has_response
  parse-export_response id r e =
      let mime = header_value r.headers (str "Content-Type") in
      rw (e, decode-new_har_body lib law r.body mime, typed-headers lib law r.headers r.body) refl

  parse-export_none : (id : Text) → parse_response lib id (export_response lib none) ≡ ok none
  unfolding parse_response has_response
  parse-export_none id = refl

  abbrev restored_maybe : Text → Option ResponseRecord → Option ResponseRecord
  restored_maybe id none = none
  restored_maybe id (some r) = some (restored_response id r)

  abbrev pub restored :
      Text → RequestRecord lib.Time → Option ResponseRecord → ImportedTransaction lib.Time
  restored id req resp = record {
    request = record {
      id = id;
      method = first_non_empty req.method (str "GET");
      url = req.url;
      headers = map_from_har (map_to_har req.headers);
      body = req.body;
      timestamp = req.timestamp;
      duration_ms = req.duration_ms;
    };
    response = restored_maybe id resp;
  }

  parse-export_maybe :
      (id : Text) (resp : Option ResponseRecord)
      → HasStatus lib resp
      → parse_response lib id (export_response lib resp) ≡ ok (restored_maybe id resp)
  parse-export_maybe id none h = parse-export_none id
  parse-export_maybe id (some r) h = parse-export_response id r h.0

  parse-export_entry :
      (now : lib.Time) (id : Text) (req : RequestRecord lib.Time) (resp : Option ResponseRecord)
      → is_blank req.url ≡ false
      → HasStatus lib resp
      → parse_entry lib now id (export_entry lib req resp) ≡ ok (restored id req resp)
  unfolding parse_entry export_entry
  parse-export_entry now id req resp url status =
      let mime = header_value req.headers (str "Content-Type") in
      rw
        (
          url,
          law.time_text req.timestamp,
          law.time req.timestamp,
          decode-body_pointer lib law req.body mime,
          parse-export_maybe id resp status,
          with_type-pointer lib law req.headers req.body,
        )
        refl

  restored_maybe-Restores :
      (id : Text) (resp : Option ResponseRecord)
      → RestoresMaybe lib.status_text id resp (restored_maybe id resp)
  restored_maybe-Restores id none = tt
  restored_maybe-Restores id (some r) = record {
    request_id = refl;
    status_code = refl;
    text = ground arith;
    headers = λ name. lookup-from-to name r.headers;
    body = refl;
  }

  pub restored-Restores :
      (id : Text) (req : RequestRecord lib.Time) (resp : Option ResponseRecord)
      → Restores lib id req resp (restored id req resp)
  restored-Restores id req resp = record {
    id = refl;
    method = refl;
    url = refl;
    headers = λ name. lookup-from-to name req.headers;
    body = refl;
    timestamp = refl;
    duration = refl;
    response = restored_maybe-Restores id resp;
  }

  text_utf8 :
      (r : ResponseRecord)
      → lib.is_utf8 r.status_text ≡ true
      → lib.is_utf8 (first_non_empty r.status_text (lib.status_text r.status_code)) ≡ true
  text_utf8 r e = ground (arith, law.status_utf8 r.status_code)

  -- Behind a document an entry differs at most in its query, which the import does not read.
  abbrev with_query : HarEntry → List HarKv → HarEntry
  with_query e q = record e { request = record e.request { query_string = q } }

  parse-with_query :
      (now : lib.Time) (id : Text) (e : HarEntry) (q : List HarKv)
      → parse_entry lib now id (with_query e q) ≡ parse_entry lib now id e
  unfolding parse_entry
  parse-with_query now id e q = refl

  response_through :
      (req : RequestRecord lib.Time) (resp : Option ResponseRecord)
      → HasStatus lib resp
      → (entry_through lib (export_entry lib req resp)).response ≡ export_response lib resp
  unfolding entry_through export_entry
  response_through req none h = rw (law.json [] (law.ascii_utf8 [] tt)) refl
  response_through req (some r) (status, text, texts) =
      rw
        (
          law.json _ (text_utf8 r text),
          through-map_to_har lib law r.headers texts,
          through-new_har_body lib law r.body _
              (header_value-utf8 lib law r.headers (str "Content-Type") texts),
          law.json _ (header_value-utf8 lib law r.headers (str "Location") texts),
        )
        refl

  entry-through :
      (req : RequestRecord lib.Time) (resp : Option ResponseRecord)
      → HasUrl lib req
      → HasStatus lib resp
      → entry_through lib (export_entry lib req resp)
        ≡ with_query
            (export_entry lib req resp)
            (entry_through lib (export_entry lib req resp)).request.query_string
  unfolding entry_through export_entry
  entry-through req resp (url, url_text, method_text, texts) h =
      let e = export_entry lib req resp in
      let type_text = header_value-utf8 lib law req.headers (str "Content-Type") texts in
      rw
        (
          law.json (lib.format_time req.timestamp) (law.time_utf8 req.timestamp),
          law.json req.method method_text,
          law.json req.url url_text,
          through-map_to_har lib law req.headers texts,
          through-pointer lib law req.body _ type_text,
        )
        (ap
          (λ x. record e {
            request = record e.request {
              query_string = (entry_through lib e).request.query_string;
            };
            response = x;
          })
          (response_through req resp h))

  pub parse-through :
      (now : lib.Time) (id : Text) (req : RequestRecord lib.Time) (resp : Option ResponseRecord)
      → HasUrl lib req
      → HasStatus lib resp
      → parse_entry lib now id (entry_through lib (export_entry lib req resp))
        ≡ ok (restored id req resp)
  parse-through now id req resp url status =
      let e = export_entry lib req resp in
      ap (parse_entry lib now id) (entry-through req resp url status)
      ∙ parse-with_query now id e (entry_through lib e).request.query_string
      ∙ parse-export_entry now id req resp url.0 status
