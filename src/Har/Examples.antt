-- ===== src/Har/Examples.antt =====
-- Import and export of har.go at a concrete transaction.
use api_x.Base.{
  ℕ, zero, suc, ◌+◌, ◌<◌, Text, str, is_blank, Bool, true, false, not, Option, none, some, List, [],
  ◌∷◌, All, any, map, leb, ◌==◌, if◌then◌else◌, ◌≡◌, refl, ap, ◌∙◌, arith,
}
use api_x.Base.Int.{pos}
use api_x.Har.{Codec, ok, parse_entries}
use api_x.Har.Json.{marshal_transactions}
use api_x.Har.Records.{RequestRecord, ResponseRecord, ImportedTransaction, HarEntry}
use api_x.Har.Bodies.{IsLawful}
use api_x.Har.RoundTrip.{numbered, RestoresAll, parse-export}

-- A stand-in for base64, in ASCII for any bytes: each byte as so many As, and a B behind them.
tally : ℕ → Text → Text
tally zero rest = rest
tally (suc n) rest = b'A' ∷ tally n rest

encode : Text → Text
encode [] = []
encode (c ∷ s) = tally c (b'B' ∷ encode s)

abbrev onto : ℕ → Option Text → Option Text
onto c none = none
onto c (some s) = some (c ∷ s)

decode_from : ℕ → Text → Option Text
decode_from k [] = some []
decode_from k (c ∷ s) =
    let more = decode_from (k + 1) s in
    let next = onto k (decode_from 0 s) in if c == b'A' then more else next

decode_from-tally :
    (k n : ℕ) (rest : Text)
    → decode_from k (tally n (b'B' ∷ rest)) ≡ onto (k + n) (decode_from 0 rest)
unfolding decode_from tally
decode_from-tally k zero rest = ap (λ m. onto m (decode_from 0 rest)) (omega arith)
decode_from-tally k (suc n) rest =
    decode_from-tally (k + 1) n rest ∙ ap (λ m. onto m (decode_from 0 rest)) (omega arith)

decode-encode : (b : Text) → decode_from 0 (encode b) ≡ some b
unfolding encode decode_from
decode-encode [] = refl
decode-encode (c ∷ s) =
    decode_from-tally 0 c (encode s)
    ∙ ap (λ m. onto m (decode_from 0 (encode s))) (omega arith)
    ∙ ap (onto c) (decode-encode s)

abbrev is_ascii : Text → Bool
is_ascii b = not (any (λ c. leb 128 c) b)

tally-ascii : (n : ℕ) (rest : Text) → is_ascii rest ≡ true → is_ascii (tally n rest) ≡ true
unfolding tally
tally-ascii zero rest e = e
tally-ascii (suc n) rest e = tally-ascii n rest e

encode-ascii : (b : Text) → is_ascii (encode b) ≡ true
unfolding encode
encode-ascii [] = refl
encode-ascii (c ∷ s) = tally-ascii c (b'B' ∷ encode s) (encode-ascii s)

tally_text : (n : ℕ) (rest : Text) → is_blank (tally n (b'B' ∷ rest)) ≡ false
unfolding tally
tally_text zero rest = refl
tally_text (suc n) rest = refl

encode_text : (b : Text) → is_blank (encode b) ≡ is_blank b
unfolding encode
encode_text [] = refl
encode_text (c ∷ s) = tally_text c (encode s)

below-ascii : (s : Text) → All (λ c. c < 128) s → is_ascii s ≡ true
below-ascii [] h = refl
below-ascii (c ∷ s) h = ground (arith, below-ascii s h.1)

abbrev first_or_none : Option Text → Option ℕ
first_or_none (some (c ∷ s)) = some c
first_or_none _ = none

-- Times are numbers of moments, and JSON puts a question mark for what is not ASCII.
abbrev lib : Codec
lib = record {
  Time = ℕ;
  format_time = λ t. encode (t ∷ []);
  parse_time = λ s. first_or_none (decode_from 0 s);
  is_utf8 = is_ascii;
  encode_base64 = encode;
  decode_base64 = decode_from 0;
  status_text = λ code. str "OK";
  through_json = λ s. if is_ascii s then s else map (λ c. if leb 128 c then b'?' else c) s;
  query_of = λ s. none;
}

lib-IsLawful : IsLawful lib
lib-IsLawful = record {
  time = λ t. ap first_or_none (decode-encode (t ∷ []));
  time_text = λ t. encode_text (t ∷ []);
  base64 = decode-encode;
  base64_utf8 = encode-ascii;
  time_utf8 = λ t. encode-ascii (t ∷ []);
  status_utf8 = λ code. refl;
  ascii_utf8 = below-ascii;
  json = λ s e. rw e refl;
  base64_text = encode_text;
}

abbrev req : RequestRecord ℕ
req = record {
  id = str "old";
  method = [];
  url = str "http://a/x";
  headers = (str "Accept", str "*/*") ∷ (str "content-type", str "text/plain") ∷ [];
  body = str "hello";
  timestamp = 7;
  duration_ms = pos 12;
}

abbrev resp : ResponseRecord
resp = record {
  request_id = str "old";
  status_code = pos 200;
  status_text = [];
  headers = [];
  body = 200 ∷ 201 ∷ [];
}

abbrev ids : ℕ → Text
ids n = str "new"

abbrev reqs : List (Option (RequestRecord ℕ))
reqs = none ∷ some req ∷ []

abbrev resps : List (Option ResponseRecord)
resps = none ∷ some resp ∷ []

parse-export_example :
    (entries : List HarEntry) × (txs : List (ImportedTransaction ℕ)) × (marshal_transactions lib
        reqs resps
      ≡ some entries)
    × (parse_entries lib 9 (numbered lib lib-IsLawful ids 0 entries) ≡ ok txs)
    × RestoresAll lib lib-IsLawful ids 0 reqs resps txs
parse-export_example =
    parse-export lib lib-IsLawful 9 ids 0 reqs resps refl
      ((refl, refl, refl, ((refl, refl), ((refl, refl), tt))), (refl, refl, tt), tt)

-- Bytes that are no text would not survive the document as they are.
lossy : lib.through_json (200 ∷ 201 ∷ []) ≡ str "??"
lossy = refl
