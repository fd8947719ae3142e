-- ===== src/Header.antt =====
-- Go's `http.Header`, and the helpers of internal/http: header_validation.go and headers.go.
-- A header is a map from canonical names to lists of values. The loops over runes are loops over
-- bytes here: every byte of a rune outside ASCII is above 0x7F, as the rune is.
pub mod Laws
mod Examples
use api_x.Base.{
  ℕ, ◌+◌, ◌-◌, Text, str, is_blank, Bool, true, false, ◌&&◌, ◌||◌, not, Option, none, some, List,
  [], ◌∷◌, ◌++◌, leb, ltb, ◌==◌, if◌then◌else◌, any,
}
use api_x.Base.Strings.{lower_byte, upper_byte, trim}
use api_x.Base.Maps.{Assoc, lookup, insert, delete}

abbrev pub Header : Type 0
Header = Assoc (List Text)

abbrev is_alnum : ℕ → Bool
is_alnum c = (leb b'a' c && leb c b'z') || (leb b'A' c && leb c b'Z') || (leb b'0' c && leb c b'9')

-- The bytes of an RFC 7230 token other than letters and digits.
abbrev pub token_marks : Text
token_marks = str "!#$%&'*+-.^_`|~"

-- `validHeaderFieldByte` of net/textproto: the bytes of an RFC 7230 token.
unfoldable pub is_token_byte : ℕ → Bool
is_token_byte c = is_alnum c || any (λ m. m == c) token_marks

-- The loop of `textproto.CanonicalMIMEHeaderKey`: upper case at the start and behind a hyphen.
unfoldable pub canonical_from : Bool → Text → Text
unfolding upper_byte lower_byte
canonical_from upper [] = []
canonical_from upper (c ∷ s) =
    (if upper then upper_byte c else lower_byte c) ∷ canonical_from (c == b'-') s

-- `textproto.CanonicalMIMEHeaderKey`, which leaves a name with another byte as it is.
unfoldable pub canonical_key : Text → Text
unfolding is_token_byte canonical_from
canonical_key s = if any (λ c. not (is_token_byte c)) s then s else canonical_from true s

abbrev pub first_or_blank : Option (List Text) → Text
first_or_blank (some (v ∷ vs)) = v
first_or_blank _ = []

-- `h.Get(name)`
unfoldable pub get : Header → Text → Text
unfolding lookup
get h name = first_or_blank (lookup (canonical_key name) h)

-- `h.Set(name, value)`
unfoldable pub set : Header → Text → Text → Header
unfolding insert
set h name value = insert (canonical_key name) (value ∷ []) h

abbrev pub values_or_nil : Option (List Text) → List Text
values_or_nil none = []
values_or_nil (some vs) = vs

-- `h.Add(name, value)`
unfoldable pub add : Header → Text → Text → Header
unfolding insert lookup
add h name value =
    let k = canonical_key name in insert k (values_or_nil (lookup k h) ++ value ∷ []) h

-- `h.Del(name)`
unfoldable pub del : Header → Text → Header
unfolding delete
del h name = delete (canonical_key name) h

-- The separators that the `switch` of `IsValidHeaderName` lists.
abbrev pub separators : Text
separators = str "()<>@,;:\\\"/[]?={} \t"

-- The test of one byte in the loop of `IsValidHeaderName`.
unfoldable pub name_byte_ok : ℕ → Bool
name_byte_ok c = if ltb c 0x21 || ltb 0x7E c then false else not (any (λ m. m == c) separators)

-- `IsValidHeaderName`
unfoldable pub is_valid_header_name : Text → Bool
unfolding name_byte_ok
is_valid_header_name name =
    if is_blank name then false else not (any (λ c. not (name_byte_ok c)) name)

abbrev pub value_byte_ok : ℕ → Bool
value_byte_ok c = if c == 9 then true else not (ltb c 0x20 || c == 0x7F)

-- The bytes of `strings.Trim(v, "\r\n")`.
abbrev pub is_line_end : ℕ → Bool
is_line_end c = c == 13 || c == 10

-- `IsValidHeaderValue`
unfoldable pub is_valid_header_value : Text → Bool
unfolding trim
is_valid_header_value v =
    if is_blank v then true else not (any (λ c. not (value_byte_ok c)) (trim is_line_end v))

-- `CanonicalHeader`
unfoldable pub canonical_header : Text → Option Text
unfolding is_valid_header_name canonical_key
canonical_header name = if is_valid_header_name name then some (canonical_key name) else none

abbrev set_checked : Option Text → Text → Header → Header
set_checked none v dst = dst
set_checked (some name) v dst = if is_valid_header_value v then set dst name v else dst

-- `SetValidHeaders`, over the entries of `src` in the order of the range loop; the warnings are not
-- modelled.
unfoldable pub set_valid_headers : Header → Assoc Text → Header
unfolding canonical_header is_valid_header_value set
set_valid_headers dst [] = dst
set_valid_headers dst ((k, v) ∷ src) =
    set_valid_headers (set_checked (canonical_header k) v dst) src

-- `HeadersToMap`: the first value of each name that has one.
unfoldable pub headers_to_map : Header → Assoc Text
headers_to_map [] = []
headers_to_map ((k, v ∷ vs) ∷ h) = (k, v) ∷ headers_to_map h
headers_to_map ((k, []) ∷ h) = headers_to_map h
