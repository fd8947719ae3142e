-- ===== src/Learn/PathPattern.antt =====
-- internal/learn/path_pattern.go: URLs to path templates. What it calls is a section parameter: the
-- escaped path of a URL that parses, `url.PathUnescape`, `strconv.ParseInt` and the pattern of a UUID.
pub mod Templates
pub mod Joined
use api_x.Base.{
  ℕ, ◌+◌, Text, str, is_blank, Bool, true, false, Option, none, some, List, [], ◌∷◌, ◌++◌, ◌==◌,
  if◌then◌else◌,
}
use api_x.Base.Strings.{trim, split, join, itoa}

pub record PathParameter : Type 0 where
  pub name : Text
  pub kind : Text  -- Type
  pub format : Text

pub record UrlLib : Type 0 where
  pub escaped_path : Text → Option Text
  pub path_unescape : Text → Option Text
  pub parse_int : Text → Bool  -- ParseInt succeeds
  pub is_uuid : Text → Bool

-- `nextParamName` for the base `id`, the only one, after so many calls
unfoldable pub param_name : ℕ → Text
unfolding itoa
param_name seen = if seen == 0 then str "id" else str "id" ++ itoa (seen + 1)

-- What the loop makes of a segment.
pub data Segment : Type 0 where
  number uuid : Segment
  literal : Text → Segment

abbrev or_else : Text → Option Text → Text
or_else s none = s
or_else s (some t) = t

-- One path parameter, or the segment itself.
abbrev pub parameter : Segment → Text → List PathParameter
parameter number name = record { name = name; kind = str "integer"; format = [] } ∷ []
parameter uuid name = record { name = name; kind = str "string"; format = str "uuid" } ∷ []
parameter (literal s) name = []

abbrev pub part : Segment → Text → Text
part (literal s) name = s
part _ name = b'{' ∷ name ++ b'}' ∷ []

abbrev pub advance : Segment → ℕ → ℕ
advance (literal s) seen = seen
advance _ seen = seen + 1

-- The rest of the loop of `NormalizePath`, after so many parameters.
unfoldable pub template_from : ℕ → List Segment → List Text × List PathParameter
unfolding param_name
template_from seen [] = ([], [])
template_from seen (s ∷ ss) =
    let (parts, params) = template_from (advance s seen) ss in
    (part s (param_name seen) ∷ parts, parameter s (param_name seen) ++ params)

abbrev is_slash : ℕ → Bool
is_slash c = c == b'/'

abbrev pub template_of : List Segment → Text × List PathParameter
template_of segments =
    let (parts, params) = template_from 0 segments in (b'/' ∷ join (str "/") parts, params)

abbrev pub is_root : List Text → Bool
is_root ([] ∷ []) = true
is_root _ = false

abbrev pub parts_of_path : Text → List Text
parts_of_path path = split (trim is_slash (if is_blank path then str "/" else path)) b'/'

module _ (lib : UrlLib) where
  -- `isNumericSegment`
  abbrev pub is_numeric_segment : Text → Bool
  is_numeric_segment s = if is_blank s then false else lib.parse_int s

  -- The tests of the loop on one part of the path.
  unfoldable pub segment_of : Text → Segment
  segment_of s =
      let segment = or_else s (lib.path_unescape s) in
      if is_numeric_segment segment
      then number
      else if lib.is_uuid segment
      then uuid
      else literal segment

  abbrev pub segments_of : List Text → List Segment
  segments_of [] = []
  segments_of (s ∷ ss) = segment_of s ∷ segments_of ss

  -- Behind a URL that parses.
  unfoldable pub of_path : Text → Text × List PathParameter
  unfolding segment_of template_from trim split join
  of_path path =
      let parts = parts_of_path path in
      if is_root parts then (str "/", []) else template_of (segments_of parts)

  abbrev or_root : Option Text → Text × List PathParameter
  or_root none = (str "/", [])
  or_root (some path) = of_path path

  -- `NormalizePath`
  unfoldable pub normalize_path : Text → Text × List PathParameter
  unfolding of_path
  normalize_path raw_url = or_root (lib.escaped_path raw_url)
