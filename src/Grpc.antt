-- ===== src/Grpc.antt =====
-- internal/proxy/grpc.go: what the proxy notes about the frames of a gRPC message. The loop over the
-- frames is on fuel; every frame takes five bytes at least, so the length of the body is enough.
pub mod Encoding
pub mod Frames
mod Summary
mod Examples
use api_x.Base.{
  ℕ, zero, suc, ◌+◌, ◌*◌, ◌/◌, ◌%◌, ◌<◌, Text, str, is_blank, Bool, true, false, Option, none, some,
  List, [], ◌∷◌, ◌++◌, length, drop, ltb, ◌==◌, if◌then◌else◌,
}
use api_x.Base.Strings.{to_lower, trim_space, has_prefix, itoa, join}
use api_x.Header
use api_x.Header.{Header}

-- `isGRPCMessage`
unfoldable pub is_grpc_message : Header → Bool
unfolding Header.get to_lower trim_space has_prefix
is_grpc_message headers =
    has_prefix (to_lower (trim_space (Header.get headers (str "Content-Type"))))
      (str "application/grpc")

pub data FrameError : Type 0 where
  truncated_header truncated_payload : ℕ → FrameError
  invalid_flag : ℕ → ℕ → FrameError

pub record FrameSummary : Type 0 where
  pub count : ℕ
  pub compressed_count : ℕ
  pub lengths : List ℕ
  pub parse_err : Option FrameError

abbrev pub no_frames : FrameSummary
no_frames = record { count = 0; compressed_count = 0; lengths = []; parse_err = none }

abbrev pub max_stored_frame_lengths : ℕ
max_stored_frame_lengths = 16

-- `binary.BigEndian.Uint32`
abbrev pub uint32 : ℕ → ℕ → ℕ → ℕ → ℕ
uint32 a b c d = ((a * 256 + b) * 256 + c) * 256 + d

-- A complete frame, with its flag and the length of its payload.
abbrev pub add_frame : ℕ → ℕ → FrameSummary → FrameSummary
add_frame flag n out = record out {
  count = out.count + 1;
  compressed_count = if flag == 1 then out.compressed_count + 1 else out.compressed_count;
  lengths =
      if ltb (length out.lengths) max_stored_frame_lengths
      then out.lengths ++ n ∷ []
      else out.lengths;
}

abbrev pub failed : FrameError → FrameSummary → FrameSummary
failed e out = record out { parse_err = some e }

-- The loop of `summarizeGRPCFrames`, with what is left of the body; `none` means no fuel.
unfoldable pub summarize_loop : ℕ → ℕ → Text → FrameSummary → Option FrameSummary
summarize_loop zero offset rest out = none
summarize_loop (suc fuel) offset [] out = some out
summarize_loop (suc fuel) offset (flag ∷ a ∷ b ∷ c ∷ d ∷ rest) out =
    let n = uint32 a b c d in
    let later = summarize_loop fuel (offset + 5 + n) (drop n rest) (add_frame flag n out) in
    if ltb 1 flag
    then some (failed (invalid_flag flag offset) out)
    else if ltb (length rest) n
    then some (failed (truncated_payload (offset + 5)) out)
    else later
summarize_loop (suc fuel) offset (flag ∷ rest) out = some (failed (truncated_header offset) out)

abbrev or_no_frames : Option FrameSummary → FrameSummary
or_no_frames none = no_frames
or_no_frames (some out) = out

-- `summarizeGRPCFrames`
unfoldable pub summarize_grpc_frames : Text → FrameSummary
unfolding summarize_loop
summarize_grpc_frames body = or_no_frames (summarize_loop (length body + 1) 0 body no_frames)

abbrev describe : FrameError → Text
describe (truncated_header offset) = str "truncated frame header at byte " ++ itoa offset
describe (truncated_payload offset) = str "truncated frame payload at byte " ++ itoa offset
describe (invalid_flag flag offset) =
    str "invalid compression flag " ++ itoa flag ++ str " at byte " ++ itoa offset

abbrev itoa_all : List ℕ → List Text
itoa_all [] = []
itoa_all (n ∷ ns) = itoa n ∷ itoa_all ns

abbrev set_lengths : List ℕ → Header → Header
set_lengths [] h = h
set_lengths (n ∷ ns) h =
    Header.set h (str "X-Apix-Grpc-Frame-Lengths") (join (str ",") (itoa_all (n ∷ ns)))

abbrev set_parse_error : Option FrameError → Header → Header
set_parse_error none h = h
set_parse_error (some e) h = Header.set h (str "X-Apix-Grpc-Frame-Parse-Error") (describe e)

-- `annotateGRPCFrames`
unfoldable pub annotate_grpc_frames : Header → Text → Header
unfolding is_grpc_message summarize_grpc_frames itoa join Header.set
annotate_grpc_frames h body =
    let s = summarize_grpc_frames body in
    let counted = Header.set h (str "X-Apix-Grpc-Frame-Count") (itoa s.count) in
    let compressed =
      Header.set counted (str "X-Apix-Grpc-Compressed-Frames") (itoa s.compressed_count) in
    if is_grpc_message h then set_parse_error s.parse_err (set_lengths s.lengths compressed) else h

abbrev pub add_all : Header → Text → List Text → Header
add_all h key [] = h
add_all h key (v ∷ vs) = add_all (Header.add h key v) key vs

-- `mergeTrailersIntoHeaders`, over the trailers in the order of the range loop
unfoldable pub merge_trailers_into_headers : Header → Header → Header
unfolding Header.add
merge_trailers_into_headers h [] = h
merge_trailers_into_headers h ((k, vs) ∷ trailers) =
    merge_trailers_into_headers (add_all h (str "Trailer-" ++ k) vs) trailers

abbrev set_if_blank : Text → Text → Header → Header
set_if_blank key value h = if is_blank (Header.get h key) then Header.set h key value else h

-- `setGRPCStatusFromTrailers`
unfoldable pub set_grpc_status_from_trailers : Header → Header
unfolding is_grpc_message Header.get Header.set
set_grpc_status_from_trailers h =
    if is_grpc_message h
    then set_if_blank (str "Trailer-Grpc-Status-Details-Bin") [] (
        set_if_blank (str "Trailer-Grpc-Message") []
          (set_if_blank (str "Trailer-Grpc-Status") (str "missing") h))
    else h
