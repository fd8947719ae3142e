-- ===== src/Grpc/Examples.antt =====
-- gRPC messages at concrete inputs, and the theorems of this folder applied to them.
use api_x.Base.{Text, true, false, none, some, List, [], ◌∷◌, ◌≡◌, refl, ◌↔◌, All, arith}
use api_x.Grpc.{FrameSummary, truncated_header, no_frames, summarize_grpc_frames, summarize_loop}
use api_x.Grpc.Encoding.{Frame, encode, Fits}
use api_x.Grpc.Frames.{loop_ends, no_error-iff-encode}

abbrev frames : List Frame
frames =
    record { compressed = false; payload = 7 ∷ 8 ∷ [] }
    ∷ record { compressed = true; payload = [] }
    ∷ []

abbrev body : Text
body = 0 ∷ 0 ∷ 0 ∷ 0 ∷ 2 ∷ 7 ∷ 8 ∷ 1 ∷ 0 ∷ 0 ∷ 0 ∷ 0 ∷ []

writes : encode frames ≡ body
writes = refl

breaks_off : summarize_grpc_frames (0 ∷ 0 ∷ 0 ∷ 0 ∷ 0 ∷ 1 ∷ []) ≡ record {
  count = 1;
  compressed_count = 0;
  lengths = 0 ∷ [];
  parse_err = some (truncated_header 5);
}
unfolding summarize_grpc_frames
breaks_off = refl

loop_ends_example : (r : FrameSummary) × (summarize_loop 7 0 (1 ∷ 2 ∷ []) no_frames ≡ some r)
loop_ends_example = loop_ends 7 0 (1 ∷ 2 ∷ []) no_frames (omega arith)

no_error-iff-encode_example :
    ((summarize_grpc_frames (0 ∷ 1 ∷ [])).parse_err ≡ none)
    ↔ ((fs : List Frame) × All Fits fs × (0 ∷ 1 ∷ [] ≡ encode fs))
no_error-iff-encode_example = no_error-iff-encode (0 ∷ 1 ∷ []) (omega arith, (omega arith, tt))
