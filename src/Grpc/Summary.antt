-- ===== src/Grpc/Summary.antt =====
-- The summary that `summarizeGRPCFrames` in internal/proxy/grpc.go keeps, after complete frames.
use api_x.Base.{
  ℕ, zero, suc, ◌+◌, List, [], ◌∷◌, ◌++◌, length, take, if◌then◌else◌, ◌≡◌, refl, sym, ap, ◌∙◌,
  arith, length-append,
}
use mathlib.Core.List.{append-nil, append_assoc}
use api_x.Grpc.{FrameSummary, add_frame, max_stored_frame_lengths}
use api_x.Grpc.Encoding.{Frame, flag_of}

-- The summary after complete frames.
abbrev pub add_frames : List Frame → FrameSummary → FrameSummary
add_frames [] out = out
add_frames (f ∷ fs) out = add_frames fs (add_frame (flag_of f) (length f.payload) out)

pub count-add_frames :
    (fs : List Frame) (out : FrameSummary) → (add_frames fs out).count ≡ out.count + length fs
count-add_frames [] out = omega arith
count-add_frames (f ∷ fs) out =
    omega (arith, count-add_frames fs (add_frame (flag_of f) (length f.payload) out))

pub parse_err-add_frames :
    (fs : List Frame) (out : FrameSummary) → (add_frames fs out).parse_err ≡ out.parse_err
parse_err-add_frames [] out = refl
parse_err-add_frames (f ∷ fs) out =
    parse_err-add_frames fs (add_frame (flag_of f) (length f.payload) out)

abbrev pub compressed_in : List Frame → ℕ
compressed_in [] = 0
compressed_in (f ∷ fs) = if f.compressed then suc (compressed_in fs) else compressed_in fs

pub compressed_count-add_frames :
    (fs : List Frame) (out : FrameSummary)
    → (add_frames fs out).compressed_count ≡ out.compressed_count + compressed_in fs
compressed_count-add_frames [] out = omega arith
compressed_count-add_frames (f ∷ fs) out =
    ground (arith, compressed_count-add_frames fs (add_frame (flag_of f) (length f.payload) out))

abbrev pub sizes : List Frame → List ℕ
sizes [] = []
sizes (f ∷ fs) = length f.payload ∷ sizes fs

pub lengths-add_frames :
    (fs : List Frame) (out : FrameSummary) (room : ℕ)
    → length out.lengths + room ≡ max_stored_frame_lengths
    → (add_frames fs out).lengths ≡ out.lengths ++ take room (sizes fs)
lengths-add_frames [] out zero e = sym (append-nil out.lengths)
lengths-add_frames [] out (suc room) e = sym (append-nil out.lengths)
lengths-add_frames (f ∷ fs) out zero e =
    let out' = add_frame (flag_of f) (length f.payload) out in
    let same : out'.lengths ≡ out.lengths = ground arith in
    lengths-add_frames fs out' zero (omega (arith, ap length same)) ∙ ap (λ ns. ns ++ []) same
lengths-add_frames (f ∷ fs) out (suc room) e =
    let out' = add_frame (flag_of f) (length f.payload) out in
    let grown : out'.lengths ≡ out.lengths ++ length f.payload ∷ [] = ground arith in
    lengths-add_frames fs out' room
      (omega (arith, ap length grown, length-append out.lengths (length f.payload ∷ [])))
    ∙ (ap (λ ns. ns ++ take room (sizes fs)) grown
        ∙ append_assoc out.lengths (length f.payload ∷ []) (take room (sizes fs)))
