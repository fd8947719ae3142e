-- ===== src/Grpc/Frames.antt =====
-- What the loop of `summarizeGRPCFrames` in internal/proxy/grpc.go makes of a body.
use api_x.Base.{
  ℕ, zero, suc, ◌+◌, ◌<◌, ◌≤◌, Text, false, none, some, List, [], ◌∷◌, ◌++◌, length, take, drop,
  All, ltb, ◌==◌, ◌≡◌, refl, sym, ap, ◌∙◌, arith, Bool-cases, inl, inr, ◌↔◌, drop-append,
  take-append-drop, length-take, length-drop, length-append,
}
use native.Mathlib.Nat.{zero-add}
use api_x.Grpc.{
  FrameSummary, no_frames, uint32, add_frame, failed, invalid_flag, truncated_payload,
  truncated_header, summarize_loop, summarize_grpc_frames, or_no_frames, max_stored_frame_lengths,
}
use api_x.Grpc.Summary.{
  add_frames, count-add_frames, parse_err-add_frames, compressed_in, compressed_count-add_frames,
  sizes, lengths-add_frames,
}
use api_x.Grpc.Encoding.{
  Frame, flag_of, bytes_of, encode, Fits, uint32-bytes_of, bytes_of-uint32, uint32_bound,
}

flag_small : (f : Frame) → ltb 1 (flag_of f) ≡ false
flag_small f = ground arith

payload_there : (p rest : Text) → ltb (length (p ++ rest)) (length p) ≡ false
payload_there p rest = ground (arith, length-append p rest)

-- One complete frame.
step_frame :
    (fuel offset : ℕ) (f : Frame) (rest : Text) (out : FrameSummary)
    → summarize_loop
        (suc fuel)
        offset
        (flag_of f ∷ bytes_of (length f.payload) (f.payload ++ rest))
        out
      ≡ summarize_loop fuel
          (offset + 5 + length f.payload)
          rest
          (add_frame (flag_of f) (length f.payload) out)
unfolding summarize_loop
step_frame fuel offset f rest out =
    let n = length f.payload in
    rw (uint32-bytes_of n, drop-append f.payload rest, flag_small f, payload_there f.payload rest)

loop-encode :
    (fs : List Frame) (fuel offset : ℕ) (out : FrameSummary)
    → length (encode fs) < fuel
    → summarize_loop fuel offset (encode fs) out ≡ some (add_frames fs out)
unfolding summarize_loop
loop-encode fs zero offset out enough = absurd (omega arith)
loop-encode [] (suc fuel) offset out enough = refl
loop-encode (f ∷ fs) (suc fuel) offset out enough =
    step_frame fuel offset f (encode fs) out
    ∙ loop-encode fs fuel (offset + 5 + length f.payload)
        (add_frame (flag_of f) (length f.payload) out)
        (omega (arith, length-append f.payload (encode fs)))

abbrev pub AreBytes : Text → Type 0
AreBytes body = All (λ b. b < 256) body

AreBytes-drop : (n : ℕ) (body : Text) → AreBytes body → AreBytes (drop n body)
AreBytes-drop zero body h = h
AreBytes-drop (suc n) [] h = h
AreBytes-drop (suc n) (b ∷ body) h = AreBytes-drop n body h.1

-- A result without an error stands for complete frames, which are the whole body.
abbrev Explains : Text → FrameSummary → FrameSummary → Type 0
Explains body out r =
    r.parse_err ≡ none
    → (fs : List Frame) × All Fits fs × (body ≡ encode fs) × (r ≡ add_frames fs out)

abbrev frame_of : ℕ → ℕ → Text → Frame
frame_of flag n rest = record { compressed = flag == 1; payload = take n rest }

flag_of-frame_of :
    (flag n : ℕ) (rest : Text) → ltb 1 flag ≡ false → flag_of (frame_of flag n rest) ≡ flag
flag_of-frame_of flag n rest small = ground arith

-- The frame that a step has read is written as the bytes that it has read.
rewritten :
    (flag a b c d : ℕ) (rest tail : Text)
    → ltb 1 flag ≡ false
    → AreBytes (a ∷ b ∷ c ∷ d ∷ [])
    → uint32 a b c d ≤ length rest
    → drop (uint32 a b c d) rest ≡ tail
    → let f = frame_of flag (uint32 a b c d) rest in
      flag_of f ∷ bytes_of (length f.payload) (f.payload ++ tail) ≡ flag ∷ a ∷ b ∷ c ∷ d ∷ rest
rewritten flag a b c d rest tail small (ha, (hb, (hc, (hd, _)))) fits e =
    let n = uint32 a b c d in
    rw (flag_of-frame_of flag n rest small, length-take n rest fits, ← e, take-append-drop n rest)
      (ap (◌∷◌ flag) (bytes_of-uint32 a b c d rest ha hb hc hd))

step_on :
    (fuel offset flag a b c d : ℕ) (rest : Text) (out : FrameSummary)
    → ltb 1 flag ≡ false
    → ltb (length rest) (uint32 a b c d) ≡ false
    → summarize_loop (suc fuel) offset (flag ∷ a ∷ b ∷ c ∷ d ∷ rest) out
      ≡ summarize_loop fuel
          (offset + 5 + uint32 a b c d)
          (drop (uint32 a b c d) rest)
          (add_frame flag (uint32 a b c d) out)
unfolding summarize_loop
step_on fuel offset flag a b c d rest out small fits = rw (small, fits)

explain_frame :
    (flag a b c d : ℕ) (rest : Text) (out r : FrameSummary)
    → ltb 1 flag ≡ false
    → AreBytes (a ∷ b ∷ c ∷ d ∷ rest)
    → uint32 a b c d ≤ length rest
    → let n = uint32 a b c d in
      ((fs : List Frame) × All Fits fs
        × (drop n rest ≡ encode fs)
        × (r ≡ add_frames fs (add_frame flag n out)))
      → (fs : List Frame) × All Fits fs
        × (flag ∷ a ∷ b ∷ c ∷ d ∷ rest ≡ encode fs)
        × (r ≡ add_frames fs out)
explain_frame flag a b c d rest out r small (ha, (hb, (hc, (hd, _)))) whole (fs, fit, e, s) =
    let n = uint32 a b c d in
    let f = frame_of flag n rest in
    let size : length f.payload ≡ n = length-take n rest whole in
    let bound = uint32_bound a b c d ha hb hc hd in
    (
      f ∷ fs,
      (omega (arith, size, bound), fit),
      sym (rewritten flag a b c d rest (encode fs) small (ha, (hb, (hc, (hd, tt)))) whole e),
      rw (flag_of-frame_of flag n rest small, size) s,
    )

loop_with_cause :
    (fuel offset : ℕ) (body : Text) (out : FrameSummary)
    → length body < fuel
    → AreBytes body
    → (r : FrameSummary) × (summarize_loop fuel offset body out ≡ some r) × Explains body out r
unfolding summarize_loop
loop_with_cause zero offset body out enough bytes = absurd (omega arith)
loop_with_cause (suc fuel) offset [] out enough bytes = (out, refl, λ ok. ([], tt, refl, refl))
loop_with_cause (suc fuel) offset (flag ∷ a ∷ b ∷ c ∷ d ∷ rest) out enough bytes =
    elim (Bool-cases (ltb 1 flag)) [
      | inl bad ↦ (failed (invalid_flag flag offset) out, rw bad, λ ok. cc)
      | inr small ↦ elim (Bool-cases (ltb (length rest) (uint32 a b c d))) [
        | inl short ↦ (failed (truncated_payload (offset + 5)) out, rw (small, short), λ ok. cc)
        | inr fits ↦
            let n = uint32 a b c d in
            let whole : n ≤ length rest = ground arith in
            let (r, run, why) =
              loop_with_cause fuel (offset + 5 + n) (drop n rest) (add_frame flag n out)
                (omega (arith, length-drop n rest)) (AreBytes-drop n rest bytes.1.1.1.1.1) in
            (
              r,
              step_on fuel offset flag a b c d rest out small fits ∙ run,
              λ ok. explain_frame flag a b c d rest out r small bytes.1 whole (why ok),
            )
      ]
    ]
loop_with_cause (suc fuel) offset (flag ∷ rest) out enough bytes = (_, refl, λ ok. cc)

summarize-some :
    (body : Text) (r : FrameSummary)
    → summarize_loop (length body + 1) 0 body no_frames ≡ some r
    → summarize_grpc_frames body ≡ r
unfolding summarize_grpc_frames
summarize-some body r e = ap or_no_frames e

-- Frames that are written one behind another are summarised as what they are: their number, the number
-- of those compressed, and the lengths of the first sixteen, without an error.
pub summarize-encode :
    (fs : List Frame)
    → summarize_grpc_frames (encode fs) ≡ record {
      count = length fs;
      compressed_count = compressed_in fs;
      lengths = take max_stored_frame_lengths (sizes fs);
      parse_err = none;
    }
unfolding summarize_grpc_frames
summarize-encode fs =
    summarize-some (encode fs) (add_frames fs no_frames)
      (loop-encode fs _ 0 no_frames (omega arith))
    ∙ λ i. record {
      count = (count-add_frames fs no_frames ∙ zero-add (length fs)) i;
      compressed_count = (compressed_count-add_frames fs no_frames ∙ zero-add (compressed_in fs)) i;
      lengths = lengths-add_frames fs no_frames max_stored_frame_lengths (omega arith) i;
      parse_err = parse_err-add_frames fs no_frames i;
    }

-- The loop ends on every body within the fuel that it is given.
pub loop_ends :
    (fuel offset : ℕ) (body : Text) (out : FrameSummary)
    → length body < fuel
    → (r : FrameSummary) × (summarize_loop fuel offset body out ≡ some r)
unfolding summarize_loop
loop_ends zero offset body out enough = absurd (omega arith)
loop_ends (suc fuel) offset [] out enough = (out, refl)
loop_ends (suc fuel) offset (flag ∷ a ∷ b ∷ c ∷ d ∷ rest) out enough =
    elim (Bool-cases (ltb 1 flag)) [
      | inl bad ↦ (failed (invalid_flag flag offset) out, rw bad)
      | inr small ↦ elim (Bool-cases (ltb (length rest) (uint32 a b c d))) [
        | inl short ↦ (failed (truncated_payload (offset + 5)) out, rw (small, short))
        | inr fits ↦
            let n = uint32 a b c d in
            let (r, run) =
              loop_ends fuel (offset + 5 + n) (drop n rest) (add_frame flag n out)
                (omega (arith, length-drop n rest)) in
            (r, step_on fuel offset flag a b c d rest out small fits ∙ run)
      ]
    ]
loop_ends (suc fuel) offset (flag ∷ rest) out enough = (failed (truncated_header offset) out, refl)

-- A body of bytes has no parse error exactly if it is a sequence of complete frames.
pub no_error-iff-encode :
    (body : Text)
    → AreBytes body
    → ((summarize_grpc_frames body).parse_err ≡ none)
      ↔ ((fs : List Frame) × All Fits fs × (body ≡ encode fs))
no_error-iff-encode body bytes =
    let (r, run, why) = loop_with_cause (length body + 1) 0 body no_frames (omega arith) bytes in
    (
      λ ok.
          let (fs, fit, e, _) =
            why (sym (ap (λ s. s.parse_err) (summarize-some body r run)) ∙ ok) in
          (fs, fit, e),
      λ (fs, fit, e).
          ap (λ b. (summarize_grpc_frames b).parse_err) e
          ∙ ap (λ s. s.parse_err) (summarize-encode fs),
    )
