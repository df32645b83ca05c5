-- ===== src/Protocol/Frame/Chunks.antt =====
-- A client that pushes a stream chunk by chunk, and the frames that it gets.
use mathlib.Core.List.{append_assoc, append-nil, flatten}
use rnetlib.Prelude.{
  ℕ, ◌+◌, ◌<◌, ◌^◌, ◌≡◌, refl, sym, ap, ◌∙◌, List, [], ◌∷◌, ◌++◌, none, some, Result, ok, err,
  arith, length, length-append, map, ◌>>=◌, chain_ok, All, take-length_append, drop-length_append,
}
use rnetlib.Protocol.Frame.{Frame, FrameCodec, next_frame, cons_frame, push, encode_frame}
use rnetlib.Protocol.Frame.RoundTrip.{header_of, parse_header-bytes, encode_frame-eq}
use rnetlib.Protocol.Frame.Stream.{
  next_frame-nil, drain, drain-append, drain-step, drain-rest, next_frame_complete, prepend, resume,
  drain_frames-zero,
}

abbrev collect : List Frame → Result (List Frame) × FrameCodec → Result (List Frame) × FrameCodec
collect frames (ok more, codec) = (ok (frames ++ more), codec)
collect frames (err e, codec) = (err e, codec)

abbrev and_then :
    Result (List Frame) × FrameCodec
    → (FrameCodec → Result (List Frame) × FrameCodec)
    → Result (List Frame) × FrameCodec
and_then (ok frames, codec) later = collect frames (later codec)
and_then (err e, codec) later = (err e, codec)

-- Successive calls of `push`, up to the first error.
pub push_all : FrameCodec → List (List ℕ) → Result (List Frame) × FrameCodec
push_all codec [] = (ok [], codec)
push_all codec (chunk ∷ chunks) = and_then (push codec chunk) (λ codec'. push_all codec' chunks)

-- The frames and the bytes kept, or the error.
abbrev pub outcome : Result (List Frame) × FrameCodec → Result (List Frame × List ℕ)
outcome (ok frames, codec) = ok (frames, codec.buffer)
outcome (err e, codec) = err e

-- No complete frame waits in the buffer, and no error: so it is in a new codec and after each call.
abbrev pub IsIdle : FrameCodec → Type 0
IsIdle codec = next_frame codec.max_body_len codec.buffer ≡ ok none

abbrev view : Result (List Frame) × List ℕ → Result (List Frame × List ℕ)
view (ok frames, rest) = ok (frames, rest)
view (err e, rest) = err e

push-view :
    (codec : FrameCodec) (input : List ℕ)
    → outcome (push codec input) ≡ view (drain codec.max_body_len (codec.buffer ++ input))
unfolding push
push-view codec input = go (drain codec.max_body_len (codec.buffer ++ input)) refl
  where
    go :
        (r : Result (List Frame) × List ℕ)
        → drain codec.max_body_len (codec.buffer ++ input) ≡ r
        → outcome (push codec input) ≡ view (drain codec.max_body_len (codec.buffer ++ input))
    go (ok frames, rest) h = rw h refl
    go (err e, rest) h = rw h refl

abbrev append_view : List Frame → Result (List Frame × List ℕ) → Result (List Frame × List ℕ)
append_view frames (ok (more, rest)) = ok (frames ++ more, rest)
append_view frames (err e) = err e

view-prepend :
    (frames : List Frame) (r : Result (List Frame) × List ℕ)
    → view (prepend frames r) ≡ append_view frames (view r)
view-prepend frames (ok more, rest) = refl
view-prepend frames (err e, rest) = refl

outcome-collect :
    (frames : List Frame) (r : Result (List Frame) × FrameCodec)
    → outcome (collect frames r) ≡ append_view frames (outcome r)
outcome-collect frames (ok more, codec) = refl
outcome-collect frames (err e, codec) = refl

-- The loop on the concatenation, in terms of the loop on its two parts.
view-drain_append :
    (m : ℕ) (buf more : List ℕ) (r : Result (List Frame) × List ℕ)
    → drain m buf ≡ r
    → view (drain m (buf ++ more)) ≡ view (resume m r more)
view-drain_append m buf more r h = ap view (drain-append m more buf) ∙ rw h refl

chunks_step :
    (codec : FrameCodec) (chunk : List ℕ) (chunks : List (List ℕ))
    (r : Result (List Frame) × List ℕ)
    → drain codec.max_body_len (codec.buffer ++ chunk) ≡ r
    → ((rest : List ℕ)
        → next_frame codec.max_body_len rest ≡ ok none
        → outcome (push_all (record codec { buffer = rest }) chunks)
          ≡ view (drain codec.max_body_len (rest ++ flatten chunks)))
    → outcome (push_all codec (chunk ∷ chunks))
      ≡ view (drain codec.max_body_len (codec.buffer ++ (chunk ++ flatten chunks)))
unfolding push_all push
chunks_step codec chunk chunks (err e, rest) h ih =
    rw (h, outcome)
      (sym (
        rw (← append_assoc codec.buffer chunk (flatten chunks))
          (view-drain_append codec.max_body_len (codec.buffer ++ chunk) (flatten chunks) _ h)))
chunks_step codec chunk chunks (ok frames, rest) h ih =
    rw (h, outcome)
      (outcome-collect frames (push_all (record codec { buffer = rest }) chunks)
        ∙ ap (append_view frames)
            (ih rest (drain-rest codec.max_body_len (codec.buffer ++ chunk) h))
        ∙ sym (view-prepend frames (drain codec.max_body_len (rest ++ flatten chunks)))
        ∙ sym (
            rw (← append_assoc codec.buffer chunk (flatten chunks))
              (view-drain_append codec.max_body_len (codec.buffer ++ chunk) (flatten chunks) _ h)))

push_all-view :
    (codec : FrameCodec) (chunks : List (List ℕ))
    → IsIdle codec
    → outcome (push_all codec chunks)
      ≡ view (drain codec.max_body_len (codec.buffer ++ flatten chunks))
unfolding push_all flatten
push_all-view codec [] idle =
    rw (append-nil codec.buffer, drain-step codec.max_body_len codec.buffer, idle) refl
push_all-view codec (chunk ∷ chunks) idle =
    chunks_step codec chunk chunks (drain codec.max_body_len (codec.buffer ++ chunk)) refl
      (λ rest waits. push_all-view (record codec { buffer = rest }) chunks waits)

-- Pushing a stream chunk by chunk gives the frames, the bytes kept or the error of one `push` of the
-- whole stream, however the stream is cut, when the codec holds no complete frame at the start.
pub push_all-chunks :
    (codec : FrameCodec) (chunks : List (List ℕ))
    → IsIdle codec
    → outcome (push_all codec chunks) ≡ outcome (push codec (flatten chunks))
push_all-chunks codec chunks idle =
    push_all-view codec chunks idle ∙ sym (push-view codec (flatten chunks))

-- A client's messages, each a correlation and a body, on the wire.
unfoldable pub encode_all : ℕ → List (ℕ × List ℕ) → Result (List ℕ)
encode_all m [] = ok []
encode_all m ((correlation_id, body) ∷ messages) = do
  wire ← encode_frame correlation_id 0 body m
  later ← encode_all m messages
  ok (wire ++ later)

abbrev pub frame_of : ℕ × List ℕ → Frame
frame_of (correlation_id, body) = record {
  header = header_of (length body) correlation_id;
  body = body;
}

abbrev pub IsCorrelation : ℕ × List ℕ → Type 0
IsCorrelation (correlation_id, body) = correlation_id < 2 ^ 64

-- The loop on one encoded frame and what follows it.
next_frame-encoded :
    (m c : ℕ) (body rest : List ℕ) {wire : List ℕ}
    → c < 2 ^ 64
    → encode_frame c 0 body m ≡ ok wire
    → next_frame m (wire ++ rest) ≡ ok (some (frame_of (c, body), rest))
next_frame-encoded m c body rest {wire} small e =
    let (flagless, fits, short, shape) = encode_frame-eq c 0 body m (omega arith) e in
    let long : 20 + length body ≡ length wire = sym (ap length shape ∙ omega arith) in
    rw
      (
        next_frame_complete m (wire ++ rest) (header_of (length body) c)
            (omega (arith, length-append wire rest))
            (rw shape (parse_header-bytes (length body) c m (omega arith) small fits)) (omega arith)
            (omega (arith, length-append wire rest)),
        long,
        take-length_append wire rest,
        drop-length_append wire rest,
        shape,
      )
      refl

drain-encoded :
    (m : ℕ) (messages : List (ℕ × List ℕ)) {wire : List ℕ}
    → All IsCorrelation messages
    → encode_all m messages ≡ ok wire
    → drain m wire ≡ (ok (map frame_of messages), [])
unfolding encode_all
drain-encoded m [] {wire} small e = let e' : wire ≡ [] = ground arith in rw e' (drain_frames-zero m)
drain-encoded m ((c, body) ∷ messages) {wire} small e =
    let (first, f₁, e₁) = chain_ok _ (encode_frame c 0 body m) e in
    let (later, f₂, e₂) = chain_ok _ (encode_all m messages) f₁ in
    let whole : first ++ later ≡ wire = ground arith in
    rw (← whole, drain-step m (first ++ later), next_frame-encoded m c body later small.0 e₁)
      (ap (cons_frame (frame_of (c, body))) (drain-encoded m messages small.1 e₂))

-- Frames encoded one after another and cut into chunks anywhere come out of a new codec unchanged and
-- in order, and leave nothing in its buffer.
pub push_all-encode_all :
    (m : ℕ) (messages : List (ℕ × List ℕ)) (chunks : List (List ℕ))
    → All IsCorrelation messages
    → encode_all m messages ≡ ok (flatten chunks)
    → outcome (push_all (record { max_body_len = m; buffer = [] }) chunks)
      ≡ ok (map frame_of messages, [])
push_all-encode_all m messages chunks small e =
    push_all-view (record { max_body_len = m; buffer = [] }) chunks (next_frame-nil m)
    ∙ rw (drain-encoded m messages small e) refl
