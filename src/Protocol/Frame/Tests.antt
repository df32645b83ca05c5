-- ===== src/Protocol/Frame/Tests.antt =====
-- Frames on the wire.
use mathlib.Core.List.{flatten}
use rnetlib.Prelude.{ℕ, ◌≡◌, refl, arith, none, List, [], ◌∷◌, map, ok, err, message_too_large}
use rnetlib.Prelude.Bytes.{from_be, from_le, all_bytes_sound}
use rnetlib.Protocol.Frame.{
  FrameCodec, Frame, encode_frame, decode_datagram, parse_header, validate_flags, next_frame, push,
}
use rnetlib.Protocol.Frame.RoundTrip.{decode-encode_frame, encode-decode_datagram, header_of}
use rnetlib.Protocol.Frame.Chunks.{
  push_all, outcome, encode_all, frame_of, push_all-chunks, push_all-encode_all,
}

abbrev body : List ℕ
body = 65 ∷ 66 ∷ []

abbrev wire : List ℕ
wire =
    0x52 ∷ 0x4e ∷ 0x45 ∷ 0x54 ∷ 0 ∷ 2 ∷ 0 ∷ 0 ∷ 0 ∷ 0 ∷ 0 ∷ 2 ∷ 0 ∷ 0 ∷ 0 ∷ 0 ∷ 0 ∷ 0 ∷ 0 ∷ 9 ∷ body

encoded : encode_frame 9 0 body 16 ≡ ok wire
unfolding encode_frame validate_flags
encoded = refl

too_large : encode_frame 9 0 body 1 ≡ err message_too_large
unfolding encode_frame validate_flags
too_large = refl

abbrev frame : Frame
frame = record { header = header_of 2 9; body = body }

decoded : decode_datagram wire 16 ≡ ok frame
unfolding decode_datagram parse_header validate_flags from_be from_le
decoded = refl

abbrev codec : FrameCodec
codec = record { max_body_len = 16; buffer = [] }

-- Two reads that cut the header.
abbrev pieces : List (List ℕ)
pieces =
    (0x52 ∷ 0x4e ∷ [])
    ∷ (0x45 ∷ 0x54 ∷ 0 ∷ 2 ∷ 0 ∷ 0 ∷ 0 ∷ 0 ∷ 0 ∷ 2 ∷ 0 ∷ 0 ∷ 0 ∷ 0 ∷ 0 ∷ 0 ∷ 0 ∷ 9 ∷ body)
    ∷ []

idle : next_frame 16 [] ≡ ok none
unfolding next_frame
idle = refl

all_encoded : encode_all 16 ((9, body) ∷ []) ≡ ok (flatten pieces)
unfolding encode_all encode_frame validate_flags flatten
all_encoded = refl

decode-encode_frame_example : decode_datagram wire 16 ≡ ok frame
decode-encode_frame_example = decode-encode_frame 9 0 body 16 (omega arith) (omega arith) encoded

encode-decode_datagram_example : encode_frame 9 0 body 16 ≡ ok wire
encode-decode_datagram_example =
    encode-decode_datagram wire 16 (all_bytes_sound wire refl) (omega arith) (omega arith) decoded

push_all-chunks_example : outcome (push_all codec pieces) ≡ outcome (push codec (flatten pieces))
push_all-chunks_example = push_all-chunks codec pieces idle

push_all-encode_all_example :
    outcome (push_all codec pieces) ≡ ok (map frame_of ((9, body) ∷ []), [])
push_all-encode_all_example =
    push_all-encode_all 16 ((9, body) ∷ []) pieces (omega arith, tt) all_encoded
