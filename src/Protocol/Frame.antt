-- ===== src/Protocol/Frame.antt =====
-- crates/rnet-protocol/src/lib.rs: the logical frame, its datagram form and its incremental parser.
pub mod RoundTrip
pub mod Stream
pub mod Chunks
mod Tests
use Prim.Native.Nat.{bit_and}
use rnetlib.Prelude.{
  ℕ, zero, suc, ◌+◌, ◌-◌, Bool, not, ◌||◌, Option, none, some, List, [], ◌∷◌, ◌++◌, Result, ok, err,
  ErrorCode, invalid_argument, protocol_error, message_too_large, ◌>>=◌, ◌>>◌, reject, ok_or, ltb,
  ◌==◌, if◌then◌else◌, length, take, drop, u32_max, checked_add,
}
use rnetlib.Prelude.Bytes.{to_be, from_be, slice}

abbrev pub magic : ℕ
magic = 0x524e_4554

abbrev pub version : ℕ
version = 2

abbrev pub header_len : ℕ
header_len = 20

abbrev pub supported_flags : ℕ
supported_flags = 0

-- `!flags` of a `u16`
abbrev pub not_u16 : ℕ → ℕ
not_u16 flags = 0xffff - flags

pub record FrameHeader : Type 0 where
  pub version : ℕ
  pub flags : ℕ
  pub body_len : ℕ
  pub correlation_id : ℕ

pub record Frame : Type 0 where
  pub header : FrameHeader
  pub body : List ℕ

pub record FrameCodec : Type 0 where
  pub max_body_len : ℕ
  pub buffer : List ℕ

pub validate_flags : ℕ → Result (Unit {0})
validate_flags flags = reject (not (bit_and flags (not_u16 supported_flags) == 0)) protocol_error

pub parse_header : List ℕ → ℕ → Result FrameHeader
unfolding validate_flags
parse_header input max_body_len = do
  reject (not (from_be (slice 0 4 input) == magic)) protocol_error
  let wire_version = from_be (slice 4 6 input)
  reject (not (wire_version == version)) protocol_error
  let flags = from_be (slice 6 8 input)
  validate_flags flags
  let body_len = from_be (slice 8 12 input)
  reject (ltb max_body_len body_len) message_too_large
  ok (record {
    version = wire_version;
    flags = flags;
    body_len = body_len;
    correlation_id = from_be (slice 12 20 input);
  })

-- `FrameCodec::new`
pub new : ℕ → Result FrameCodec
new max_body_len = do
  reject (max_body_len == 0 || ltb u32_max max_body_len) invalid_argument
  ok (record { max_body_len = max_body_len; buffer = [] })

pub encode_frame : ℕ → ℕ → List ℕ → ℕ → Result (List ℕ)
unfolding validate_flags
encode_frame correlation_id flags body max_body_len = do
  reject (max_body_len == 0 || ltb u32_max max_body_len) invalid_argument
  validate_flags flags
  reject (ltb max_body_len (length body) || ltb u32_max (length body)) message_too_large
  ok (
      to_be 4 magic
      ++ to_be 2 version
      ++ to_be 2 flags
      ++ to_be 4 (length body)
      ++ to_be 8 correlation_id
      ++ body)

pub decode_datagram : List ℕ → ℕ → Result Frame
decode_datagram input max_body_len = do
  reject (ltb (length input) header_len) protocol_error
  header ← parse_header (take header_len input) max_body_len
  reject (not (length input == header_len + header.body_len)) protocol_error
  ok (record { header = header; body = drop header_len input })

-- One round of the loop of `push`: the first complete frame of the buffer and what follows it.
pub next_frame : ℕ → List ℕ → Result (Option (Frame × List ℕ))
next_frame max_body_len buffer = if ltb (length buffer) header_len then ok none else do
  header ← parse_header (take header_len buffer) max_body_len
  frame_len ← ok_or (checked_add header_len header.body_len) message_too_large
  if ltb (length buffer) frame_len
      then ok none
      else ok (
          some (
            record { header = header; body = drop header_len (take frame_len buffer) },
            drop frame_len buffer,
          ))

abbrev pub cons_frame : Frame → Result (List Frame) × List ℕ → Result (List Frame) × List ℕ
cons_frame frame (ok frames, rest) = (ok (frame ∷ frames), rest)
cons_frame frame (err e, rest) = (err e, rest)

-- The loop of `push`, with what it leaves in the buffer. A round removes a header at least, so the
-- length of the buffer is fuel enough.
pub drain_frames : ℕ → ℕ → List ℕ → Result (List Frame) × List ℕ
drain_frames zero max_body_len buffer = (ok [], buffer)
drain_frames (suc fuel) max_body_len buffer = elim (next_frame max_body_len buffer) [
  | err e ↦ (err e, buffer)
  | ok none ↦ (ok [], buffer)
  | ok (some (frame, rest)) ↦ cons_frame frame (drain_frames fuel max_body_len rest)
]

-- `FrameCodec::push`. A failed call keeps what it consumed before the error.
pub push : FrameCodec → List ℕ → Result (List Frame) × FrameCodec
unfolding drain_frames
push codec input =
    let buffer = codec.buffer ++ input in
    let (frames, rest) = drain_frames (length buffer) codec.max_body_len buffer in
    (frames, record codec { buffer = rest })
