-- ===== src/Protocol/Frame/RoundTrip.antt =====
-- `encode_frame` against `decode_datagram`.
use mathlib.Core.Path.{ap₂}
use rnetlib.Prelude.{
  ℕ, ◌+◌, ◌≤◌, ◌<◌, ◌^◌, ◌≡◌, refl, sym, ap, ◌∙◌, List, ◌++◌, ok, arith, length, take, drop,
  u32_max, ltb, false, length-take, length-drop, take-append-drop, drop-take_self, All-take,
}
use rnetlib.Prelude.Bits.{bit_and-ones}
use rnetlib.Prelude.Bytes.{
  from_be-slice-lt, rebuild-field, to_be, from_be, from_be-to_be, slice, IsBytes,
}
use rnetlib.Protocol.Frame.{
  FrameHeader, Frame, magic, version, validate_flags, parse_header, encode_frame, decode_datagram,
}

-- The 20 bytes that stand before a body.
abbrev pub header_bytes : ℕ → ℕ → ℕ → List ℕ
header_bytes flags body_len correlation_id =
    to_be 4 magic ++ to_be 2 version ++ to_be 2 flags ++ to_be 4 body_len ++ to_be 8 correlation_id

abbrev pub header_of : ℕ → ℕ → FrameHeader
header_of body_len correlation_id = record {
  version = version;
  flags = 0;
  body_len = body_len;
  correlation_id = correlation_id;
}

pub parse_header-bytes :
    (body_len correlation_id max_body_len : ℕ)
    → body_len < 2 ^ 32
    → correlation_id < 2 ^ 64
    → body_len ≤ max_body_len
    → parse_header (header_bytes 0 body_len correlation_id) max_body_len
      ≡ ok (header_of body_len correlation_id)
unfolding parse_header validate_flags
parse_header-bytes n c m hn hc hm =
    rw
      (
        from_be-to_be 4 n hn,
        from_be-to_be 8 c hc,
        from_be-to_be 4 magic (omega arith),
        from_be-to_be 2 version (omega arith),
        from_be-to_be 2 0 (omega arith),
        unchecked,
      )
      refl
  where
    unchecked : ltb m n ≡ false
    unchecked = ground arith

-- What a checked encoding is made of.
pub encode_frame-eq :
    (c f : ℕ) (body : List ℕ) (m : ℕ) {wire : List ℕ}
    → f < 2 ^ 16
    → encode_frame c f body m ≡ ok wire
    → (f ≡ 0)
      × (length body ≤ m)
      × (length body ≤ u32_max)
      × (wire ≡ header_bytes 0 (length body) c ++ body)
unfolding encode_frame validate_flags
encode_frame-eq c f body m hf e = ground (arith, bit_and-ones 16 f)

-- Decoding what `encode_frame` returned gives the same correlation, flags and body. The arguments are
-- of their machine types.
pub decode-encode_frame :
    (correlation_id flags : ℕ) (body : List ℕ) (max_body_len : ℕ) {wire : List ℕ}
    → correlation_id < 2 ^ 64
    → flags < 2 ^ 16
    → encode_frame correlation_id flags body max_body_len ≡ ok wire
    → decode_datagram wire max_body_len
      ≡ ok (record {
        header = record {
          version = version;
          flags = flags;
          body_len = length body;
          correlation_id = correlation_id;
        };
        body = body;
      })
unfolding decode_datagram
decode-encode_frame c f body m hc hf e =
    let (flagless, fits, small, shape) = encode_frame-eq c f body m hf e in
    rw (shape, flagless, parse_header-bytes (length body) c m (omega arith) hc fits) (ground arith)

-- What `parse_header` read, when it accepts 20 bytes.
parse_header-fields :
    (input : List ℕ) (m : ℕ) {h : FrameHeader}
    → IsBytes input
    → 20 ≤ length input
    → parse_header input m ≡ ok h
    → (from_be (slice 0 4 input) ≡ magic)
      × (from_be (slice 4 6 input) ≡ version)
      × (from_be (slice 6 8 input) ≡ 0)
      × (from_be (slice 8 12 input) ≡ h.body_len)
      × (from_be (slice 12 20 input) ≡ h.correlation_id)
      × (h.version ≡ version)
      × (h.flags ≡ 0)
      × (h.body_len ≤ m)
unfolding parse_header validate_flags
parse_header-fields input m b n e =
    ground (
      arith,
      bit_and-ones 16 (from_be (slice 6 8 input)),
      from_be-slice-lt 6 8 input b (omega arith),
    )

-- Twenty bytes are their five fields.
header-rebuild :
    (input : List ℕ) (n c : ℕ)
    → IsBytes input
    → 20 ≤ length input
    → from_be (slice 0 4 input) ≡ magic
    → from_be (slice 4 6 input) ≡ version
    → from_be (slice 6 8 input) ≡ 0
    → from_be (slice 8 12 input) ≡ n
    → from_be (slice 12 20 input) ≡ c
    → input ≡ header_bytes 0 n c ++ drop 20 input
header-rebuild input n c b long e₁ e₂ e₃ e₄ e₅ =
    rebuild-field 0 4 magic input _ b (omega arith) (omega arith) e₁ (
      rebuild-field 4 6 version input _ b (omega arith) (omega arith) e₂ (
        rebuild-field 6 8 0 input _ b (omega arith) (omega arith) e₃ (
          rebuild-field 8 12 n input _ b (omega arith) (omega arith) e₄
            (rebuild-field 12 20 c input _ b long (omega arith) e₅ refl))))

encode_frame-checked :
    (c : ℕ) (body : List ℕ) (m : ℕ)
    → 0 < m
    → m ≤ u32_max
    → length body ≤ m
    → encode_frame c 0 body m ≡ ok (header_bytes 0 (length body) c ++ body)
unfolding encode_frame validate_flags
encode_frame-checked c body m pos small fits = ground arith

-- The parts of a datagram that `decode_datagram` accepts.
decode_datagram-parts :
    (wire : List ℕ) (m : ℕ) {frame : Frame}
    → decode_datagram wire m ≡ ok frame
    → (20 ≤ length wire)
      × (parse_header (take 20 wire) m ≡ ok frame.header)
      × (length wire ≡ 20 + frame.header.body_len)
      × (frame.body ≡ drop 20 wire)
unfolding decode_datagram
decode_datagram-parts wire m e = ground arith

-- The decoder accepts canonical bytes only: encoding what it returned gives the datagram back.
pub encode-decode_datagram :
    (wire : List ℕ) (max_body_len : ℕ) {frame : Frame}
    → IsBytes wire
    → 0 < max_body_len
    → max_body_len ≤ u32_max
    → decode_datagram wire max_body_len ≡ ok frame
    → encode_frame frame.header.correlation_id frame.header.flags frame.body max_body_len ≡ ok wire
encode-decode_datagram wire m {frame} b pos small e =
    let (long, parsed, exact, body) = decode_datagram-parts wire m e in
    let bytes : IsBytes (take 20 wire) = All-take _ 20 wire b in
    let head_long : 20 ≤ length (take 20 wire) = omega (arith, length-take 20 wire) in
    let (e₁, e₂, e₃, e₄, e₅, v, f, fits) =
      parse_header-fields (take 20 wire) m bytes head_long parsed in
    let body_len : length frame.body ≡ frame.header.body_len =
      omega (arith, ap length body, length-drop 20 wire) in
    let whole : wire
        ≡ header_bytes 0 frame.header.body_len frame.header.correlation_id ++ frame.body =
      sym (take-append-drop 20 wire)
      ∙ ap₂ ◌++◌
          (header-rebuild (take 20 wire) _ _ bytes head_long e₁ e₂ e₃ e₄ e₅
            ∙ ap (◌++◌ (header_bytes 0 frame.header.body_len frame.header.correlation_id))
                (drop-take_self 20 wire))
          (sym body) in
    rw
      (
        f,
        encode_frame-checked frame.header.correlation_id frame.body m pos small (omega arith),
        body_len,
        ← whole,
      )
      refl
