-- ===== src/Game/Envelope/Canonical.antt =====
-- `decode` accepts one wire form of each envelope.
use Prim.Native.Nat.{bit_and}
use rnetlib.Prelude.{
  ℕ, zero, suc, ◌≤◌, ◌<◌, ◌^◌, ◌≡◌, ◌↔◌, refl, ◌∙◌, List, ok, arith, length, length-drop, drop,
  none, some, true, false, not, ◌||◌, ◌⊎◌, inl, inr, ltb, ◌==◌, ==_iff, leb, Bool-cases,
}
use rnetlib.Prelude.Bits.{all_below, all_below_sound}
use rnetlib.Prelude.Bytes.{from_be, slice, IsBytes, rebuild-field, rebuild-byte, from_be-slice-lt}
use rnetlib.Game.Envelope.{
  has_flag, DecodedEnvelope, encode, encode_application, encode_udp_application, encode_control,
  decode, decode_body, decode_application, decode_control, read_extension,
}
use rnetlib.Game.Envelope.RoundTrip.{InRange, encode_envelope, decode-encode_envelope}

known_flags : all_below 256 (λ f. not (bit_and f 248 == 0) || ltb f 8) ≡ true
unfolding all_below
known_flags = refl

-- The seven supported bits are the only flags.
flags-lt : (flags : ℕ) → flags < 256 → bit_and flags 248 ≡ 0 → flags < 8
flags-lt flags h known =
    ground
      (arith, all_below_sound 256 (λ f. not (bit_and f 248 == 0) || ltb f 8) flags known_flags h)

abbrev kind_at : List ℕ → ℕ
kind_at wire = from_be (slice 0 1 wire)

abbrev flags_at : List ℕ → ℕ
flags_at wire = from_be (slice 1 2 wire)

-- What `decode` read, when it accepts an envelope.
decode-parts :
    (wire : List ℕ) (m : ℕ) {envelope : DecodedEnvelope}
    → decode wire m ≡ ok envelope
    → (length wire ≤ m)
      × (12 ≤ length wire)
      × (bit_and (flags_at wire) 248 ≡ 0)
      × (((has_flag (flags_at wire) 4 ≡ false)
            × (from_be (slice 2 4 wire) ≡ 12)
            × (decode_body
                  (kind_at wire)
                  (flags_at wire)
                  (from_be (slice 4 8 wire))
                  (from_be (slice 8 12 wire))
                  none
                  (drop 12 wire)
                ≡ ok envelope))
          ⊎ ((has_flag (flags_at wire) 4 ≡ true)
              × (from_be (slice 2 4 wire) ≡ 16)
              × (16 ≤ length wire)
              × (kind_at wire ≡ 0)
              × (decode_body 0
                    (flags_at wire)
                    (from_be (slice 4 8 wire))
                    (from_be (slice 8 12 wire))
                    (some (from_be (slice 12 16 wire)))
                    (drop 16 wire)
                  ≡ ok envelope)))
unfolding decode read_extension
decode-parts wire m e = elim (Bool-cases (has_flag (flags_at wire) 4)) [
  | inl flagged ↦ ground arith
  | inr flagless ↦ ground arith
]

module _ (s t : ℕ) (payload : List ℕ) (m : ℕ) {envelope : DecodedEnvelope} where
  reencode-plain :
      (flags : ℕ)
      → flags < 4
      → decode_application flags s t none payload ≡ ok envelope
      → encode_envelope envelope m ≡ encode 0 flags s t none payload m
  unfolding decode_application encode_application
  reencode-plain zero h e = ground arith
  reencode-plain (suc zero) h e = ground arith
  reencode-plain (suc (suc zero)) h e = ground arith
  reencode-plain (suc (suc (suc zero))) h e = ground arith
  reencode-plain (suc (suc (suc (suc n)))) h e = absurd (omega arith)

  reencode-extended :
      (d flags : ℕ)
      → 4 ≤ flags
      → flags < 8
      → decode_application flags s t (some d) payload ≡ ok envelope
      → encode_envelope envelope m ≡ encode 0 flags s t (some d) payload m
  unfolding decode_application encode_udp_application
  reencode-extended d (suc (suc (suc (suc zero)))) l h e = ground arith
  reencode-extended d (suc (suc (suc (suc (suc zero))))) l h e = ground arith
  reencode-extended d (suc (suc (suc (suc (suc (suc zero)))))) l h e = ground arith
  reencode-extended d (suc (suc (suc (suc (suc (suc (suc zero))))))) l h e = ground arith
  reencode-extended d (suc (suc (suc (suc (suc (suc (suc (suc n)))))))) l h e = absurd (omega arith)
  reencode-extended d _ l h e = absurd (omega arith)

  reencode-control :
      (kind flags : ℕ)
      → decode_control kind flags s t payload ≡ ok envelope
      → encode_envelope envelope m ≡ encode kind flags s t none payload m
  unfolding decode_control encode_control
  reencode-control kind flags e = ground arith

flag_free : all_below 8 (λ f. has_flag f 4 || ltb f 4) ≡ true
unfolding all_below
flag_free = refl

flag_set : all_below 8 (λ f. not (has_flag f 4) || leb 4 f) ≡ true
unfolding all_below
flag_set = refl

-- Reading the header back gives the header.
module _ (wire : List ℕ) (m : ℕ) (b : IsBytes wire) (fits : length wire ≤ m)
    (small : m < 2 ^ 64) where
  encode-plain_back :
      12 ≤ length wire
      → from_be (slice 2 4 wire) ≡ 12
      → encode
          (kind_at wire)
          (flags_at wire)
          (from_be (slice 4 8 wire))
          (from_be (slice 8 12 wire))
          none
          (drop 12 wire)
          m
        ≡ ok wire
  unfolding encode
  encode-plain_back long header =
      let whole = rebuild-byte 0 _ wire _ (omega arith) refl (
        rebuild-byte 1 _ wire _ (omega arith) refl (
          rebuild-field 2 4 12 wire _ b (omega arith) (omega arith) header (
            rebuild-field 4 8 _ wire _ b (omega arith) (omega arith) refl
              (rebuild-field 8 12 _ wire _ b long (omega arith) refl refl)))) in
      ground (arith, whole, length-drop 12 wire)

  encode-extended_back :
      16 ≤ length wire
      → from_be (slice 2 4 wire) ≡ 16
      → encode
          (kind_at wire)
          (flags_at wire)
          (from_be (slice 4 8 wire))
          (from_be (slice 8 12 wire))
          (some (from_be (slice 12 16 wire)))
          (drop 16 wire)
          m
        ≡ ok wire
  unfolding encode
  encode-extended_back long header =
      let whole = rebuild-byte 0 _ wire _ (omega arith) refl (
        rebuild-byte 1 _ wire _ (omega arith) refl (
          rebuild-field 2 4 16 wire _ b (omega arith) (omega arith) header (
            rebuild-field 4 8 _ wire _ b (omega arith) (omega arith) refl (
              rebuild-field 8 12 _ wire _ b (omega arith) (omega arith) refl
                (rebuild-field 12 16 _ wire _ b long (omega arith) refl refl))))) in
      ground (arith, whole, length-drop 16 wire)

  plain_back :
      {envelope : DecodedEnvelope}
      → 12 ≤ length wire
      → has_flag (flags_at wire) 4 ≡ false
      → from_be (slice 2 4 wire) ≡ 12
      → flags_at wire < 8
      → decode_body
          (kind_at wire)
          (flags_at wire)
          (from_be (slice 4 8 wire))
          (from_be (slice 8 12 wire))
          none
          (drop 12 wire)
        ≡ ok envelope
      → encode_envelope envelope m ≡ ok wire
  unfolding decode_body
  plain_back long flagless header flags_small body = elim (Bool-cases (kind_at wire == 0)) [
    | inl business ↦
        reencode-plain (from_be (slice 4 8 wire)) (from_be (slice 8 12 wire)) (drop 12 wire) m
          (flags_at wire)
          (ground (
            arith,
            all_below_sound 8 (λ f. has_flag f 4 || ltb f 4) (flags_at wire) flag_free flags_small,
          ))
          (rw business at body)
        ∙ rw (← (==_iff (kind_at wire) 0).0 business) (encode-plain_back long header)
    | inr library ↦
        reencode-control (from_be (slice 4 8 wire)) (from_be (slice 8 12 wire)) (drop 12 wire) m
          (kind_at wire) (flags_at wire) (rw library at body)
        ∙ encode-plain_back long header
  ]

  extended_back :
      {envelope : DecodedEnvelope}
      → 16 ≤ length wire
      → has_flag (flags_at wire) 4 ≡ true
      → from_be (slice 2 4 wire) ≡ 16
      → flags_at wire < 8
      → kind_at wire ≡ 0
      → decode_body 0
          (flags_at wire)
          (from_be (slice 4 8 wire))
          (from_be (slice 8 12 wire))
          (some (from_be (slice 12 16 wire)))
          (drop 16 wire)
        ≡ ok envelope
      → encode_envelope envelope m ≡ ok wire
  unfolding decode_body
  extended_back long flagged header flags_small business body =
      reencode-extended (from_be (slice 4 8 wire)) (from_be (slice 8 12 wire)) (drop 16 wire) m
        (from_be (slice 12 16 wire)) (flags_at wire)
        (ground (
          arith,
          all_below_sound 8 (λ f. not (has_flag f 4) || leb 4 f) (flags_at wire) flag_set
              flags_small,
        ))
        flags_small body
      ∙ rw (← business) (encode-extended_back long header)

-- Every byte string that `decode` accepts is the one that the encoder makes of the envelope it stands
-- for: no two byte strings are read as the same envelope.
pub encode-decode_envelope :
    (wire : List ℕ) (maximum_len : ℕ) {envelope : DecodedEnvelope}
    → IsBytes wire
    → maximum_len < 2 ^ 64
    → decode wire maximum_len ≡ ok envelope
    → encode_envelope envelope maximum_len ≡ ok wire
encode-decode_envelope wire m {envelope} b small e =
    let (fits, long, known, form) = decode-parts wire m e in
    let flags_byte = from_be-slice-lt 1 2 wire b (omega arith) in
    let flags_small = flags-lt (flags_at wire) flags_byte known in
    elim form [
      | inl (flagless, header, body) ↦
          plain_back wire m b fits small long flagless header flags_small body
      | inr (flagged, header, longer, business, body) ↦
          extended_back wire m b fits small longer flagged header flags_small business body
    ]

-- For a byte string and an envelope with fields of their widths, under one limit of the length: `decode` reads
-- the string as the envelope exactly if the encoder for its kind gives the string, whatever metadata it
-- carries.
pub decode_envelope_iff :
    (wire : List ℕ) (maximum_len : ℕ) (envelope : DecodedEnvelope)
    → IsBytes wire
    → maximum_len < 2 ^ 64
    → InRange envelope
    → (decode wire maximum_len ≡ ok envelope) ↔ (encode_envelope envelope maximum_len ≡ ok wire)
decode_envelope_iff wire m envelope b small h = (
  (λ (e : decode wire m ≡ ok envelope). encode-decode_envelope wire m b small e),
  (λ (e : encode_envelope envelope m ≡ ok wire). decode-encode_envelope envelope m h e),
)
