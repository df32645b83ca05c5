-- ===== src/Game/Envelope/RoundTrip.antt =====
-- The encoders of crates/rnet-game/src/envelope.rs against `decode`.
use Prim.Native.Nat.{bit_and}
use rnetlib.Prelude.{
  ℕ, ◌≤◌, ◌<◌, ◌^◌, ◌≡◌, refl, ap, ◌∙◌, List, ◌∷◌, ◌++◌, Result, ok, arith, length, Option, none,
  some, true, false,
}
use rnetlib.Prelude.Bytes.{to_be, from_be-to_be, from_be_single}
use rnetlib.Game.Envelope.{
  application, has_datagram_sequence, has_flag, DecodedEnvelope, app, control, ControlKind,
  wire_kind, encode, encode_application, encode_udp_application, encode_control, decode,
  decode_body, read_extension,
}

-- The encoder for each kind of envelope.
abbrev pub encode_envelope : DecodedEnvelope → ℕ → Result (List ℕ)
encode_envelope (app a) maximum_len = elim a.datagram_sequence [
  | none ↦ encode_application a.payload a.sequence a.tick maximum_len
  | some n ↦ encode_udp_application a.payload a.sequence a.tick n maximum_len
]
encode_envelope (control kind payload) maximum_len = encode_control kind payload maximum_len

abbrev pub IsU32 : Option ℕ → Type 0
IsU32 none = Unit
IsU32 (some n) = n < 2 ^ 32

abbrev pub InRange : DecodedEnvelope → Type 0
InRange (app a) = IsU32 a.sequence × IsU32 a.tick × IsU32 a.datagram_sequence
InRange (control kind payload) = Unit

-- An envelope without and with the extension.
pub plain_bytes : ℕ → ℕ → ℕ → ℕ → List ℕ → List ℕ
plain_bytes kind flags s t payload = kind ∷ flags ∷ to_be 2 12 ++ to_be 4 s ++ to_be 4 t ++ payload

pub extended_bytes : ℕ → ℕ → ℕ → ℕ → ℕ → List ℕ → List ℕ
extended_bytes kind flags s t d payload =
    kind ∷ flags ∷ to_be 2 16 ++ to_be 4 s ++ to_be 4 t ++ to_be 4 d ++ payload

encode-plain :
    (kind flags s t : ℕ) (payload : List ℕ) (m : ℕ) {wire : List ℕ}
    → encode kind flags s t none payload m ≡ ok wire
    → (wire ≡ plain_bytes kind flags s t payload) × (length wire ≤ m)
unfolding encode plain_bytes
encode-plain kind flags s t payload m e = ground arith

encode-extended :
    (kind flags s t d : ℕ) (payload : List ℕ) (m : ℕ) {wire : List ℕ}
    → encode kind flags s t (some d) payload m ≡ ok wire
    → (wire ≡ extended_bytes kind flags s t d payload) × (length wire ≤ m)
unfolding encode extended_bytes
encode-extended kind flags s t d payload m e = ground arith

module _ (kind flags s t : ℕ) (payload : List ℕ) (m : ℕ) {wire : List ℕ} (hs : s < 2 ^ 32)
    (ht : t < 2 ^ 32) (known : bit_and flags 248 ≡ 0) (fits : length wire ≤ m) where
  decode-plain :
      has_flag flags has_datagram_sequence ≡ false
      → wire ≡ plain_bytes kind flags s t payload
      → decode wire m ≡ decode_body kind flags s t none payload
  unfolding decode plain_bytes read_extension
  decode-plain flagless shape =
      let fits' : length (plain_bytes kind flags s t payload) ≤ m =
        omega (arith, ap length shape) in
      rw
        (
          shape,
          from_be_single kind,
          from_be_single flags,
          from_be-to_be 2 12 (omega arith),
          from_be-to_be 4 s hs,
          from_be-to_be 4 t ht,
          known,
          flagless,
        )
        (ground arith)

  decode-extended :
      (d : ℕ)
      → d < 2 ^ 32
      → kind ≡ application
      → has_flag flags has_datagram_sequence ≡ true
      → wire ≡ extended_bytes kind flags s t d payload
      → decode wire m ≡ decode_body kind flags s t (some d) payload
  unfolding decode extended_bytes read_extension
  decode-extended d hd business flagged shape =
      let fits' : length (extended_bytes kind flags s t d payload) ≤ m =
        omega (arith, ap length shape) in
      rw
        (
          shape,
          from_be_single kind,
          from_be_single flags,
          from_be-to_be 2 16 (omega arith),
          from_be-to_be 4 s hs,
          from_be-to_be 4 t ht,
          from_be-to_be 4 d hd,
          known,
          flagged,
          business,
        )
        (ground arith)

-- An envelope of a business message is decoded to itself.
decode-app :
    (sequence tick datagram : Option ℕ) (payload : List ℕ) (m : ℕ) {wire : List ℕ}
    → InRange (
        app (record {
          sequence = sequence;
          tick = tick;
          datagram_sequence = datagram;
          payload = payload;
        }))
    → encode_envelope
        (app (record {
          sequence = sequence;
          tick = tick;
          datagram_sequence = datagram;
          payload = payload;
        }))
        m
      ≡ ok wire
    → decode wire m
      ≡ ok (
          app (record {
            sequence = sequence;
            tick = tick;
            datagram_sequence = datagram;
            payload = payload;
          }))
unfolding encode_application encode_udp_application decode_body
decode-app none none none payload m h e =
    let (shape, fits) = encode-plain 0 0 0 0 payload m e in
    decode-plain 0 0 0 0 payload m (omega arith) (omega arith) refl fits refl shape
decode-app (some s) none none payload m h e =
    let (shape, fits) = encode-plain 0 1 s 0 payload m e in
    decode-plain 0 1 s 0 payload m h.0 (omega arith) refl fits refl shape
decode-app none (some t) none payload m h e =
    let (shape, fits) = encode-plain 0 2 0 t payload m e in
    decode-plain 0 2 0 t payload m (omega arith) h.1 refl fits refl shape
decode-app (some s) (some t) none payload m h e =
    let (shape, fits) = encode-plain 0 3 s t payload m e in
    decode-plain 0 3 s t payload m h.0 h.1 refl fits refl shape
decode-app none none (some d) payload m h e =
    let (shape, fits) = encode-extended 0 4 0 0 d payload m e in
    decode-extended 0 4 0 0 payload m (omega arith) (omega arith) refl fits d h.2 refl refl shape
decode-app (some s) none (some d) payload m h e =
    let (shape, fits) = encode-extended 0 5 s 0 d payload m e in
    decode-extended 0 5 s 0 payload m h.0 (omega arith) refl fits d h.2 refl refl shape
decode-app none (some t) (some d) payload m h e =
    let (shape, fits) = encode-extended 0 6 0 t d payload m e in
    decode-extended 0 6 0 t payload m (omega arith) h.1 refl fits d h.2 refl refl shape
decode-app (some s) (some t) (some d) payload m h e =
    let (shape, fits) = encode-extended 0 7 s t d payload m e in
    decode-extended 0 7 s t payload m h.0 h.1 refl fits d h.2 refl refl shape

decode-control :
    (kind : ControlKind) (payload : List ℕ) (m : ℕ) {wire : List ℕ}
    → encode_control kind payload m ≡ ok wire
    → decode wire m ≡ ok (control kind payload)
unfolding encode_control decode_body
decode-control kind payload m e =
    let (shape, fits) = encode-plain (wire_kind kind) 0 0 0 payload m e in
    decode-plain (wire_kind kind) 0 0 0 payload m (omega arith) (omega arith) refl fits refl shape
    ∙ finish_control kind
  where
    finish_control :
        (kind : ControlKind)
        → decode_body (wire_kind kind) 0 0 0 none payload ≡ ok (control kind payload)
    finish_control ControlKind.heartbeat_control = refl
    finish_control _ = refl

-- What the encoder for its kind makes of an envelope, `decode` reads back, whatever metadata it carries.
pub decode-encode_envelope :
    (envelope : DecodedEnvelope) (maximum_len : ℕ) {wire : List ℕ}
    → InRange envelope
    → encode_envelope envelope maximum_len ≡ ok wire
    → decode wire maximum_len ≡ ok envelope
decode-encode_envelope (app a) m h e =
    decode-app a.sequence a.tick a.datagram_sequence a.payload m h e
decode-encode_envelope (control kind payload) m h e = decode-control kind payload m e
