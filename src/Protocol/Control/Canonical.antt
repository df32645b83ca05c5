-- ===== src/Protocol/Control/Canonical.antt =====
-- The three codecs of crates/rnet-protocol/src/control.rs are exact: a byte string is read as a value if and
-- only if it is the encoding of this value.
use rnetlib.Prelude.{ℕ, ◌<◌, ◌^◌, ◌≡◌, ◌↔◌, ◌∙◌, ap, sym, List, ok}
use rnetlib.Prelude.Bytes.{IsBytes}
use rnetlib.Protocol.Control.{
  Record, ProtectedMessage, Control, encode_record, decode_record, encode_protected,
  decode_protected, encode_control, decode_control,
}
use rnetlib.Protocol.Control.RoundTrip.{
  decode-encode_record, encode-decode_record, decode-encode_protected, encode-decode_protected,
  decode-encode_control, encode-decode_control, IsWellFormed,
}

-- For a byte string and a record with an epoch of 64 bits, under one limit of the payload: `decode_record`
-- reads the string as the record exactly if `encode_record` accepts the record and gives the string.
pub decode_record_iff :
    (wire : List ℕ) (max_payload_len : ℕ) (r : Record)
    → IsBytes wire
    → r.epoch < 2 ^ 64
    → (decode_record wire max_payload_len ≡ ok r) ↔ (encode_record r max_payload_len ≡ ok wire)
decode_record_iff wire m r b small = (
  (λ (e : decode_record wire m ≡ ok r). encode-decode_record wire m b e),
  (λ (e : encode_record r m ≡ ok wire). decode-encode_record r m small e),
)

-- For a byte string and a protected message, under one limit of the payload: `decode_protected` reads the
-- string as the message exactly if `encode_protected` accepts the message and gives the string.
pub decode_protected_iff :
    (wire : List ℕ) (max_payload_len : ℕ) (message : ProtectedMessage)
    → IsBytes wire
    → (decode_protected wire max_payload_len ≡ ok message)
      ↔ (encode_protected message max_payload_len ≡ ok wire)
decode_protected_iff wire m message b = (
  (λ (e : decode_protected wire m ≡ ok message). encode-decode_protected wire m b e),
  (λ (e : encode_protected message m ≡ ok wire). decode-encode_protected message m e),
)

-- For a byte string and a transition control: `decode_control` reads the string as the control exactly if
-- the control is well formed and `encode_control` gives the string.
pub decode_control_iff :
    (wire : List ℕ) (control : Control)
    → IsBytes wire
    → (decode_control wire ≡ ok control) ↔ (IsWellFormed control × (encode_control control ≡ wire))
decode_control_iff wire control b = (
  (λ (e : decode_control wire ≡ ok control). encode-decode_control wire b e),
  (λ (h : IsWellFormed control × (encode_control control ≡ wire)).
      sym (ap decode_control h.1) ∙ decode-encode_control control h.0),
)
