-- ===== src/Game/Envelope/Tests.antt =====
-- Game envelopes on the wire.
use rnetlib.Prelude.{ℕ, ◌≡◌, ◌↔◌, refl, arith, some, none, List, [], ◌∷◌, ok}
use rnetlib.Prelude.Bytes.{from_be, from_le, all_bytes_sound}
use rnetlib.Game.Envelope.{
  DecodedEnvelope, app, encode, encode_udp_application, decode, decode_body, read_extension,
  decode_application,
}
use rnetlib.Game.Envelope.RoundTrip.{encode_envelope}
use rnetlib.Game.Envelope.Canonical.{decode_envelope_iff}

abbrev message : DecodedEnvelope
message =
    app (record { sequence = some 5; tick = none; datagram_sequence = some 6; payload = 7 ∷ [] })

abbrev wire : List ℕ
wire = 0 ∷ 5 ∷ 0 ∷ 16 ∷ 0 ∷ 0 ∷ 0 ∷ 5 ∷ 0 ∷ 0 ∷ 0 ∷ 0 ∷ 0 ∷ 0 ∷ 0 ∷ 6 ∷ 7 ∷ []

encoded : encode_envelope message 64 ≡ ok wire
unfolding encode_udp_application encode
encoded = refl

decoded : decode wire 64 ≡ ok message
unfolding decode decode_body read_extension decode_application from_be from_le
decoded = refl

decode_envelope_iff_example : (decode wire 64 ≡ ok message) ↔ (encode_envelope message 64 ≡ ok wire)
decode_envelope_iff_example =
    decode_envelope_iff wire 64 message (all_bytes_sound wire refl) (omega arith)
      (omega arith, tt, omega arith)
