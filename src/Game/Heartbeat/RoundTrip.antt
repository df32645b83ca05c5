-- ===== src/Game/Heartbeat/RoundTrip.antt =====
-- The heartbeat control of crates/rnet-game/src/heartbeat.rs on the wire.
use rnetlib.Prelude.{ℕ, ◌<◌, ◌^◌, ◌≡◌, refl, ap, List, ok}
use rnetlib.Prelude.Bytes.{from_be-to_be, from_be_single}
use rnetlib.Game.Envelope as Envelope
use rnetlib.Game.Envelope.RoundTrip.{decode-encode_envelope}
use rnetlib.Game.Heartbeat.{
  HeartbeatKind, HeartbeatPacket, kind_code, kind_of, heartbeat_body, encode_heartbeat,
  decode_heartbeat,
}

kind_of-code : (kind : HeartbeatKind) → kind_of (kind_code kind) ≡ ok kind
unfolding kind_of
kind_of-code HeartbeatKind.probe = refl
kind_of-code HeartbeatKind.ack = refl

decode-heartbeat_body :
    (packet : HeartbeatPacket)
    → packet.challenge < 2 ^ 64
    → decode_heartbeat (heartbeat_body packet) ≡ ok packet
unfolding decode_heartbeat heartbeat_body
decode-heartbeat_body packet small = rw (from_be_single (kind_code packet.kind)) (
    rw (kind_of-code packet.kind) (
      ap (λ c. ok (record { kind = packet.kind; challenge = c }))
        (from_be-to_be 8 packet.challenge small)))

-- An encoded heartbeat is decoded by the envelope to a heartbeat control, and its payload to the packet.
pub decode-encode_heartbeat :
    (packet : HeartbeatPacket) (maximum_len : ℕ) (wire : List ℕ)
    → packet.challenge < 2 ^ 64
    → encode_heartbeat packet maximum_len ≡ ok wire
    → (payload : List ℕ) × (Envelope.decode wire maximum_len
        ≡ ok (Envelope.DecodedEnvelope.control Envelope.ControlKind.heartbeat_control payload))
      × (decode_heartbeat payload ≡ ok packet)
unfolding encode_heartbeat
decode-encode_heartbeat packet m wire small e = (
  heartbeat_body packet,
  decode-encode_envelope
      (Envelope.DecodedEnvelope.control Envelope.ControlKind.heartbeat_control
        (heartbeat_body packet))
      m tt e,
  decode-heartbeat_body packet small,
)
