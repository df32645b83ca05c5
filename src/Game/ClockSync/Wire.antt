-- ===== src/Game/ClockSync/Wire.antt =====
-- The clock controls of crates/rnet-game/src/clock_sync.rs on the wire.
use rnetlib.Prelude.{ℕ, ◌<◌, ◌^◌, ◌≡◌, refl, List, ok}
use rnetlib.Prelude.Bytes.{from_be-to_be}
use rnetlib.Game.Envelope as Envelope
use rnetlib.Game.Envelope.RoundTrip.{decode-encode_envelope}
use rnetlib.Game.ClockSync.{
  ClockPacket, clock_probe, clock_reply, clock_body, encode_clock, decode_clock,
}

-- Every field of a packet is an integer of 64 bits.
abbrev pub InRange : ClockPacket → Type 0
InRange (clock_probe nonce t1_us) = (nonce < 2 ^ 64) × (t1_us < 2 ^ 64)
InRange (clock_reply nonce t1_us t2_us t3_us) =
    (nonce < 2 ^ 64) × (t1_us < 2 ^ 64) × (t2_us < 2 ^ 64) × (t3_us < 2 ^ 64)

pub decode-clock_body :
    (packet : ClockPacket) → InRange packet → decode_clock (clock_body packet) ≡ ok packet
unfolding decode_clock clock_body
decode-clock_body (clock_probe nonce t1_us) h =
    rw (from_be-to_be 8 nonce h.0, from_be-to_be 8 t1_us h.1) refl
decode-clock_body (clock_reply nonce t1_us t2_us t3_us) h =
    rw
      (
        from_be-to_be 8 nonce h.0,
        from_be-to_be 8 t1_us h.1,
        from_be-to_be 8 t2_us h.2,
        from_be-to_be 8 t3_us h.3,
      )
      refl

-- An encoded packet is decoded by the envelope to a clock control, and its payload to the packet.
pub decode-encode_clock :
    (packet : ClockPacket) (maximum_len : ℕ) (wire : List ℕ)
    → InRange packet
    → encode_clock packet maximum_len ≡ ok wire
    → (payload : List ℕ) × (Envelope.decode wire maximum_len
        ≡ ok (Envelope.DecodedEnvelope.control Envelope.ControlKind.clock_sync_control payload))
      × (decode_clock payload ≡ ok packet)
unfolding encode_clock
decode-encode_clock packet m wire h e = (
  clock_body packet,
  decode-encode_envelope
      (Envelope.DecodedEnvelope.control Envelope.ControlKind.clock_sync_control (clock_body packet))
      m tt e,
  decode-clock_body packet h,
)
