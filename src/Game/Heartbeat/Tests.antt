-- ===== src/Game/Heartbeat/Tests.antt =====
-- A probe and its acknowledgement.
use rnetlib.Prelude.{ℕ, ◌-◌, ◌≤◌, ◌<◌, ◌≡◌, refl, some, none, List, [], ◌∷◌, ok, ◌⊎◌}
use rnetlib.Game.Envelope as Envelope
use rnetlib.Game.Heartbeat.{
  HeartbeatTracker, HeartbeatKind, HeartbeatPacket, new, mark_sent, should_probe, accept_ack,
  next_sample, encode_heartbeat, heartbeat_body,
}
use rnetlib.Game.Heartbeat.Samples.{InBounds, Op, apply_all, accept_ack_lem, apply_all-InBounds}
use rnetlib.Game.Quality.Gate.{new_gate}

abbrev fresh : HeartbeatTracker
fresh = record {
  interval = 5;
  timeout = 20;
  last_ack = 100;
  last_inbound_probe = none;
  pending = none;
  sample = none;
  quality_change_gate = new_gate;
}

abbrev waiting : HeartbeatTracker
waiting = record fresh { pending = some (77, 110) }

made : new 5 20 100 ≡ ok fresh
unfolding new
made = refl

sent : mark_sent 77 110 fresh ≡ (ok tt, waiting)
unfolding mark_sent should_probe
sent = refl

accept_ack_lem_example :
    let (answer, t') = accept_ack 77 114 115 waiting in
    ((answer ≡ none)
      × (t' ≡ waiting)
      × ((sent_at : ℕ)
          → waiting.pending ≡ some (77, sent_at)
          → sent_at ≤ 114
          → 114 ≤ 115
          → waiting.timeout ≤ 114 - sent_at))
    ⊎ ((sent_at : ℕ) × (waiting.pending ≡ some (77, sent_at))
        × (sent_at ≤ 114)
        × (114 ≤ 115)
        × (114 - sent_at < waiting.timeout)
        × (answer ≡ t'.sample)
        × (t'.sample ≡ some (next_sample waiting.sample (114 - sent_at)))
        × (t'.last_ack ≡ 115)
        × ((c r p : ℕ) → accept_ack c r p t' ≡ (none, t')))
accept_ack_lem_example = accept_ack_lem 77 114 115 waiting

apply_all-InBounds_example :
    InBounds 20 (apply_all (Op.sent 77 110 ∷ Op.acked 77 114 115 ∷ []) fresh).sample
apply_all-InBounds_example =
    apply_all-InBounds 5 20 100 (Op.sent 77 110 ∷ Op.acked 77 114 115 ∷ []) fresh made

abbrev packet : HeartbeatPacket
packet = record { kind = HeartbeatKind.ack; challenge = 77 }

abbrev wire : List ℕ
wire = 1 ∷ 0 ∷ 0 ∷ 12 ∷ 0 ∷ 0 ∷ 0 ∷ 0 ∷ 0 ∷ 0 ∷ 0 ∷ 0 ∷ 2 ∷ 0 ∷ 0 ∷ 0 ∷ 0 ∷ 0 ∷ 0 ∷ 0 ∷ 77 ∷ []

encoded : encode_heartbeat packet 64 ≡ ok wire
unfolding encode_heartbeat heartbeat_body Envelope.encode_control Envelope.encode
encoded = refl
