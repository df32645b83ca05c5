-- ===== src/Game/Heartbeat.antt =====
-- crates/rnet-game/src/heartbeat.rs: the heartbeat control and the probe state. Instants and durations are
-- nanoseconds; an instant is its distance from the start of the clock.
pub mod RoundTrip
pub mod Samples
mod Tests
use rnetlib.Prelude.{
  ℕ, ◌+◌, ◌-◌, ◌*◌, ◌/◌, ◌^◌, min, max, Bool, true, false, not, ◌&&◌, ◌||◌, Option, none, some,
  List, [], ◌∷◌, ◌++◌, Result, ok, err, ErrorCode, invalid_argument, invalid_state, protocol_error,
  ◌>>=◌, ◌>>◌, reject, ◌==◌, ltb, leb, is_none, if◌then◌else◌, length, checked_sub, sat_add,
}
use rnetlib.Prelude.Bytes.{to_be, from_be, slice}
use rnetlib.Game.Envelope as Envelope
use rnetlib.Game.Quality.{QualityGrade, QualityBasis}
use rnetlib.Game.Quality.Grades.{QualitySample}
use rnetlib.Game.Quality.Gate as Gate
use rnetlib.Game.Quality.Gate.{QualityChangeGate, new_gate}

abbrev pub heartbeat_len : ℕ
heartbeat_len = 9

-- The longest `Duration`.
abbrev pub duration_max : ℕ
duration_max = 2 ^ 64 * 1_000_000_000 - 1

abbrev pub millisecond : ℕ
millisecond = 1_000_000

abbrev pub sat_add_duration : ℕ → ℕ → ℕ
sat_add_duration a b = min (a + b) duration_max

pub data HeartbeatKind : Type 0 where
  probe ack : HeartbeatKind

pub record HeartbeatPacket : Type 0 where
  pub kind : HeartbeatKind
  pub challenge : ℕ

abbrev pub kind_code : HeartbeatKind → ℕ
kind_code HeartbeatKind.probe = 1
kind_code HeartbeatKind.ack = 2

pub heartbeat_body : HeartbeatPacket → List ℕ
heartbeat_body packet = kind_code packet.kind ∷ to_be 8 packet.challenge

pub encode_heartbeat : HeartbeatPacket → ℕ → Result (List ℕ)
encode_heartbeat packet maximum_len =
    Envelope.encode_control Envelope.ControlKind.heartbeat_control (heartbeat_body packet)
      maximum_len

pub kind_of : ℕ → Result HeartbeatKind
kind_of value =
    if value == 1
    then ok HeartbeatKind.probe
    else if value == 2
    then ok HeartbeatKind.ack
    else err protocol_error

pub decode_heartbeat : List ℕ → Result HeartbeatPacket
unfolding kind_of
decode_heartbeat payload = do
  _ ← reject (not (length payload == heartbeat_len)) protocol_error
  kind ← kind_of (from_be (slice 0 1 payload))
  ok (record { kind = kind; challenge = from_be (slice 1 9 payload) })

pub record HeartbeatTracker : Type 0 where
  pub interval : ℕ
  pub timeout : ℕ
  pub last_ack : ℕ
  pub last_inbound_probe : Option ℕ
  pub pending : Option (ℕ × ℕ)
  pub sample : Option QualitySample
  pub quality_change_gate : QualityChangeGate

pub new : ℕ → ℕ → ℕ → Result HeartbeatTracker
new interval timeout now =
    if interval == 0 || timeout == 0 || ltb timeout interval
    then err invalid_argument
    else ok (record {
      interval = interval;
      timeout = timeout;
      last_ack = now;
      last_inbound_probe = none;
      pending = none;
      sample = none;
      quality_change_gate = new_gate;
    })

pub should_probe : ℕ → HeartbeatTracker → Bool
should_probe now t = is_none t.pending && leb t.interval (now - t.last_ack)

-- `is_some_and(.. is_none_or(|age| age < spacing))`
abbrev pub too_close : Option ℕ → ℕ → ℕ → Bool
too_close none received_at spacing = false
too_close (some last) received_at spacing = elim (checked_sub received_at last) [
  | none ↦ true
  | some age ↦ ltb age spacing
]

pub admit_probe : ℕ → HeartbeatTracker → Bool × HeartbeatTracker
admit_probe received_at t =
    if too_close t.last_inbound_probe received_at (max (t.interval / 4) millisecond)
    then (false, t)
    else (true, record t { last_inbound_probe = some received_at })

pub mark_sent : ℕ → ℕ → HeartbeatTracker → Result (Unit {0}) × HeartbeatTracker
unfolding should_probe
mark_sent challenge now t =
    if not (should_probe now t)
    then (err invalid_state, t)
    else (ok tt, record t { pending = some (challenge, now) })

abbrev pub abs_diff : ℕ → ℕ → ℕ
abs_diff a b = max (a - b) (b - a)

pub next_sample : Option QualitySample → ℕ → QualitySample
next_sample none rtt = record { last_rtt = rtt; smoothed_rtt = rtt; jitter = 0; samples = 1 }
next_sample (some previous) rtt = record {
  last_rtt = rtt;
  smoothed_rtt = sat_add_duration (previous.smoothed_rtt - previous.smoothed_rtt / 8) (rtt / 8);
  jitter =
      sat_add_duration (previous.jitter - previous.jitter / 16)
        (abs_diff rtt previous.last_rtt / 16);
  samples = sat_add previous.samples 1;
}

-- The acknowledgement of the pending probe in time, with its latency.
abbrev pub matched_rtt : Option (ℕ × ℕ) → ℕ → ℕ → ℕ → ℕ → Option ℕ
matched_rtt none timeout challenge received_at processed_at = none
matched_rtt (some (expected, sent_at)) timeout challenge received_at processed_at =
    if ltb received_at sent_at || ltb processed_at received_at
    then none
    else if not (expected == challenge) || leb timeout (received_at - sent_at)
    then none
    else some (received_at - sent_at)

pub accept_ack : ℕ → ℕ → ℕ → HeartbeatTracker → Option QualitySample × HeartbeatTracker
unfolding next_sample
accept_ack challenge received_at processed_at t =
    elim (matched_rtt t.pending t.timeout challenge received_at processed_at) [
      | none ↦ (none, t)
      | some rtt ↦
          let sample = next_sample t.sample rtt in
          (some sample, record t { pending = none; last_ack = processed_at; sample = some sample })
    ]

pub timed_out : ℕ → HeartbeatTracker → Bool
timed_out now t = elim t.pending [
  | some (challenge, sent_at) ↦ leb t.timeout (now - sent_at)
  | none ↦ leb (sat_add_duration t.interval t.timeout) (now - t.last_ack)
]

pub quality_changed : QualityGrade → QualityBasis → HeartbeatTracker → Bool × HeartbeatTracker
quality_changed grade basis t =
    let (changed, gate) = Gate.observe grade basis t.quality_change_gate in
    (changed, record t { quality_change_gate = gate })
