-- ===== src/Game/ClockSync.antt =====
-- crates/rnet-game/src/clock_sync.rs: the clock controls, the sample of four timestamps and the tracker of a
-- session. Timestamps are microseconds; instants and intervals are nanoseconds.
pub mod Accuracy
pub mod Wire
pub mod Tracker
mod Tests
use rnetlib.Prelude.{
  ℕ, zero, suc, ◌+◌, ◌-◌, ◌*◌, ◌/◌, ◌^◌, ◌≤◌, max, Bool, true, false, not, ◌&&◌, ◌||◌, Option, none,
  some, List, [], ◌∷◌, ◌++◌, Result, ok, err, protocol_error, ◌==◌, ltb, leb, if◌then◌else◌, length,
  get_elem?, checked_sub, sat_add,
}
use rnetlib.Prelude.Int.{ℤ, pos, negsuc, sub_ℕ, ◌+ℤ◌, half, pos_part, neg_part}
use rnetlib.Prelude.Bytes.{to_be, from_be, slice}
use rnetlib.Game.Envelope as Envelope

abbrev pub probe : ℕ
probe = 1

abbrev pub reply : ℕ
reply = 2

abbrev pub probe_len : ℕ
probe_len = 17

abbrev pub reply_len : ℕ
reply_len = 33

pub data ClockPacket : Type 0 where
  clock_probe : (nonce t1_us : ℕ) → ClockPacket
  clock_reply : (nonce t1_us t2_us t3_us : ℕ) → ClockPacket

pub clock_body : ClockPacket → List ℕ
clock_body (clock_probe nonce t1_us) = probe ∷ (to_be 8 nonce ++ to_be 8 t1_us)
clock_body (clock_reply nonce t1_us t2_us t3_us) =
    reply ∷ (to_be 8 nonce ++ (to_be 8 t1_us ++ (to_be 8 t2_us ++ to_be 8 t3_us)))

pub encode_clock : ClockPacket → ℕ → Result (List ℕ)
encode_clock packet maximum_len =
    Envelope.encode_control Envelope.ControlKind.clock_sync_control (clock_body packet) maximum_len

abbrev pub word : ℕ → List ℕ → ℕ
word start payload = from_be (slice start (start + 8) payload)

abbrev pub decode_operation : Option ℕ → List ℕ → Result ClockPacket
decode_operation none payload = err protocol_error
decode_operation (some operation) payload =
    if operation == probe && length payload == probe_len
    then ok (clock_probe (word 1 payload) (word 9 payload))
    else if operation == reply && length payload == reply_len
    then ok (clock_reply (word 1 payload) (word 9 payload) (word 17 payload) (word 25 payload))
    else err protocol_error

pub decode_clock : List ℕ → Result ClockPacket
decode_clock payload = decode_operation (get_elem? payload 0) payload

pub record ClockSyncSample : Type 0 where
  pub server_minus_client_us : ℤ
  pub rtt : ℕ
  pub samples : ℕ

-- `i64::try_from`
abbrev pub to_i64 : ℤ → Option ℤ
to_i64 z = if leb (pos_part z) (2 ^ 63 - 1) && leb (neg_part z) (2 ^ 63) then some z else none

-- In the 128 bits of the source nothing overflows.
pub offset : ℕ → ℕ → ℕ → ℕ → ℤ
offset t1_us t2_us t3_us t4_us = half (sub_ℕ t2_us t1_us +ℤ sub_ℕ t3_us t4_us)

abbrev pub sample_of : Option ℤ → ℕ → Option ClockSyncSample
sample_of none rtt_us = none
sample_of (some server_minus_client_us) rtt_us =
    some
      (record { server_minus_client_us = server_minus_client_us; rtt = rtt_us * 1000; samples = 1 })

abbrev pub sample_with : Option ℕ → ℤ → Option ClockSyncSample
sample_with none offset = none
sample_with (some rtt_us) offset = sample_of (to_i64 offset) rtt_us

pub calculate_sample : ℕ → ℕ → ℕ → ℕ → Option ClockSyncSample
calculate_sample t1_us t2_us t3_us t4_us =
    if ltb t3_us t2_us || ltb t4_us t1_us
    then none
    else sample_with (checked_sub (t4_us - t1_us) (t3_us - t2_us)) (offset t1_us t2_us t3_us t4_us)

pub record Pending : Type 0 where
  pub nonce : ℕ
  pub t1_us : ℕ
  pub sent_at : ℕ

pub record ClockSyncTracker : Type 0 where
  pub client : Bool
  pub last_sent : Option ℕ
  pub pending : Option Pending
  pub last_inbound_probe : Option ℕ
  pub sample : Option ClockSyncSample

abbrev pub new_server : ClockSyncTracker
new_server = record {
  client = false;
  last_sent = none;
  pending = none;
  last_inbound_probe = none;
  sample = none;
}

abbrev pub new_client : ClockSyncTracker
new_client = record new_server { client = true }

-- `is_none_or(|last| now.saturating_duration_since(last) >= interval)`
abbrev pub rested : Option ℕ → ℕ → ℕ → Bool
rested none now interval = true
rested (some last) now interval = leb interval (now - last)

abbrev pub still_waiting : Option Pending → ℕ → ℕ → Bool
still_waiting none now timeout = false
still_waiting (some p) now timeout = ltb (now - p.sent_at) timeout

pub should_probe : ℕ → ℕ → ℕ → ClockSyncTracker → Bool × ClockSyncTracker
should_probe now interval timeout t =
    if not t.client
    then (false, t)
    else if still_waiting t.pending now timeout
    then (false, t)
    else (rested t.last_sent now interval, record t { pending = none })

pub mark_sent : ℕ → ℕ → ℕ → ClockSyncTracker → ClockSyncTracker
mark_sent nonce t1_us now t = record t {
  last_sent = some now;
  pending = some (record { nonce = nonce; t1_us = t1_us; sent_at = now });
}

-- `checked_duration_since(sent_at).is_none_or(|age| age > timeout)`
abbrev pub too_late : Option ℕ → ℕ → Bool
too_late none timeout = true
too_late (some age) timeout = ltb timeout age

abbrev pub matches : Option Pending → ℕ → ℕ → ℕ → ℕ → Bool
matches none nonce t1_us received_at timeout = false
matches (some p) nonce t1_us received_at timeout = not (
    not (nonce == p.nonce)
    || not (t1_us == p.t1_us)
    || too_late (checked_sub received_at p.sent_at) timeout)

abbrev pub count_after : Option ClockSyncSample → ℕ
count_after none = 1
count_after (some previous) = sat_add previous.samples 1

abbrev pub store :
    ℕ → ClockSyncTracker → Option ClockSyncSample → Option ClockSyncSample × ClockSyncTracker
store received_at t none = (none, t)
store received_at t (some fresh) =
    let sample = record fresh { samples = count_after t.sample } in
    (some sample, record t { sample = some sample; last_sent = some received_at; pending = none })

unfoldable pub accept_reply :
    ℕ → ℕ → ℕ → ℕ → ℕ → ℕ → ℕ → ClockSyncTracker → Option ClockSyncSample × ClockSyncTracker
accept_reply nonce t1_us t2_us t3_us t4_us received_at timeout t =
    if not t.client
    then (none, t)
    else if matches t.pending nonce t1_us received_at timeout
    then store received_at t (calculate_sample t1_us t2_us t3_us t4_us)
    else (none, t)

abbrev pub millisecond : ℕ
millisecond = 1_000_000

abbrev pub too_close : Option ℕ → ℕ → ℕ → Bool
too_close none received_at spacing = false
too_close (some last) received_at spacing = elim (checked_sub received_at last) [
  | none ↦ true
  | some age ↦ ltb age spacing
]

pub admit_probe : ℕ → ℕ → ClockSyncTracker → Bool × ClockSyncTracker
admit_probe received_at interval t =
    if t.client
    then (false, t)
    else if too_close t.last_inbound_probe received_at (max (interval / 4) millisecond)
    then (false, t)
    else (true, record t { last_inbound_probe = some received_at })
