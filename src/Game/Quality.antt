-- ===== src/Game/Quality.antt =====
-- crates/rnet-game/src/quality.rs, with the grades of crates/rnet-game/src/event.rs and the retransmission
-- figures of crates/rnet-transport/src/kcp.rs. Durations are nanoseconds.
pub mod Grades
pub mod Gate
pub mod Loss
pub mod Window
pub mod Origin
pub mod Repeats
pub mod Once
mod Tests
use Prim.Native.Nat.{bit_and, bit_or}
use rnetlib.Prelude.{
  ℕ, zero, suc, ◌+◌, ◌-◌, ◌*◌, ◌/◌, ◌%◌, ◌^◌, min, max, Bool, true, false, not, ◌&&◌, ◌||◌, Option,
  none, some, ◌==◌, ltb, leb, is_some, if◌then◌else◌, sat_add, u64_max, u64_mod, u32_mod,
}

pub data QualityGrade : Type 0 where
  unknown excellent good fair poor : QualityGrade

pub data QualityBasis : Type 0 where
  latency_only udp_sequence_gap kcp_retransmission : QualityBasis

-- The derived orders.
abbrev pub rank : QualityGrade → ℕ
rank QualityGrade.unknown = 0
rank QualityGrade.excellent = 1
rank QualityGrade.good = 2
rank QualityGrade.fair = 3
rank QualityGrade.poor = 4

abbrev pub basis_code : QualityBasis → ℕ
basis_code QualityBasis.latency_only = 0
basis_code QualityBasis.udp_sequence_gap = 1
basis_code QualityBasis.kcp_retransmission = 2

abbrev pub worse : QualityGrade → QualityGrade → QualityGrade
worse g h = if ltb (rank h) (rank g) then g else h

abbrev pub reorder_window : ℕ
reorder_window = 64

abbrev pub max_forward_gap : ℕ
max_forward_gap = 4096

pub data UdpObservation : Type 0 where
  first new reordered duplicate too_old discontinuity : UdpObservation

pub record UdpLossSnapshot : Type 0 where
  pub expected : ℕ
  pub received : ℕ
  pub missing : ℕ
  pub recent_expected : ℕ
  pub recent_missing : ℕ
  pub recent_loss_per_mille : ℕ
  pub reordered : ℕ
  pub duplicates : ℕ
  pub too_old : ℕ
  pub discontinuities : ℕ

pub record UdpLossTracker : Type 0 where
  pub highest : Option ℕ
  pub seen : ℕ
  pub span : ℕ
  pub expected : ℕ
  pub received : ℕ
  pub reordered : ℕ
  pub duplicates : ℕ
  pub too_old : ℕ
  pub discontinuities : ℕ

abbrev pub new_tracker : UdpLossTracker
new_tracker = record {
  highest = none;
  seen = 0;
  span = 0;
  expected = 0;
  received = 0;
  reordered = 0;
  duplicates = 0;
  too_old = 0;
  discontinuities = 0;
}

-- `wrapping_sub` on u32.
abbrev pub wrapping_sub : ℕ → ℕ → ℕ
wrapping_sub a b = (a + u32_mod - b) % u32_mod

-- A sequence number behind the highest one.
pub observe_behind : ℕ → UdpLossTracker → UdpObservation × UdpLossTracker
observe_behind behind t =
    if leb reorder_window behind || leb t.span behind
    then (UdpObservation.too_old, record t { too_old = sat_add t.too_old 1 })
    else if not (bit_and t.seen (2 ^ behind) == 0)
    then (UdpObservation.duplicate, record t { duplicates = sat_add t.duplicates 1 })
    else (
      UdpObservation.reordered,
      record t {
        seen = bit_or t.seen (2 ^ behind);
        received = sat_add t.received 1;
        reordered = sat_add t.reordered 1;
      },
    )

-- A sequence number ahead of the highest one.
pub observe_ahead : ℕ → ℕ → UdpLossTracker → UdpObservation × UdpLossTracker
observe_ahead sequence forward t =
    if ltb max_forward_gap forward
    then (
      UdpObservation.discontinuity,
      record t {
        highest = some sequence;
        seen = 1;
        span = 1;
        expected = sat_add t.expected 1;
        received = sat_add t.received 1;
        discontinuities = sat_add t.discontinuities 1;
      },
    )
    else (
      UdpObservation.new,
      record t {
        highest = some sequence;
        seen = if leb reorder_window forward then 1 else bit_or (t.seen * 2 ^ forward % u64_mod) 1;
        span = sat_add t.span forward;
        expected = sat_add t.expected forward;
        received = sat_add t.received 1;
      },
    )

pub observe : ℕ → UdpLossTracker → UdpObservation × UdpLossTracker
observe sequence t = elim t.highest [
  | none ↦ (
    UdpObservation.first,
    record t { highest = some sequence; seen = 1; span = 1; expected = 1; received = 1 },
  )
  | some highest ↦
      let forward = wrapping_sub sequence highest in
      if forward == 0
      then (UdpObservation.duplicate, record t { duplicates = sat_add t.duplicates 1 })
      else if ltb forward (2 ^ 31)
      then observe_ahead sequence forward t
      else observe_behind (wrapping_sub highest sequence) t
]

-- `count_ones` of the lowest `bits` bits.
pub count_ones : ℕ → ℕ → ℕ
count_ones zero word = 0
count_ones (suc bits) word = word % 2 + count_ones bits (word / 2)

pub snapshot : UdpLossTracker → UdpLossSnapshot
snapshot t =
    let recent_expected = min t.span reorder_window in
    let recent_missing = recent_expected - min (count_ones 64 t.seen) recent_expected in
    record {
      expected = t.expected;
      received = t.received;
      missing = t.expected - t.received;
      recent_expected = recent_expected;
      recent_missing = recent_missing;
      recent_loss_per_mille =
          if recent_expected == 0 then 0 else min (recent_missing * 1000) u64_max / recent_expected;
      reordered = t.reordered;
      duplicates = t.duplicates;
      too_old = t.too_old;
      discontinuities = t.discontinuities;
    }

pub record Ceilings : Type 0 where
  pub excellent : ℕ
  pub good : ℕ
  pub fair : ℕ

-- `QualityPolicy`, its three ceilings of each signal grouped.
pub record QualityPolicy : Type 0 where
  pub minimum_rtt_samples : ℕ
  pub minimum_udp_packets : ℕ
  pub minimum_kcp_segments : ℕ
  pub rtt : Ceilings
  pub jitter : Ceilings
  pub udp_loss_per_mille : Ceilings
  pub kcp_retransmission_per_mille : Ceilings

abbrev pub ceilings : ℕ → ℕ → ℕ → Ceilings
ceilings e g f = record { excellent = e; good = g; fair = f }

pub default_policy : QualityPolicy
default_policy = record {
  minimum_rtt_samples = 3;
  minimum_udp_packets = 16;
  minimum_kcp_segments = 16;
  rtt = ceilings 80_000_000 150_000_000 250_000_000;
  jitter = ceilings 15_000_000 35_000_000 70_000_000;
  udp_loss_per_mille = ceilings 10 30 100;
  kcp_retransmission_per_mille = ceilings 10 50 150;
}

abbrev pub is_ordered : Ceilings → Bool
is_ordered c = leb c.excellent c.good && leb c.good c.fair

pub is_valid : QualityPolicy → Bool
is_valid p =
    ltb 0 p.minimum_rtt_samples
    && leb 1 p.minimum_udp_packets
    && leb p.minimum_udp_packets 64
    && leb 1 p.minimum_kcp_segments
    && leb p.minimum_kcp_segments 128
    && is_ordered p.rtt
    && is_ordered p.jitter
    && is_ordered p.udp_loss_per_mille
    && leb p.udp_loss_per_mille.fair 1000
    && is_ordered p.kcp_retransmission_per_mille
    && leb p.kcp_retransmission_per_mille.fair 1000
