-- ===== src/Game/Quality/Loss.antt =====
-- `UdpLossTracker` of crates/rnet-game/src/quality.rs: a sequence number counts once.
use Prim.Native.Nat.{bit_and, bit_or}
use native.Mathlib.Nat.{div-le_of_le-mul}
use rnetlib.Prelude.{
  ℕ, ◌-◌, ◌*◌, ◌/◌, ◌^◌, ◌≤◌, ◌≡◌, refl, arith, min, true, false, not, ◌||◌, some, ◌==◌, ltb, leb,
  if◌then◌else◌, sat_add, u64_max, inl, inr, ◌⊎◌,
}
use rnetlib.Game.Quality.{
  UdpObservation, UdpLossTracker, observe, observe_ahead, observe_behind, snapshot, count_ones,
  wrapping_sub, reorder_window,
}

-- An observation that counts nothing.
abbrev pub CountsNothing : UdpObservation × UdpLossTracker → UdpLossTracker → Type 0
CountsNothing (o, t') t =
    ((o ≡ UdpObservation.duplicate) ⊎ (o ≡ UdpObservation.too_old))
    × (t'.highest ≡ t.highest)
    × (t'.seen ≡ t.seen)
    × (t'.span ≡ t.span)
    × (t'.expected ≡ t.expected)
    × (t'.received ≡ t.received)
    × (t'.reordered ≡ t.reordered)
    × (t'.discontinuities ≡ t.discontinuities)

pub behind_old :
    (behind : ℕ) (t : UdpLossTracker)
    → (leb reorder_window behind || leb t.span behind) ≡ true
    → observe_behind behind t ≡ (UdpObservation.too_old, record t { too_old = sat_add t.too_old 1 })
unfolding observe_behind
behind_old behind t old = rw old refl

pub behind_seen :
    (behind : ℕ) (t : UdpLossTracker)
    → (leb reorder_window behind || leb t.span behind) ≡ false
    → not (bit_and t.seen (2 ^ behind) == 0) ≡ true
    → observe_behind behind t
      ≡ (UdpObservation.duplicate, record t { duplicates = sat_add t.duplicates 1 })
unfolding observe_behind
behind_seen behind t recent set = rw recent (rw set refl)

pub behind_unseen :
    (behind : ℕ) (t : UdpLossTracker)
    → (leb reorder_window behind || leb t.span behind) ≡ false
    → not (bit_and t.seen (2 ^ behind) == 0) ≡ false
    → observe_behind behind t ≡ (
      UdpObservation.reordered,
      record t {
        seen = bit_or t.seen (2 ^ behind);
        received = sat_add t.received 1;
        reordered = sat_add t.reordered 1;
      },
    )
unfolding observe_behind
behind_unseen behind t recent clear = rw recent (rw clear refl)

pub CountsNothing-old :
    (t : UdpLossTracker)
    → CountsNothing (UdpObservation.too_old, record t { too_old = sat_add t.too_old 1 }) t
CountsNothing-old t = (inr refl, refl, refl, refl, refl, refl, refl, refl)

pub CountsNothing-seen :
    (t : UdpLossTracker)
    → CountsNothing (UdpObservation.duplicate, record t { duplicates = sat_add t.duplicates 1 }) t
CountsNothing-seen t = (inl refl, refl, refl, refl, refl, refl, refl, refl)

-- The ways an observation after the first one goes.
pub observe_same :
    (sequence highest : ℕ) (t : UdpLossTracker)
    → t.highest ≡ some highest
    → (wrapping_sub sequence highest == 0) ≡ true
    → observe sequence t
      ≡ (UdpObservation.duplicate, record t { duplicates = sat_add t.duplicates 1 })
unfolding observe
observe_same sequence highest t e same = rw e (rw same refl)

pub observe_far :
    (sequence highest : ℕ) (t : UdpLossTracker)
    → t.highest ≡ some highest
    → (wrapping_sub sequence highest == 0) ≡ false
    → ltb (wrapping_sub sequence highest) (2 ^ 31) ≡ true
    → observe sequence t ≡ observe_ahead sequence (wrapping_sub sequence highest) t
unfolding observe
observe_far sequence highest t e other ahead = rw e (rw other (rw ahead refl))

pub observe_near :
    (sequence highest : ℕ) (t : UdpLossTracker)
    → t.highest ≡ some highest
    → (wrapping_sub sequence highest == 0) ≡ false
    → ltb (wrapping_sub sequence highest) (2 ^ 31) ≡ false
    → observe sequence t ≡ observe_behind (wrapping_sub highest sequence) t
unfolding observe
observe_near sequence highest t e other behind = rw e (rw other (rw behind refl))

-- The figures of a snapshot are within their documented ranges.
pub snapshot_ranges :
    (t : UdpLossTracker)
    → ((snapshot t).recent_expected ≤ 64)
      × ((snapshot t).recent_missing ≤ (snapshot t).recent_expected)
      × ((snapshot t).recent_loss_per_mille ≤ 1000)
unfolding snapshot
snapshot_ranges t =
    let e : min t.span reorder_window ≤ 64 = omega arith in
    (
      e,
      omega arith,
      per_mille (min t.span reorder_window)
          (min t.span reorder_window - min (count_ones 64 t.seen) (min t.span reorder_window))
          (omega arith),
    )
  where
    per_mille :
        (all missing : ℕ)
        → missing ≤ all
        → (if all == 0 then 0 else min (missing * 1000) u64_max / all) ≤ 1000
    per_mille all missing h =
        let bound : min (missing * 1000) u64_max / all ≤ 1000 =
          div-le_of_le-mul all (omega arith) in
        ground arith
