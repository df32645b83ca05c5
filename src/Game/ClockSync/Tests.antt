-- ===== src/Game/ClockSync/Tests.antt =====
-- A server 500 microseconds ahead, 20 microseconds there and 30 back.
use rnetlib.Prelude.{◌≡◌, ◌≤◌, ◌+◌, ◌*◌, arith, none, some, ◌⊎◌}
use rnetlib.Prelude.Int.{pos, pos_part, neg_part}
use rnetlib.Game.ClockSync.{
  ClockSyncSample, ClockSyncTracker, calculate_sample, new_client, mark_sent, accept_reply,
}
use rnetlib.Game.ClockSync.Accuracy.{calculate_sample_lem}
use rnetlib.Game.ClockSync.Tracker.{Accepted, accept_reply_lem}

calculate_sample_lem_example :
    (s : ClockSyncSample) × (calculate_sample 1000 1520 1525 1055 ≡ some s)
    × (s.rtt ≡ (20 + 30) * 1000)
    × (2 * (pos_part s.server_minus_client_us + neg_part (pos 500))
        ≤ 2 * (neg_part s.server_minus_client_us + pos_part (pos 500)) + (20 + 30) + 1)
    × (2 * (neg_part s.server_minus_client_us + pos_part (pos 500))
        ≤ 2 * (pos_part s.server_minus_client_us + neg_part (pos 500)) + (20 + 30) + 1)
calculate_sample_lem_example =
    calculate_sample_lem 1000 1520 1525 1055 20 30 (pos 500) (omega arith) (omega arith)
      (omega arith) (omega arith) (omega arith) (omega arith)

abbrev asked : ClockSyncTracker
asked = mark_sent 7 1000 1_000_000 new_client

accept_reply_lem_example :
    (accept_reply 7 1000 1520 1525 1055 1_055_000 100_000 asked ≡ (none, asked))
    ⊎ ((s : ClockSyncSample) × (t' : ClockSyncTracker) × (accept_reply 7 1000 1520 1525 1055
            1_055_000 100_000 asked
          ≡ (some s, t'))
        × Accepted 7 1000 1520 1525 1055 1_055_000 100_000 asked t' s)
accept_reply_lem_example = accept_reply_lem 7 1000 1520 1525 1055 1_055_000 100_000 asked
