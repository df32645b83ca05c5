-- ===== src/Game/Realtime/Tests.antt =====
-- Runs of the snapshot queue of crates/rnet-game/src/realtime.rs.
use rnetlib.Prelude.{arith, ℕ, ◌≡◌, refl, Option, none, some, List, [], ◌∷◌, ok}
use rnetlib.Game.Realtime.{
  PendingRealtime, LatestQueue, RealtimeQueueConfig, empty_queue, new, from_config, find, insert,
  remove, is_rejected, enqueue, release, pop_from, pop_next, requeue, own_keys, remove_keys,
  forget_session, reserved_bytes,
}
use rnetlib.Game.Realtime.Accounts.{Consistent}
use rnetlib.Game.Realtime.Measures.{measure}
use rnetlib.Game.Realtime.Latest.{Serves, first}
use rnetlib.Game.Realtime.Staging.{answer}
use rnetlib.Game.Realtime.Client.{waiting, run-Serves}
use rnetlib.Game.Realtime.Run.{
  Call, enqueue_call, pop_call, requeue_call, forget_call, step, run, run-Consistent,
}

abbrev config : RealtimeQueueConfig
config = record {
  max_queued_bytes = 64;
  max_session_queued_bytes = 40;
  max_keys_per_session = 2;
  flush_batch = 4;
}

abbrev made : LatestQueue
made = empty_queue 64 40 2

abbrev message : ℕ → ℕ → List ℕ → PendingRealtime
message session key payload = record {
  session = session;
  key = key;
  payload = payload;
  tick = none;
}

abbrev calls : List Call
calls =
    enqueue_call (message 1 5 (1 ∷ 2 ∷ []))
    ∷ enqueue_call (message 1 5 (3 ∷ []))
    ∷ enqueue_call (message 2 5 [])
    ∷ pop_call
    ∷ requeue_call (message 1 5 (3 ∷ []))
    ∷ forget_call 2
    ∷ []

from_config-made : from_config config ≡ ok made
unfolding from_config new
from_config-made = refl

run-Consistent_example : (q : LatestQueue) × (run calls made ≡ some q) × Consistent q
run-Consistent_example = run-Consistent config calls from_config-made

abbrev order_after : Option LatestQueue → List (ℕ × ℕ)
order_after none = []
order_after (some q) = q.order

calls_leave_requeued : order_after (run calls made) ≡ (1, 5) ∷ []
unfolding run step enqueue is_rejected find insert remove reserved_bytes pop_next pop_from release
    requeue own_keys remove_keys forget_session
calls_leave_requeued = refl

-- The second message of the key takes the place of the first, and the third of the session is refused.
abbrev sends : List Call
sends =
    enqueue_call (message 1 5 (1 ∷ 2 ∷ []))
    ∷ enqueue_call (message 2 7 [])
    ∷ enqueue_call (message 1 5 (3 ∷ []))
    ∷ enqueue_call (message 1 6 (1 ∷ 2 ∷ 3 ∷ 4 ∷ 5 ∷ 6 ∷ 7 ∷ 8 ∷ []))
    ∷ []

abbrev newest : List PendingRealtime
newest = message 1 5 (3 ∷ []) ∷ message 2 7 [] ∷ []

waiting-newest : waiting config sends [] ≡ newest
unfolding measure
waiting-newest = refl

run-Serves_example :
    (q : LatestQueue) × (run sends made ≡ some q)
    × Serves (waiting config sends []) q
    × ((q' : LatestQueue) × (pop_next q ≡ some (first (waiting config sends []), q')))
    × ((m : PendingRealtime) → (enqueue m q).0 ≡ answer config m (waiting config sends []))
run-Serves_example = run-Serves config sends (omega arith) (omega arith) from_config-made
