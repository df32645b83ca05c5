-- ===== src/Game/Scheduler/Weighted/Tests.antt =====
-- A scheduler with room for two messages.
use rnetlib.Prelude.{
  ℕ, ◌≡◌, ◌<◌, ◌+◌, refl, arith, Option, none, some, List, [], ◌∷◌, All, true, false, ok, err,
  would_block, u64_max, min, ◌⊎◌,
}
use rnetlib.Game.Scheduler.{ScheduledMessage, GamePriority, reserved_bytes}
use rnetlib.Game.Scheduler.Weight.{sum_of}
use rnetlib.Game.Scheduler.Weighted.{
  ScheduledQueue, ScheduledQueueConfig, configured, from_config, fits, enqueue, pop_next,
  is_expired, push_class,
}
use rnetlib.Game.Scheduler.Weighted.Totals.{total}
use rnetlib.Game.Scheduler.Weighted.Accounts.{Accounts, Fits, one}
use rnetlib.Game.Scheduler.Weighted.Service.{returned, pop_next_ends}
use rnetlib.Game.Scheduler.Weighted.Run.{start, next, admission, run-Accounts, enqueue_lem}

abbrev small : ScheduledQueueConfig
small = record {
  max_queued_bytes = 100;
  max_session_queued_bytes = 50;
  max_queued_messages = 2;
  flush_batch = 1;
}

abbrev late : ScheduledMessage
late = record {
  session = 1;
  payload = 1 ∷ [];
  sequence = none;
  tick = none;
  correlation_id = 10;
  priority = GamePriority.critical;
  enqueued_at = 0;
  expires_at = some 5;
}

abbrev lasting : ScheduledMessage
lasting = record {
  session = 2;
  payload = [];
  sequence = none;
  tick = some 3;
  correlation_id = 20;
  priority = GamePriority.low;
  enqueued_at = 0;
  expires_at = none;
}

abbrev filled : ScheduledQueue
filled = (enqueue lasting (enqueue late (configured small)).1).1

accepted : from_config small ≡ ok (configured small)
unfolding from_config
accepted = refl

run-Accounts_example : Accounts [] filled
run-Accounts_example =
    run-Accounts small (configured small) accepted
      (next (next start (admission late)) (admission lasting))

enqueue_lem_example :
    (Fits late filled
      × (enqueue late filled).0 ≡ ok tt
      × ((enqueue late filled).1.queues ≡ push_class late filled.queues)
      × ((enqueue late filled).1.counters.queued_messages ≡ filled.counters.queued_messages + 1)
      × ((enqueue late filled).1.counters.queued_bytes
          ≡ filled.counters.queued_bytes + reserved_bytes late))
    ⊎ ((Fits late filled → ⊥)
        × (enqueue late filled ≡ (
          err would_block,
          record filled {
            counters = record filled.counters {
              admission_rejected = min (filled.counters.admission_rejected + 1) u64_max;
            };
          },
        )))
unfolding enqueue fits reserved_bytes
enqueue_lem_example = enqueue_lem late filled (omega arith) (omega arith)

filled-Accounts : Accounts [] filled
filled-Accounts =
    run-Accounts small (configured small) accepted
      (next (next start (admission late)) (admission lasting))

enough : filled.counters.queued_messages < 3
unfolding enqueue fits reserved_bytes
enough = omega arith

-- At the instant 7 the first message has expired.
pop_next_ends_example :
    (dropped : List ScheduledMessage) × (r : Option ScheduledMessage) × (q' : ScheduledQueue)
    × (pop_next 3 7 filled ≡ some (r, q'))
    × Accounts (returned r) q'
    × All (λ d. is_expired 7 d.expires_at ≡ true) dropped
    × All (λ m. is_expired 7 m.expires_at ≡ false) (returned r)
    × ((f : ScheduledMessage → ℕ)
        → total f filled.queues ≡ sum_of f dropped + sum_of f (returned r) + total f q'.queues)
    × (r ≡ none → total one q'.queues ≡ 0)
pop_next_ends_example = pop_next_ends 3 7 filled filled-Accounts enough
