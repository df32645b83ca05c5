-- ===== src/Game/Realtime/Run.antt =====
-- Runs of the snapshot queue of crates/rnet-game/src/realtime.rs from its configuration.
use rnetlib.Prelude.{
  ℕ, ◌≡◌, refl, arith, Bool, ◌||◌, Option, none, some, List, [], ◌∷◌, ◌==◌, Bool-cases, inl, inr,
  Result, ok, err, is_none, ltb,
}
use mathlib.Core.Path.{subst}
use rnetlib.Prelude.Options.{◌>>=◌}
use rnetlib.Game.Realtime.{
  PendingRealtime, LatestQueue, QueueEffect, RealtimeQueueConfig, find, empty_queue, new,
  from_config, enqueue, count_dropped, requeue, pop_next, forget_session, clear, record_forwarded,
  record_send_failed,
}
use rnetlib.Game.Realtime.Measures.{measure}
use rnetlib.Game.Realtime.Accounts.{Consistent, recount-Consistent, count_key}
use rnetlib.Game.Realtime.Enqueue.{enqueue-Consistent}
use rnetlib.Game.Realtime.Removal.{
  pop_next_cons, pop_next_empty, forget_session-Consistent, clear-Consistent,
}

-- The calls of the queue.
pub data Call : Type 0 where
  enqueue_call : PendingRealtime → Call
  pop_call : Call
  requeue_call : PendingRealtime → Call
  forget_call : ℕ → Call
  clear_call : Call
  forwarded_call : Call
  send_failed_call : Call

-- The queue after a call; `none` is an underflow.
unfoldable pub step : Call → LatestQueue → Option LatestQueue
step (enqueue_call m) q = some (enqueue m q).1
step pop_call q = pop_next q >>= λ r. some r.1
step (requeue_call m) q = some (requeue m q)
step (forget_call session) q = forget_session session q >>= λ r. some r.1
step clear_call q = some (clear q)
step forwarded_call q = some (record_forwarded q)
step send_failed_call q = some (record_send_failed q)

unfoldable pub run : List Call → LatestQueue → Option LatestQueue
run [] q = some q
run (call ∷ calls) q = step call q >>= run calls

empty_queue-Consistent : (total session keys : ℕ) → Consistent (empty_queue total session keys)
unfolding measure count_key
empty_queue-Consistent total session keys = record {
  books = record { messages = refl; bytes = refl; by_session = λ s. (refl, refl) };
  ordered = λ s k. (refl, omega arith);
  limits = record {
    byte_limit = omega arith;
    session_limit = λ s. omega arith;
    key_limit = λ s. omega arith;
    pending_limit = omega arith;
  };
}

count_dropped-Consistent :
    (r : Result QueueEffect × LatestQueue) → Consistent r.1 → Consistent (count_dropped r)
count_dropped-Consistent (ok effect, q) c = c
count_dropped-Consistent (err code, q) c = recount-Consistent q _ refl refl c

requeue-Consistent :
    (m : PendingRealtime) (q : LatestQueue) → Consistent q → Consistent (requeue m q)
unfolding requeue
requeue-Consistent m q c = elim (Bool-cases (is_none (find m.session m.key q.pending))) [
  | inl absent ↦ rw absent (count_dropped-Consistent (enqueue m q) (enqueue-Consistent m q c))
  | inr held ↦ rw held (recount-Consistent q _ refl refl c)
]

pop_next-Consistent :
    (q : LatestQueue) (order : List (ℕ × ℕ))
    → q.order ≡ order
    → Consistent q
    → (r : Option PendingRealtime × LatestQueue) × (pop_next q ≡ some r) × Consistent r.1
pop_next-Consistent q [] e c = (
  (none, record q { order = [] }),
  pop_next_empty q e,
  record {
    books = record {
      messages = c.books.messages;
      bytes = c.books.bytes;
      by_session = c.books.by_session;
    };
    ordered = λ s k. rw e at (c.ordered s k);
    limits = record {
      byte_limit = c.limits.byte_limit;
      session_limit = c.limits.session_limit;
      key_limit = c.limits.key_limit;
      pending_limit = c.limits.pending_limit;
    };
  },
)
pop_next-Consistent q ((session, key) ∷ order) e c =
    let (m, q', runs, c', popped, tail) = pop_next_cons q session key order e c in
    ((some m, q'), runs, c')

pub step-Consistent :
    (call : Call) (q : LatestQueue)
    → Consistent q
    → (q' : LatestQueue) × (step call q ≡ some q') × Consistent q'
unfolding step
step-Consistent (enqueue_call m) q c = (_, refl, enqueue-Consistent m q c)
step-Consistent pop_call q c =
    let (r, runs, c') = pop_next-Consistent q q.order refl c in (r.1, rw runs refl, c')
step-Consistent (requeue_call m) q c = (_, refl, requeue-Consistent m q c)
step-Consistent (forget_call session) q c =
    let (q', runs, c', gone, order, others, same) = forget_session-Consistent session q c in
    (q', rw runs refl, c')
step-Consistent clear_call q c = (_, refl, clear-Consistent q)
step-Consistent forwarded_call q c = (_, refl, recount-Consistent q _ refl refl c)
step-Consistent send_failed_call q c = (_, refl, recount-Consistent q _ refl refl c)

run-Consistent_from :
    (calls : List Call) (q : LatestQueue)
    → Consistent q
    → (q' : LatestQueue) × (run calls q ≡ some q') × Consistent q'
unfolding run
run-Consistent_from [] q c = (q, refl, c)
run-Consistent_from (call ∷ calls) q c =
    let (q1, steps, c1) = step-Consistent call q c in
    let (q', runs, c') = run-Consistent_from calls q1 c1 in (q', rw steps runs, c')

abbrev pub made_by : RealtimeQueueConfig → LatestQueue
made_by config =
    empty_queue config.max_queued_bytes config.max_session_queued_bytes config.max_keys_per_session

pub from_config_lem :
    (config : RealtimeQueueConfig) {q : LatestQueue}
    → from_config config ≡ ok q
    → made_by config ≡ q
unfolding from_config new
from_config_lem config {q} made = elim (Bool-cases (config.flush_batch == 0)) [
  | inl idle ↦ let e = rw idle at made in absurd cc
  | inr flushes ↦ elim (Bool-cases bad) [
    | inl refused ↦ let e = rw (flushes, refused) at made in absurd cc
    | inr accepted ↦ let e = rw (flushes, accepted) at made in cc
  ]
]
  where
    bad : Bool
    bad =
        config.max_queued_bytes == 0
        || config.max_session_queued_bytes == 0
        || ltb config.max_queued_bytes config.max_session_queued_bytes
        || config.max_keys_per_session == 0

pub from_config-Consistent :
    (config : RealtimeQueueConfig) {q : LatestQueue} → from_config config ≡ ok q → Consistent q
from_config-Consistent config made =
    subst Consistent (from_config_lem config made) (empty_queue-Consistent _ _ _)

-- From a queue that its configuration made, no sequence of calls underflows, and after it the counters of
-- messages and bytes and the use of each session are those of the pending entries, each entry stands once in
-- the order and nothing else does, and the total, session, key and entry limits hold.
pub run-Consistent :
    (config : RealtimeQueueConfig) (calls : List Call) {q : LatestQueue}
    → from_config config ≡ ok q
    → (q' : LatestQueue) × (run calls q ≡ some q') × Consistent q'
run-Consistent config calls made = run-Consistent_from calls _ (from_config-Consistent config made)
