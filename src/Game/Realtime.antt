-- ===== src/Game/Realtime.antt =====
-- crates/rnet-game/src/realtime.rs: the queue of pending snapshots, of which only the latest for each session
-- and key is kept.
pub mod Measures
pub mod Accounts
pub mod Insertion
pub mod Enqueue
pub mod Removal
pub mod Latest
pub mod Run
pub mod Staging
pub mod Client
pub mod Tests
use rnetlib.Prelude.{
  ℕ, zero, suc, ◌+◌, ◌-◌, ◌*◌, ◌/◌, min, max, Bool, true, false, not, ◌&&◌, ◌||◌, Option, none,
  some, List, [], ◌∷◌, ◌++◌, Result, ok, err, ErrorCode, invalid_argument, would_block, ◌==◌, ltb,
  leb, if◌then◌else◌, is_none, length, keep, map, Map, put, checked_add, checked_sub, sat_add,
}
use rnetlib.Prelude.Options.{◌>>=◌}

abbrev pub worst_envelope_overhead : ℕ
worst_envelope_overhead = 16

pub record RealtimeQueueConfig : Type 0 where
  pub max_queued_bytes : ℕ
  pub max_session_queued_bytes : ℕ
  pub max_keys_per_session : ℕ
  pub flush_batch : ℕ

pub data QueueEffect : Type 0 where
  queued replaced_older : QueueEffect

pub record RealtimeQueueSnapshot : Type 0 where
  pub queued_messages : ℕ
  pub queued_bytes : ℕ
  pub admission_rejected : ℕ
  pub replaced : ℕ
  pub closed_dropped : ℕ
  pub backpressure_dropped : ℕ
  pub send_failed : ℕ
  pub forwarded : ℕ

pub record PendingRealtime : Type 0 where
  pub session : ℕ
  pub key : ℕ
  pub payload : List ℕ
  pub tick : Option ℕ

unfoldable pub reserved_bytes : PendingRealtime → ℕ
reserved_bytes m = length m.payload + worst_envelope_overhead

-- `pending` lists the entries of the map, each under its own session and key.
pub record LatestQueue : Type 0 where
  pub max_total_bytes : ℕ
  pub max_session_bytes : ℕ
  pub max_keys_per_session : ℕ
  pub max_pending_keys : ℕ
  pub order : List (ℕ × ℕ)
  pub pending : List PendingRealtime
  pub session_usage : Map (ℕ × ℕ)
  pub counters : RealtimeQueueSnapshot

abbrev pub has_key : ℕ → ℕ → PendingRealtime → Bool
has_key session key m = m.session == session && m.key == key

unfoldable pub find : ℕ → ℕ → List PendingRealtime → Option PendingRealtime
find session key [] = none
find session key (m ∷ ms) = if has_key session key m then some m else find session key ms

-- `insert` and `remove` of the map.
unfoldable pub insert : PendingRealtime → List PendingRealtime → List PendingRealtime
insert m [] = m ∷ []
insert m (x ∷ xs) = let rest = insert m xs in if has_key m.session m.key x then m ∷ xs else x ∷ rest

unfoldable pub remove : ℕ → ℕ → List PendingRealtime → List PendingRealtime
remove session key [] = []
remove session key (x ∷ xs) =
    let rest = remove session key xs in if has_key session key x then xs else x ∷ rest

abbrev pub no_counts : RealtimeQueueSnapshot
no_counts = record {
  queued_messages = 0;
  queued_bytes = 0;
  admission_rejected = 0;
  replaced = 0;
  closed_dropped = 0;
  backpressure_dropped = 0;
  send_failed = 0;
  forwarded = 0;
}

abbrev pub empty_queue : ℕ → ℕ → ℕ → LatestQueue
empty_queue max_total_bytes max_session_bytes max_keys_per_session = record {
  max_total_bytes = max_total_bytes;
  max_session_bytes = max_session_bytes;
  max_keys_per_session = max_keys_per_session;
  max_pending_keys = min (max (max_total_bytes / worst_envelope_overhead) 1) 65_536;
  order = [];
  pending = [];
  session_usage = λ session. none;
  counters = no_counts;
}

unfoldable pub new : ℕ → ℕ → ℕ → Result LatestQueue
new max_total_bytes max_session_bytes max_keys_per_session =
    if max_total_bytes == 0
      || max_session_bytes == 0
      || ltb max_total_bytes max_session_bytes
      || max_keys_per_session == 0
    then err invalid_argument
    else ok (empty_queue max_total_bytes max_session_bytes max_keys_per_session)

unfoldable pub from_config : RealtimeQueueConfig → Result LatestQueue
unfolding new
from_config config =
    if config.flush_batch == 0
    then err invalid_argument
    else new config.max_queued_bytes config.max_session_queued_bytes config.max_keys_per_session

abbrev pub bytes_of : Option PendingRealtime → ℕ
bytes_of none = 0
bytes_of (some m) = reserved_bytes m

abbrev pub usage : Option (ℕ × ℕ) → ℕ × ℕ
usage none = (0, 0)
usage (some u) = u

-- `is_none_or(|bytes| bytes > limit)`
abbrev pub exceeds : Option ℕ → ℕ → Bool
exceeds none limit = true
exceeds (some bytes) limit = ltb limit bytes

-- The sums that the test of `enqueue` compares.
abbrev pub new_total : PendingRealtime → LatestQueue → Option ℕ
new_total m q =
    checked_add (q.counters.queued_bytes - bytes_of (find m.session m.key q.pending))
      (reserved_bytes m)

abbrev pub new_session : PendingRealtime → LatestQueue → Option ℕ
new_session m q =
    checked_add ((usage (q.session_usage m.session)).1 - bytes_of (find m.session m.key q.pending))
      (reserved_bytes m)

unfoldable pub is_rejected : PendingRealtime → LatestQueue → Bool
is_rejected m q =
    let old_bytes = bytes_of (find m.session m.key q.pending) in
    exceeds (new_total m q) q.max_total_bytes
    || exceeds (new_session m q) q.max_session_bytes
    || old_bytes == 0 && leb q.max_keys_per_session (usage (q.session_usage m.session)).0
    || old_bytes == 0 && leb q.max_pending_keys (length q.pending)

-- What follows the insertion, by what the insertion returned; the sums are those that passed the test.
abbrev pub inserted :
    PendingRealtime
    → LatestQueue
    → ℕ
    → ℕ
    → Option PendingRealtime
    → Result QueueEffect × LatestQueue
inserted m q total session_total none = (
  ok QueueEffect.queued,
  record q {
    pending = insert m q.pending;
    order = q.order ++ (m.session, m.key) ∷ [];
    counters = record q.counters {
      queued_messages = q.counters.queued_messages + 1;
      queued_bytes = total;
    };
    session_usage =
        put q.session_usage m.session
          (some ((usage (q.session_usage m.session)).0 + 1, session_total));
  },
)
inserted m q total session_total (some old) = (
  ok QueueEffect.replaced_older,
  record q {
    pending = insert m q.pending;
    counters = record q.counters { replaced = sat_add q.counters.replaced 1; queued_bytes = total };
    session_usage =
        put q.session_usage m.session (some ((usage (q.session_usage m.session)).0, session_total));
  },
)

abbrev pub or_zero : Option ℕ → ℕ
or_zero none = 0
or_zero (some n) = n

-- The test passes only if both sums are there, so that `or_zero` is never of `none` here.
unfoldable pub enqueue : PendingRealtime → LatestQueue → Result QueueEffect × LatestQueue
enqueue m q =
    if is_rejected m q
    then (
      err would_block,
      record q {
        counters = record q.counters {
          admission_rejected = sat_add q.counters.admission_rejected 1;
        };
      },
    )
    else inserted m q (or_zero (new_total m q)) (or_zero (new_session m q))
        (find m.session m.key q.pending)

-- The entry of a session after a release; the outer `none` is an underflow.
abbrev pub release_usage : Option (ℕ × ℕ) → ℕ → Option (Option (ℕ × ℕ))
release_usage none bytes = some none
release_usage (some (keys, used)) bytes = do
  keys' ← checked_sub keys 1
  used' ← checked_sub used bytes
  some (if keys' == 0 then none else some (keys', used'))

-- `none` is an underflow.
unfoldable pub release : PendingRealtime → LatestQueue → Option LatestQueue
release m q = do
  messages ← checked_sub q.counters.queued_messages 1
  bytes ← checked_sub q.counters.queued_bytes (reserved_bytes m)
  entry ← release_usage (q.session_usage m.session) (reserved_bytes m)
  some (record q {
    counters = record q.counters { queued_messages = messages; queued_bytes = bytes };
    session_usage = put q.session_usage m.session entry;
  })

-- The loop over the order; the outer `none` is an underflow.
unfoldable pub pop_from : List (ℕ × ℕ) → LatestQueue → Option (Option PendingRealtime × LatestQueue)
pop_from [] q = some (none, record q { order = [] })
pop_from ((session, key) ∷ order) q =
    let rest = pop_from order q in
    elim (find session key q.pending) [
      | none ↦ rest
      | some m ↦
          release m (record q { order = order; pending = remove session key q.pending }) >>= λ q'.
          some (some m, q')
    ]

unfoldable pub pop_next : LatestQueue → Option (Option PendingRealtime × LatestQueue)
pop_next q = pop_from q.order q

abbrev pub count_dropped : Result QueueEffect × LatestQueue → LatestQueue
count_dropped (ok effect, q) = q
count_dropped (err code, q) = record q {
  counters = record q.counters { backpressure_dropped = sat_add q.counters.backpressure_dropped 1 };
}

unfoldable pub requeue : PendingRealtime → LatestQueue → LatestQueue
requeue m q =
    if is_none (find m.session m.key q.pending)
    then count_dropped (enqueue m q)
    else record q { counters = record q.counters { replaced = sat_add q.counters.replaced 1 } }

-- The keys of a session, and the loop that removes them.
unfoldable pub own_keys : ℕ → List PendingRealtime → List ℕ
own_keys session [] = []
own_keys session (m ∷ ms) =
    let rest = own_keys session ms in if m.session == session then m.key ∷ rest else rest

unfoldable pub remove_keys : ℕ → List ℕ → LatestQueue → Option LatestQueue
remove_keys session [] q = some q
remove_keys session (key ∷ keys) q = elim (find session key q.pending) [
  | none ↦ remove_keys session keys q
  | some m ↦ elim (release m (record q { pending = remove session key q.pending })) [
    | none ↦ none
    | some q' ↦ remove_keys session keys q'
  ]
]

-- What follows the loop, over the number of keys that it went through.
abbrev pub forgotten : ℕ → ℕ → LatestQueue → LatestQueue
forgotten session count q = record q {
  order = keep (λ entry. not (entry.0 == session)) q.order;
  counters = record q.counters { closed_dropped = sat_add q.counters.closed_dropped count };
}

unfoldable pub forget_session : ℕ → LatestQueue → Option (ℕ × LatestQueue)
forget_session session q =
    let keys = own_keys session q.pending in
    remove_keys session keys q >>= λ q'. some (length keys, forgotten session (length keys) q')

unfoldable pub clear : LatestQueue → LatestQueue
clear q = record q {
  pending = [];
  order = [];
  session_usage = λ session. none;
  counters = record q.counters {
    closed_dropped = sat_add q.counters.closed_dropped (length q.pending);
    queued_messages = 0;
    queued_bytes = 0;
  };
}

abbrev pub record_forwarded : LatestQueue → LatestQueue
record_forwarded q = record q {
  counters = record q.counters { forwarded = sat_add q.counters.forwarded 1 };
}

abbrev pub record_send_failed : LatestQueue → LatestQueue
record_send_failed q = record q {
  counters = record q.counters { send_failed = sat_add q.counters.send_failed 1 };
}
