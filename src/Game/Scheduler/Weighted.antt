-- ===== src/Game/Scheduler/Weighted.antt =====
-- crates/rnet-game/src/scheduler.rs: the scheduler over the four classes, with its budgets, its weighted
-- service and its local expiry. Instants are nanoseconds from the start of the clock.
pub mod Totals
pub mod Usage
pub mod Accounts
pub mod Settlement
pub mod Search
pub mod Service
pub mod Run
mod Tests
use rnetlib.Prelude.{
  ℕ, zero, suc, ◌+◌, ◌-◌, ◌*◌, ◌%◌, ◌^◌, Bool, true, false, ◌&&◌, ◌||◌, Option, none, some, List,
  [], ◌∷◌, Result, ok, err, ErrorCode, invalid_argument, would_block, ◌==◌, ltb, leb, is_some,
  if◌then◌else◌, get_elem?, set, map, length, Map, put, checked_add, sat_add,
}
use rnetlib.Observe.Latency.{LatencySnapshot, LatencyHistogram, empty_histogram, record_latency}
use rnetlib.Observe.Latency as Latency
use rnetlib.Game.Scheduler.{
  ScheduledMessage, FairPriorityQueue, index, reserved_bytes, empty_queue, push, pop,
  remove_session,
}
use rnetlib.Game.Scheduler as Scheduler

abbrev pub weighted_order : List ℕ
weighted_order = 3 ∷ 3 ∷ 3 ∷ 3 ∷ 3 ∷ 3 ∷ 3 ∷ 3 ∷ 2 ∷ 2 ∷ 2 ∷ 2 ∷ 1 ∷ 1 ∷ 0 ∷ []

pub record ScheduledQueueConfig : Type 0 where
  pub max_queued_bytes : ℕ
  pub max_session_queued_bytes : ℕ
  pub max_queued_messages : ℕ
  pub flush_batch : ℕ

pub record Counters : Type 0 where
  pub queued_messages : ℕ
  pub queued_bytes : ℕ
  pub admission_rejected : ℕ
  pub expired_dropped : ℕ
  pub closed_dropped : ℕ
  pub send_failed : ℕ
  pub forwarded : ℕ
  pub backpressure_requeued : ℕ
  pub admitted_by_priority : List ℕ
  pub forwarded_by_priority : List ℕ

pub record ScheduledQueue : Type 0 where
  pub queues : List FairPriorityQueue
  pub session_bytes : Map ℕ
  pub max_total_bytes : ℕ
  pub max_session_bytes : ℕ
  pub max_messages : ℕ
  pub cursor : ℕ
  pub counters : Counters
  pub queue_delay : LatencyHistogram
  pub tick_queue_delay : LatencyHistogram

abbrev pub no_counts : Counters
no_counts = record {
  queued_messages = 0;
  queued_bytes = 0;
  admission_rejected = 0;
  expired_dropped = 0;
  closed_dropped = 0;
  send_failed = 0;
  forwarded = 0;
  backpressure_requeued = 0;
  admitted_by_priority = 0 ∷ 0 ∷ 0 ∷ 0 ∷ [];
  forwarded_by_priority = 0 ∷ 0 ∷ 0 ∷ 0 ∷ [];
}

abbrev pub no_queues : List FairPriorityQueue
no_queues = empty_queue ∷ empty_queue ∷ empty_queue ∷ empty_queue ∷ []

abbrev pub bad_config : ScheduledQueueConfig → Bool
bad_config config =
    config.max_queued_bytes == 0
    || config.max_session_queued_bytes == 0
    || ltb config.max_queued_bytes config.max_session_queued_bytes
    || config.max_queued_messages == 0
    || config.flush_batch == 0

abbrev pub configured : ScheduledQueueConfig → ScheduledQueue
configured config = record {
  queues = no_queues;
  session_bytes = λ session. none;
  max_total_bytes = config.max_queued_bytes;
  max_session_bytes = config.max_session_queued_bytes;
  max_messages = config.max_queued_messages;
  cursor = 0;
  counters = no_counts;
  queue_delay = empty_histogram;
  tick_queue_delay = empty_histogram;
}

unfoldable pub from_config : ScheduledQueueConfig → Result ScheduledQueue
from_config config = if bad_config config then err invalid_argument else ok (configured config)

-- `unwrap_or_default`
abbrev pub usage : Option ℕ → ℕ
usage none = 0
usage (some bytes) = bytes

abbrev pub total_fits : Option ℕ → ℕ → Bool
total_fits none limit = false
total_fits (some total) limit = leb total limit

-- An array indexed by class, with one counter stepped.
abbrev pub step_count : List ℕ → ℕ → Option ℕ → List ℕ
step_count counts priority none = counts
step_count counts priority (some n) = set counts priority (sat_add n 1)

abbrev pub push_at :
    ScheduledMessage → List FairPriorityQueue → Option FairPriorityQueue → List FairPriorityQueue
push_at message queues none = queues
push_at message queues (some fair) = set queues (index message.priority) (push message fair)

abbrev pub push_class : ScheduledMessage → List FairPriorityQueue → List FairPriorityQueue
push_class message queues = push_at message queues (get_elem? queues (index message.priority))

unfoldable pub fits : ScheduledMessage → ScheduledQueue → Bool
fits message q =
    ltb q.counters.queued_messages q.max_messages
    && total_fits (checked_add q.counters.queued_bytes (reserved_bytes message)) q.max_total_bytes
    && total_fits (checked_add (usage (q.session_bytes message.session)) (reserved_bytes message))
        q.max_session_bytes

unfoldable pub enqueue : ScheduledMessage → ScheduledQueue → Result (Unit {0}) × ScheduledQueue
enqueue message q =
    let bytes = reserved_bytes message in
    let priority = index message.priority in
    if fits message q
    then (
      ok tt,
      record q {
        counters = record q.counters {
          queued_messages = q.counters.queued_messages + 1;
          queued_bytes = q.counters.queued_bytes + bytes;
          admitted_by_priority =
              step_count q.counters.admitted_by_priority priority
                (get_elem? q.counters.admitted_by_priority priority);
        };
        session_bytes =
            put q.session_bytes message.session
              (some (usage (q.session_bytes message.session) + bytes));
        queues = push_class message q.queues;
      },
    )
    else (
      err would_block,
      record q {
        counters = record q.counters {
          admission_rejected = sat_add q.counters.admission_rejected 1;
        };
      },
    )

-- A session whose bytes are all released leaves the map.
abbrev pub release_usage : Map ℕ → ℕ → ℕ → Option ℕ → Map ℕ
release_usage m session bytes none = m
release_usage m session bytes (some used) =
    put m session (if used - bytes == 0 then none else some (used - bytes))

unfoldable pub release : ScheduledMessage → ScheduledQueue → ScheduledQueue
release message q =
    let bytes = reserved_bytes message in
    record q {
      counters = record q.counters {
        queued_messages = q.counters.queued_messages - 1;
        queued_bytes = q.counters.queued_bytes - bytes;
      };
      session_bytes =
          release_usage q.session_bytes message.session bytes (q.session_bytes message.session);
    }

-- The steps of the cursor in one search. The outer `none` is a panic.
unfoldable pub search_classes :
    ℕ → ScheduledQueue → Option (Option ScheduledMessage × ScheduledQueue)
search_classes zero q = some (none, q)
search_classes (suc steps) q = elim (get_elem? weighted_order q.cursor) [
  | none ↦ none
  | some priority ↦ elim (get_elem? q.queues priority) [
    | none ↦ none
    | some fair ↦ elim (pop fair) [
      | none ↦ none
      | some (none, fair') ↦
          search_classes steps (record q { cursor = (q.cursor + 1) % length weighted_order })
      | some (some message, fair') ↦ some (
        some message,
        record q {
          cursor = (q.cursor + 1) % length weighted_order;
          queues = set q.queues priority fair';
        },
      )
    ]
  ]
]

abbrev pub is_expired : ℕ → Option ℕ → Bool
is_expired now none = false
is_expired now (some deadline) = leb deadline now

abbrev pub drop_expired : ScheduledMessage → ScheduledQueue → ScheduledQueue
drop_expired message q =
    let released = release message q in
    record released {
      counters = record released.counters {
        expired_dropped = sat_add released.counters.expired_dropped 1;
      };
    }

-- The loop on fuel; `none` is a panic or the end of the fuel.
unfoldable pub pop_next : ℕ → ℕ → ScheduledQueue → Option (Option ScheduledMessage × ScheduledQueue)
pop_next zero now q = none
pop_next (suc fuel) now q = elim (search_classes (length weighted_order) q) [
  | none ↦ none
  | some (none, q') ↦ some (none, q')
  | some (some message, q') ↦ elim (is_expired now message.expires_at) [
    | true ↦ pop_next fuel now (drop_expired message q')
    | false ↦ some (some message, q')
  ]
]

pub requeue : ScheduledMessage → ScheduledQueue → ScheduledQueue
requeue message q = record q {
  counters = record q.counters {
    backpressure_requeued = sat_add q.counters.backpressure_requeued 1;
  };
  queues = push_class message q.queues;
}

pub remove_all : ℕ → List FairPriorityQueue → ℕ × List FairPriorityQueue
remove_all session [] = (0, [])
remove_all session (fair ∷ queues) =
    let (dropped, fair') = remove_session session fair in
    let (others, queues') = remove_all session queues in (dropped + others, fair' ∷ queues')

pub forget_session : ℕ → ScheduledQueue → ℕ × ScheduledQueue
forget_session session q =
    let (dropped, queues) = remove_all session q.queues in
    (
      dropped,
      record q {
        queues = queues;
        session_bytes = put q.session_bytes session none;
        counters = record q.counters {
          queued_bytes = q.counters.queued_bytes - usage (q.session_bytes session);
          queued_messages = q.counters.queued_messages - dropped;
          closed_dropped = sat_add q.counters.closed_dropped dropped;
        };
      },
    )

-- `elapsed` is the delay since the admission.
pub record_forwarded : ℕ → ScheduledMessage → ScheduledQueue → ScheduledQueue
record_forwarded elapsed message q =
    let released = release message q in
    let priority = index message.priority in
    record released {
      queue_delay = record_latency elapsed q.queue_delay;
      tick_queue_delay =
          if is_some message.tick
          then record_latency elapsed q.tick_queue_delay
          else q.tick_queue_delay;
      counters = record released.counters {
        forwarded = sat_add released.counters.forwarded 1;
        forwarded_by_priority =
            step_count released.counters.forwarded_by_priority priority
              (get_elem? released.counters.forwarded_by_priority priority);
      };
    }

pub record_send_failed : ScheduledMessage → ScheduledQueue → ScheduledQueue
record_send_failed message q =
    let released = release message q in
    record released {
      counters = record released.counters { send_failed = sat_add released.counters.send_failed 1 };
    }

pub clear : ScheduledQueue → ScheduledQueue
clear q = record q {
  queues = map Scheduler.clear q.queues;
  session_bytes = λ session. none;
  counters = record q.counters {
    queued_messages = 0;
    queued_bytes = 0;
    closed_dropped = sat_add q.counters.closed_dropped q.counters.queued_messages;
  };
}

abbrev pub delays : ScheduledQueue → LatencySnapshot × LatencySnapshot
delays q = (Latency.snapshot q.queue_delay, Latency.snapshot q.tick_queue_delay)
