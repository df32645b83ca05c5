-- ===== src/Core/EventQueue.antt =====
-- crates/rnet-core/src/event_queue.rs and the event of crates/rnet-core/src/event.rs. Each operation
-- holds both locks of the queue, so it is one step on the state.
pub mod Invariant
pub mod Room
pub mod Priority
pub mod Poll
pub mod Run
mod Tests
use mathlib.Core.Option
use rnetlib.Prelude.{
  ℕ, zero, suc, ◌+◌, ◌-◌, Bool, true, false, not, ◌&&◌, ◌||◌, Option, none, some, List, [], ◌∷◌,
  ◌++◌, Result, ok, err, ErrorCode, invalid_argument, would_block, ltb, ◌==◌, if◌then◌else◌, length,
  take, drop, checked_add, u64_max,
}

pub data EventType : Type 0 where
  runtime_started endpoint_opened endpoint_error session_opened session_closed message : EventType
  writable runtime_stopped auth_request join_failed security_changed game_control : EventType

pub record Event : Type 0 where
  pub event_type : EventType
  pub endpoint : ℕ
  pub session : ℕ
  pub correlation_id : ℕ
  pub status : ErrorCode
  pub payload : List ℕ
  pub integrity_verified : Bool
  pub queued_at : ℕ

pub record EventQueue : Type 0 where
  pub capacity : ℕ
  pub byte_capacity : ℕ
  pub queued_bytes : ℕ
  pub queue : List Event

pub new_with_limits : ℕ → ℕ → Result EventQueue
new_with_limits capacity byte_capacity =
    if capacity == 0 || byte_capacity == 0
    then err invalid_argument
    else ok (record {
      capacity = capacity;
      byte_capacity = byte_capacity;
      queued_bytes = 0;
      queue = [];
    })

pub new : ℕ → Result EventQueue
unfolding new_with_limits
new capacity = new_with_limits capacity u64_max

-- `checked_add(..).is_none_or(|total| total > limit)`
abbrev pub over_limit : ℕ → ℕ → ℕ → Bool
over_limit used more limit = elim (checked_add used more) [
  | none ↦ true
  | some total ↦ ltb limit total
]

-- The count or the byte budget has no room for `bytes` more.
pub is_blocked : EventQueue → ℕ → Bool
is_blocked q bytes = length q.queue == q.capacity || over_limit q.queued_bytes bytes q.byte_capacity

pub push_back : ℕ → EventQueue → Event → EventQueue
push_back now q event = record q {
  queued_bytes = q.queued_bytes + length event.payload;
  queue = q.queue ++ record event { queued_at = now } ∷ [];
}

pub try_push : ℕ → EventQueue → Event → Result (Unit {0}) × EventQueue
unfolding is_blocked push_back
try_push now q event =
    if is_blocked q (length event.payload)
    then (err would_block, q)
    else (ok tt, push_back now q event)

-- Events whose payload is only a local diagnostic.
abbrev pub is_diagnostic : EventType → Bool
is_diagnostic EventType.session_closed = true
is_diagnostic EventType.join_failed = true
is_diagnostic EventType.endpoint_error = true
is_diagnostic _ = false

-- Events that a priority event may displace.
abbrev pub is_notification : EventType → Bool
is_notification EventType.message = true
is_notification EventType.writable = true
is_notification EventType.game_control = true
is_notification _ = false

-- `iter().position(..)` and `remove(position)`: the first notification, and the queue without it.
pub take_notification : List Event → Option (Event × List Event)
take_notification [] = none
take_notification (event ∷ queue) =
    let rest = take_notification queue in
    if is_notification event.event_type
    then some (event, queue)
    else elim rest [ none ↦ none | some (found, left) ↦ some (found, event ∷ left) ]

-- The loop of `push_priority`. `none` is an end of the fuel; each round removes an event, so one more
-- than the length of the queue is enough.
pub make_room : ℕ → EventQueue → ℕ → Bool → Option (Result Bool × EventQueue)
make_room zero q bytes evicted = none
make_room (suc fuel) q bytes evicted = elim (is_blocked q bytes) [
  | false ↦ some (ok evicted, q)
  | true ↦ elim (take_notification q.queue) [
    | none ↦ some (err would_block, q)
    | some (removed, queue) ↦
        make_room fuel
          (record q { queued_bytes = q.queued_bytes - length removed.payload; queue = queue }) bytes
          true
  ]
]

-- A diagnostic that would not fit is dropped.
pub strip : EventQueue → Event → Event
strip q event =
    if is_diagnostic event.event_type
      && over_limit q.queued_bytes (length event.payload) q.byte_capacity
    then record event { payload = [] }
    else event

abbrev pub finish_priority : ℕ → Event → Result Bool × EventQueue → Result Bool × EventQueue
finish_priority now event (ok evicted, q) = (ok evicted, push_back now q event)
finish_priority now event (err e, q) = (err e, q)

pub push_priority : ℕ → EventQueue → Event → Option (Result Bool × EventQueue)
push_priority now q event =
    let event' = strip q event in
    let bytes = length event'.payload in
    if ltb q.byte_capacity bytes
    then some (err would_block, q)
    else Option.map (finish_priority now event') (make_room (suc (length q.queue)) q bytes false)

-- How many events a poll takes: a prefix within both limits.
pub prefix_len : ℕ → ℕ → List Event → ℕ
prefix_len zero limit queue = 0
prefix_len (suc capacity) limit [] = 0
prefix_len (suc capacity) limit (event ∷ queue) =
    let rest = prefix_len capacity (limit - length event.payload) queue in
    if ltb limit (length event.payload) then 0 else suc rest

pub total_bytes : List Event → ℕ
total_bytes [] = 0
total_bytes (event ∷ queue) = length event.payload + total_bytes queue

-- What `poll_with_byte_limit` does once it no longer waits.
pub poll_with_byte_limit : ℕ → ℕ → EventQueue → List Event × EventQueue
unfolding prefix_len total_bytes
poll_with_byte_limit capacity byte_limit q =
    let count = prefix_len capacity byte_limit q.queue in
    let events = take count q.queue in
    (
      events,
      record q { queued_bytes = q.queued_bytes - total_bytes events; queue = drop count q.queue },
    )

pub poll : ℕ → EventQueue → List Event × EventQueue
unfolding poll_with_byte_limit
poll capacity q = poll_with_byte_limit capacity u64_max q

-- A sleep of `push_timeout`: the time before it, what other threads make of the queue meanwhile, and
-- whether it ended by the clock.
pub record Sleep : Type 0 where
  pub now : ℕ
  pub others : EventQueue → EventQueue
  pub timed_out : Bool

-- `push_timeout` with a deadline, over the sleeps that it takes, `last` being the time after them; `none` while it still
-- waits at the end of the list.
pub push_until : ℕ → ℕ → List Sleep → EventQueue → Event → Option (Result (Unit {0}) × EventQueue)
unfolding is_blocked push_back
push_until deadline last [] q event =
    if is_blocked q (length event.payload) then none else some (ok tt, push_back last q event)
push_until deadline last (sleep ∷ sleeps) q event =
    let q' = sleep.others q in
    let later = push_until deadline last sleeps q' event in
    if not (is_blocked q (length event.payload))
    then some (ok tt, push_back sleep.now q event)
    else if deadline - sleep.now == 0
    then some (err would_block, q)
    else if sleep.timed_out && is_blocked q' (length event.payload)
    then some (err would_block, q')
    else later

-- `none` is a deadline that an instant cannot represent.
pub push_timeout :
    Option ℕ → ℕ → List Sleep → EventQueue → Event → Option (Result (Unit {0}) × EventQueue)
unfolding push_until
push_timeout none last sleeps q event = some (err invalid_argument, q)
push_timeout (some deadline) last sleeps q event = push_until deadline last sleeps q event
