-- ===== src/Core/EventQueue/Tests.antt =====
-- A small event queue.
use rnetlib.Prelude.{
  arith, ℕ, ◌-◌, ◌≤◌, ◌≡◌, refl, Bool, true, some, List, [], ◌∷◌, ◌++◌, Result, ok, err, ok_code,
  would_block, length,
}
use rnetlib.Core.EventQueue.{
  Event, EventType, EventQueue, new_with_limits, is_blocked, push_back, try_push, push_priority,
  take_notification, make_room, strip, poll_with_byte_limit, prefix_len, total_bytes,
}
use rnetlib.Core.EventQueue.Invariant.{IsValid}
use rnetlib.Core.EventQueue.Priority.{Carried, PriorityEnd, push_priority_ends}
use rnetlib.Core.EventQueue.Poll.{Stops, poll_with_byte_limit_lem}
use rnetlib.Core.EventQueue.Run.{started, stepped, tried, new_with_limits-Run}

abbrev event : EventType → List ℕ → Event
event kind payload = record {
  event_type = kind;
  endpoint = 1;
  session = 2;
  correlation_id = 0;
  status = ok_code;
  payload = payload;
  integrity_verified = true;
  queued_at = 0;
}

abbrev empty : EventQueue
empty = record { capacity = 2; byte_capacity = 4; queued_bytes = 0; queue = [] }

abbrev message : Event
message = event EventType.message (7 ∷ 8 ∷ [])

made : new_with_limits 2 4 ≡ ok empty
unfolding new_with_limits
made = refl

-- A third message finds the queue full, and a lifecycle event displaces the first.
full_then_displaced :
    let q = (try_push 6 (try_push 5 empty message).1 message).1 in
    ((try_push 7 q message).0 ≡ err would_block)
    × (push_priority 8 q (event EventType.session_closed [])
        ≡ some (
          ok true,
          record {
            capacity = 2;
            byte_capacity = 4;
            queued_bytes = 2;
            queue =
                record message { queued_at = 6 }
                ∷ record (event EventType.session_closed []) { queued_at = 8 }
                ∷ [];
          },
        ))
unfolding try_push is_blocked push_back push_priority take_notification make_room strip
full_then_displaced = (refl, refl)

new_with_limits-Run_example :
    let q = (try_push 5 empty message).1 in
    (q.queued_bytes ≡ total_bytes q.queue) × (length q.queue ≤ 2) × (q.queued_bytes ≤ 4)
new_with_limits-Run_example =
    new_with_limits-Run 2 4 empty _ made (stepped started (tried 5 message))

-- A full queue, of which a lifecycle event displaces the older message.
abbrev full : EventQueue
full = record { capacity = 2; byte_capacity = 4; queued_bytes = 4; queue = message ∷ message ∷ [] }

abbrev closed : Event
closed = event EventType.session_closed (9 ∷ [])

full-IsValid : IsValid full
unfolding total_bytes
full-IsValid = record { counted = refl; in_count = omega arith; in_bytes = omega arith }

push_priority_ends_example :
    (payload : List ℕ) × Carried full closed payload
    × (end : Result Bool × EventQueue) × (push_priority 5 full closed ≡ some end)
    × PriorityEnd 5 full closed payload end
push_priority_ends_example = push_priority_ends 5 full closed full-IsValid

abbrev two_events : EventQueue
two_events = record {
  capacity = 2;
  byte_capacity = 4;
  queued_bytes = 4;
  queue = message ∷ message ∷ [];
}

poll_with_byte_limit_lem_example :
    let (events, q') = poll_with_byte_limit 2 3 two_events in
    (events ++ q'.queue ≡ two_events.queue)
    × (length events ≤ 2)
    × (total_bytes events ≤ 3)
    × Stops (length events) 2 (3 - total_bytes events) q'.queue
poll_with_byte_limit_lem_example = poll_with_byte_limit_lem 2 3 two_events

-- The second event does not fit into three bytes.
poll_takes_one : (poll_with_byte_limit 2 3 two_events).0 ≡ message ∷ []
unfolding poll_with_byte_limit prefix_len
poll_takes_one = refl
