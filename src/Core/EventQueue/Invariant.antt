-- ===== src/Core/EventQueue/Invariant.antt =====
-- The budgets of the event queue, and that every operation keeps them.
use rnetlib.Prelude.{
  ℕ, suc, ◌+◌, ◌-◌, ◌≤◌, ◌≡◌, sym, ap, ◌∙◌, arith, true, false, some, List, [], ◌∷◌, ◌++◌, ok,
  length, take, drop, length-append, length-drop, take-append-drop, Bool-cases, Option-cases, inl,
  inr,
}
use rnetlib.Core.EventQueue.{
  Event, EventQueue, is_notification, is_blocked, push_back, new_with_limits, try_push,
  take_notification, prefix_len, total_bytes, poll_with_byte_limit,
}

-- The byte counter is the sum of the payloads, and both limits hold.
pub record IsValid (q : EventQueue) : Type 0 where
  pub counted : q.queued_bytes ≡ total_bytes q.queue
  pub in_count : length q.queue ≤ q.capacity
  pub in_bytes : q.queued_bytes ≤ q.byte_capacity

pub total_bytes-append :
    (xs ys : List Event) → total_bytes (xs ++ ys) ≡ total_bytes xs + total_bytes ys
unfolding total_bytes
total_bytes-append [] ys = omega arith
total_bytes-append (x ∷ xs) ys = omega (arith, total_bytes-append xs ys)

total_bytes_single : (e : Event) → total_bytes (e ∷ []) ≡ length e.payload
unfolding total_bytes
total_bytes_single e = omega arith

pub new_with_limits-IsValid :
    (capacity byte_capacity : ℕ) {q : EventQueue}
    → new_with_limits capacity byte_capacity ≡ ok q
    → IsValid q
unfolding new_with_limits total_bytes
new_with_limits-IsValid capacity byte_capacity e = ground arith

-- What `is_blocked` answers.
pub not_blocked :
    (q : EventQueue) (bytes : ℕ)
    → is_blocked q bytes ≡ false
    → (length q.queue ≡ q.capacity → ⊥) × (q.queued_bytes + bytes ≤ q.byte_capacity)
unfolding is_blocked
not_blocked q bytes e = ground arith

pub push_back-IsValid :
    (now : ℕ) (q : EventQueue) (event : Event)
    → IsValid q
    → is_blocked q (length event.payload) ≡ false
    → IsValid (push_back now q event)
unfolding push_back
push_back-IsValid now q event v e =
    let (open_count, open_bytes) = not_blocked q (length event.payload) e in
    let event' : Event = record event { queued_at = now } in
    record {
      counted =
          omega
            (arith, total_bytes-append q.queue (event' ∷ []), total_bytes_single event', v.counted);
      in_count = omega (arith, length-append q.queue (event' ∷ []), v.in_count);
      in_bytes = omega arith;
    }

pub try_push-IsValid :
    (now : ℕ) (q : EventQueue) (event : Event) → IsValid q → IsValid (try_push now q event).1
unfolding try_push
try_push-IsValid now q event v = elim (Bool-cases (is_blocked q (length event.payload))) [
  | inl full ↦ rw full v
  | inr free ↦ rw free (push_back-IsValid now q event v free)
]

-- What the queue without its first notification is.
pub take_notification-parts :
    (queue : List Event) {removed : Event} {left : List Event}
    → take_notification queue ≡ some (removed, left)
    → (total_bytes queue ≡ length removed.payload + total_bytes left)
      × (length queue ≡ suc (length left))
      × (is_notification removed.event_type ≡ true)
unfolding take_notification total_bytes
take_notification-parts [] e = cc
take_notification-parts (event ∷ queue) {removed} {left} e =
    elim (Option-cases (take_notification queue)) [
      | inl missing ↦ ground arith
      | inr ((found, rest), here) ↦ ground (arith, take_notification-parts queue here)
    ]

pub evict-IsValid :
    (q : EventQueue) {removed : Event} {left : List Event}
    → IsValid q
    → take_notification q.queue ≡ some (removed, left)
    → IsValid (record q { queued_bytes = q.queued_bytes - length removed.payload; queue = left })
evict-IsValid q v e =
    let (bytes, count, kind) = take_notification-parts q.queue e in
    record {
      counted = omega (arith, v.counted);
      in_count = omega (arith, v.in_count);
      in_bytes = omega (arith, v.in_bytes);
    }

pub poll_with_byte_limit-IsValid :
    (capacity limit : ℕ) (q : EventQueue)
    → IsValid q
    → IsValid (poll_with_byte_limit capacity limit q).1
unfolding poll_with_byte_limit
poll_with_byte_limit-IsValid capacity limit q v =
    let count = prefix_len capacity limit q.queue in
    let parts : total_bytes q.queue
        ≡ total_bytes (take count q.queue) + total_bytes (drop count q.queue) =
      ap total_bytes (sym (take-append-drop count q.queue))
      ∙ total_bytes-append (take count q.queue) (drop count q.queue) in
    record {
      counted = omega (arith, v.counted);
      in_count = omega (arith, length-drop count q.queue, v.in_count);
      in_bytes = omega (arith, v.in_bytes);
    }
