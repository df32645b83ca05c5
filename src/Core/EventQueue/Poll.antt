-- ===== src/Core/EventQueue/Poll.antt =====
-- `poll_with_byte_limit` of crates/rnet-core/src/event_queue.rs: what a poll takes.
use rnetlib.Prelude.{
  ℕ, zero, suc, ◌-◌, ◌≤◌, ◌<◌, ◌≡◌, refl, ap, arith, ◌⊎◌, inl, inr, List, [], ◌∷◌, ◌++◌, length,
  take, drop, take-append-drop, length-take, Bool-cases, ltb, ltb→lt,
}
use rnetlib.Core.EventQueue.{Event, EventQueue, prefix_len, total_bytes, poll_with_byte_limit}

-- Why a prefix of the queue stops where it does: nothing is left, the count is reached, or the next
-- event is too large for the bytes that are left.
abbrev pub Stops : ℕ → ℕ → ℕ → List Event → Type 0
Stops count capacity room [] = Unit
Stops count capacity room (next ∷ rest) = (count ≡ capacity) ⊎ (room < length next.payload)

Stops-suc :
    (count capacity room room' : ℕ) (left : List Event)
    → room ≡ room'
    → Stops count capacity room left
    → Stops (suc count) (suc capacity) room' left
Stops-suc count capacity room room' [] e s = tt
Stops-suc count capacity room room' (next ∷ rest) e (inl full) = inl (ap suc full)
Stops-suc count capacity room room' (next ∷ rest) e (inr large) = inr (omega arith)

prefix_len_lem :
    (capacity limit : ℕ) (queue : List Event)
    → let count = prefix_len capacity limit queue in
      (count ≤ capacity)
      × (count ≤ length queue)
      × (total_bytes (take count queue) ≤ limit)
      × Stops count capacity (limit - total_bytes (take count queue)) (drop count queue)
unfolding prefix_len total_bytes
prefix_len_lem zero limit [] = (omega arith, omega arith, omega arith, tt)
prefix_len_lem zero limit (e ∷ queue) = (omega arith, omega arith, omega arith, inl refl)
prefix_len_lem (suc capacity) limit [] = (omega arith, omega arith, omega arith, tt)
prefix_len_lem (suc capacity) limit (e ∷ queue) = elim (Bool-cases (ltb limit (length e.payload))) [
  | inl large ↦ rw large (
    omega arith,
    omega arith,
    omega arith,
    inr (omega (arith, ltb→lt limit (length e.payload) large)),
  )
  | inr small ↦
      let (c, n, b, s) = prefix_len_lem capacity (limit - length e.payload) queue in
      rw small (omega arith, omega arith, ground arith, Stops-suc _ _ _ _ _ (omega arith) s)
]

-- A poll takes a prefix of the queue and leaves the rest in order. The prefix has at most `capacity`
-- events and at most `limit` payload bytes, and it is the longest such: where an event stays, either
-- `capacity` events were taken or the next event has more bytes than the limit has left.
pub poll_with_byte_limit_lem :
    (capacity limit : ℕ) (q : EventQueue)
    → let (events, q') = poll_with_byte_limit capacity limit q in
      (events ++ q'.queue ≡ q.queue)
      × (length events ≤ capacity)
      × (total_bytes events ≤ limit)
      × Stops (length events) capacity (limit - total_bytes events) q'.queue
unfolding poll_with_byte_limit
poll_with_byte_limit_lem capacity limit q =
    let (c, n, b, s) = prefix_len_lem capacity limit q.queue in
    let count : length (take (prefix_len capacity limit q.queue) q.queue)
        ≡ prefix_len capacity limit q.queue =
      omega (arith, length-take (prefix_len capacity limit q.queue) q.queue) in
    (take-append-drop _ q.queue, omega arith, b, rw count s)
