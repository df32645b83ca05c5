-- ===== src/Core/EventQueue/Priority.antt =====
-- `push_priority` of crates/rnet-core/src/event_queue.rs: which events it displaces, and when it gives up.
use mathlib.Core.Option
use rnetlib.Prelude.{
  ℕ, suc, ◌+◌, ◌≤◌, ◌<◌, ◌^◌, ◌≡◌, refl, ap, arith, Bool, true, false, not, ◌==◌, Option, none,
  some, List, [], ◌∷◌, ◌++◌, Result, ok, err, would_block, ◌⊎◌, length, Bool-cases, inl, inr, ltb,
  ltb→lt, if◌then◌else◌,
}
use rnetlib.Core.EventQueue.{
  Event, EventQueue, is_diagnostic, over_limit, push_back, strip, push_priority, finish_priority,
  total_bytes,
}
use rnetlib.Core.EventQueue.Invariant.{IsValid, push_back-IsValid}
use rnetlib.Core.EventQueue.Room.{lifecycle, drop_first, Fits, RoomMade, make_room-RoomMade}

-- The payload that a priority event is queued with: none if it is a diagnostic that the byte budget cannot take.
abbrev pub Carried : EventQueue → Event → List ℕ → Type 0
Carried q event payload =
    ((payload ≡ event.payload)
      × (is_diagnostic event.event_type ≡ true
          → (total_bytes q.queue + length event.payload ≤ q.byte_capacity)
            × (total_bytes q.queue + length event.payload < 2 ^ 64)))
    ⊎ ((payload ≡ [])
        × (is_diagnostic event.event_type ≡ true)
        × ((q.byte_capacity < total_bytes q.queue + length event.payload)
            ⊎ (2 ^ 64 ≤ total_bytes q.queue + length event.payload)))

strip-Carried :
    (q : EventQueue) (event : Event)
    → IsValid q
    → (payload : List ℕ) × (strip q event ≡ record event { payload = payload })
      × Carried q event payload
unfolding strip
strip-Carried q event v =
    let c = v.counted in
    elim (Bool-cases (is_diagnostic event.event_type)) [
      | inr other ↦ (event.payload, rw other refl, inl (refl, λ d. cc))
      | inl diagnostic ↦
          elim (Bool-cases (over_limit q.queued_bytes (length event.payload) q.byte_capacity)) [
            | inl over ↦ ([], rw (diagnostic, over) refl, inr (refl, diagnostic, ground arith))
            | inr under ↦ (
              event.payload,
              rw (diagnostic, under) refl,
              inl (refl, λ d. (ground arith, ground arith)),
            )
          ]
    ]

-- How a call of `push_priority` with a payload ends.
abbrev pub PriorityEnd : ℕ → EventQueue → Event → List ℕ → Result Bool × EventQueue → Type 0
PriorityEnd now q event payload (ok evicted, q') =
    (gone : ℕ) × Fits q gone (length payload)
    × ((n : ℕ) → n < gone → ¬ Fits q n (length payload))
    × (evicted ≡ not (gone == 0))
    × (q'.queue
        ≡ drop_first gone q.queue ++ record event { payload = payload; queued_at = now } ∷ [])
    × (q'.capacity ≡ q.capacity)
    × (q'.byte_capacity ≡ q.byte_capacity)
    × IsValid q'
PriorityEnd now q event payload (err code, q') =
    (code ≡ would_block)
    × ((n : ℕ) → ¬ Fits q n (length payload))
    × (((q.byte_capacity < length payload) × (q' ≡ q))
        ⊎ ((length payload ≤ q.byte_capacity) × (q'.queue ≡ lifecycle q.queue)))
    × (q'.capacity ≡ q.capacity)
    × (q'.byte_capacity ≡ q.byte_capacity)
    × IsValid q'

finish-PriorityEnd :
    (now : ℕ) (q : EventQueue) (event : Event) (payload : List ℕ)
    (r : Option (Result Bool × EventQueue))
    → length payload ≤ q.byte_capacity
    → RoomMade q (length payload) false r
    → (end : Result Bool × EventQueue) × (Option.map
          (finish_priority now (record event { payload = payload }))
          r
        ≡ some end)
      × PriorityEnd now q event payload end
unfolding push_back
finish-PriorityEnd now q event payload none small h = absurd h
finish-PriorityEnd now q event payload (some (ok evicted, q')) small
      (gone, shape, fits, earlier, answer, free, valid) =
    let event' : Event = record event { payload = payload } in
    (
      (ok evicted, push_back now q' event'),
      refl,
      (
        gone,
        fits,
        earlier,
        answer,
        ap (λ p. p.queue ++ record event' { queued_at = now } ∷ []) shape,
        ap (λ p. p.capacity) shape,
        ap (λ p. p.byte_capacity) shape,
        push_back-IsValid now q' event' valid free,
      ),
    )
finish-PriorityEnd now q event payload (some (err code, q')) small
      (blocked, never, kept, count, limit, valid) =
    ((err code, q'), refl, (blocked, never, inr (small, kept), count, limit, valid))

carried_ends :
    (now : ℕ) (q : EventQueue) (event : Event) (payload : List ℕ)
    → IsValid q
    → strip q event ≡ record event { payload = payload }
    → (end : Result Bool × EventQueue) × (push_priority now q event ≡ some end)
      × PriorityEnd now q event payload end
unfolding push_priority
carried_ends now q event payload v shape =
    let r = make_room-RoomMade (suc (length q.queue)) q (length payload) false v (omega arith) in
    elim (Bool-cases (ltb q.byte_capacity (length payload))) [
      | inl large ↦ (
        (err would_block, q),
        rw (shape, large, if◌then◌else◌) refl,
        (refl, (λ n (a, b, c). ground arith), inl (ltb→lt _ _ large, refl), refl, refl, v),
      )
      | inr small ↦
          let (end, made, ends) = finish-PriorityEnd now q event payload _ (ground arith) r in
          (end, rw (shape, small, if◌then◌else◌) made, ends)
    ]

-- A priority event is always answered. Its payload is dropped exactly if it is a diagnostic that the byte budget
-- cannot take beside the queue. If it fits once some of the notifications are displaced, then as few of the
-- oldest ones go as it takes, the answer says whether any did, and the event stands last. Else the answer is
-- `would_block`: an event larger than the budget changes nothing, and another has displaced all notifications.
-- Lifecycle events always stay, in order.
pub push_priority_ends :
    (now : ℕ) (q : EventQueue) (event : Event)
    → IsValid q
    → (payload : List ℕ) × Carried q event payload
      × (end : Result Bool × EventQueue) × (push_priority now q event ≡ some end)
      × PriorityEnd now q event payload end
push_priority_ends now q event v =
    let (payload, shape, carried) = strip-Carried q event v in
    let (end, made, ends) = carried_ends now q event payload v shape in
    (payload, carried, end, made, ends)
