-- ===== src/Core/EventQueue/Room.antt =====
-- The loop of `push_priority` of crates/rnet-core/src/event_queue.rs: which events it displaces.
use rnetlib.Prelude.{
  ℕ, zero, suc, ◌+◌, ◌-◌, ◌≤◌, ◌<◌, ◌^◌, ◌≡◌, refl, ap, ◌∙◌, arith, Bool, true, false, not, ◌||◌,
  ◌==◌, Option, none, some, List, [], ◌∷◌, Result, ok, err, would_block, length, keep, Bool-cases,
  Option-cases, inl, inr, if◌then◌else◌,
}
use rnetlib.Core.EventQueue.{
  Event, EventQueue, is_notification, is_blocked, take_notification, make_room, total_bytes,
}
use rnetlib.Core.EventQueue.Invariant.{IsValid, not_blocked, take_notification-parts, evict-IsValid}

-- The events that must not be displaced, and those that may.
abbrev pub lifecycle : List Event → List Event
lifecycle = keep (λ e. not (is_notification e.event_type))

-- The events without the first `n` notifications.
abbrev pub drop_first : ℕ → List Event → List Event
drop_first zero queue = queue
drop_first (suc n) [] = []
drop_first (suc n) (event ∷ queue) =
    let displaced = drop_first n queue in
    let passed = drop_first (suc n) queue in
    if is_notification event.event_type then displaced else event ∷ passed

-- `bytes` more fit into both limits once `n` notifications are displaced.
abbrev pub Fits : EventQueue → ℕ → ℕ → Type 0
Fits q n bytes =
    (length (drop_first n q.queue) < q.capacity)
    × (total_bytes (drop_first n q.queue) + bytes ≤ q.byte_capacity)
    × (total_bytes (drop_first n q.queue) + bytes < 2 ^ 64)

abbrev pub displaced : ℕ → EventQueue → EventQueue
displaced n q = record q {
  queued_bytes = total_bytes (drop_first n q.queue);
  queue = drop_first n q.queue;
}

take_notification-some :
    (queue : List Event) {removed : Event} {left : List Event}
    → take_notification queue ≡ some (removed, left)
    → left ≡ drop_first 1 queue
unfolding take_notification
take_notification-some [] e = cc
take_notification-some (event ∷ queue) e = elim (Option-cases (take_notification queue)) [
  | inl missing ↦ ground arith
  | inr ((found, rest), here) ↦ ground (arith, take_notification-some queue here)
]

take_notification-none :
    (queue : List Event) → take_notification queue ≡ none → (n : ℕ) → drop_first n queue ≡ queue
unfolding take_notification
take_notification-none queue e zero = refl
take_notification-none [] e (suc n) = refl
take_notification-none (event ∷ queue) e (suc n) = elim (Option-cases (take_notification queue)) [
  | inl missing ↦ elim (Bool-cases (is_notification event.event_type)) [
    | inl yes' ↦ ground arith
    | inr no' ↦ rw no' (ap (λ rest. event ∷ rest) (take_notification-none queue missing (suc n)))
  ]
  | inr ((found, rest), here) ↦ ground arith
]

lifecycle-all : (queue : List Event) → take_notification queue ≡ none → queue ≡ lifecycle queue
unfolding take_notification
lifecycle-all [] e = refl
lifecycle-all (event ∷ queue) e = elim (Option-cases (take_notification queue)) [
  | inl missing ↦ elim (Bool-cases (is_notification event.event_type)) [
    | inl yes' ↦ ground arith
    | inr no' ↦ rw no' (ap (λ rest. event ∷ rest) (lifecycle-all queue missing))
  ]
  | inr ((found, rest), here) ↦ ground arith
]

lifecycle-drop_first :
    (n : ℕ) (queue : List Event) → lifecycle (drop_first n queue) ≡ lifecycle queue
lifecycle-drop_first zero queue = refl
lifecycle-drop_first (suc n) [] = refl
lifecycle-drop_first (suc n) (event ∷ queue) =
    elim (Bool-cases (is_notification event.event_type)) [
      | inl yes' ↦ rw yes' (lifecycle-drop_first n queue)
      | inr no' ↦ rw no' (rw no' (ap (λ rest. event ∷ rest) (lifecycle-drop_first (suc n) queue)))
    ]

drop_first-one :
    (n : ℕ) (queue : List Event) → drop_first n (drop_first 1 queue) ≡ drop_first (suc n) queue
drop_first-one zero queue = refl
drop_first-one (suc n) [] = refl
drop_first-one (suc n) (event ∷ queue) = elim (Bool-cases (is_notification event.event_type)) [
  | inl yes' ↦ rw yes' refl
  | inr no' ↦ rw no' (rw no' (ap (λ rest. event ∷ rest) (drop_first-one (suc n) queue)))
]

-- The test for room, and what fits.
blocked-Fits :
    (q : EventQueue) (bytes : ℕ) → IsValid q → is_blocked q bytes ≡ true → ¬ Fits q 0 bytes
unfolding is_blocked
blocked-Fits q bytes v h (open_count, open_bytes, open_word) =
    let c = v.counted in let n = v.in_count in ground arith

free-Fits : (q : EventQueue) (bytes : ℕ) → IsValid q → is_blocked q bytes ≡ false → Fits q 0 bytes
unfolding is_blocked
free-Fits q bytes v h =
    let (open_count, open_bytes) = not_blocked q bytes h in
    let c = v.counted in
    let n = v.in_count in (ground arith, omega (arith, open_bytes, c), ground arith)

-- How the loop ends, `before` telling whether it had displaced an event already.
abbrev pub RoomMade : EventQueue → ℕ → Bool → Option (Result Bool × EventQueue) → Type 0
RoomMade q bytes before none = ⊥
RoomMade q bytes before (some (ok evicted, q')) =
    (gone : ℕ) × (q' ≡ displaced gone q)
    × Fits q gone bytes
    × ((n : ℕ) → n < gone → ¬ Fits q n bytes)
    × (evicted ≡ (before || not (gone == 0)))
    × (is_blocked q' bytes ≡ false)
    × IsValid q'
RoomMade q bytes before (some (err code, q')) =
    (code ≡ would_block)
    × ((n : ℕ) → ¬ Fits q n bytes)
    × (q'.queue ≡ lifecycle q.queue)
    × (q'.capacity ≡ q.capacity)
    × (q'.byte_capacity ≡ q.byte_capacity)
    × IsValid q'

abbrev without : EventQueue → Event → List Event → EventQueue
without q removed left = record q {
  queued_bytes = q.queued_bytes - length removed.payload;
  queue = left;
}

displaced-zero : (q : EventQueue) → IsValid q → q ≡ displaced 0 q
displaced-zero q v = ap (λ b. record q { queued_bytes = b }) v.counted

-- One displaced event more.
module _ (q q₁ : EventQueue) (bytes : ℕ) (one : q₁.queue ≡ drop_first 1 q.queue)
    (count : q₁.capacity ≡ q.capacity) (limit : q₁.byte_capacity ≡ q.byte_capacity) where
  after_one : (n : ℕ) → drop_first n q₁.queue ≡ drop_first (suc n) q.queue
  after_one n = ap (drop_first n) one ∙ drop_first-one n q.queue

  Fits-more : (n : ℕ) → Fits q₁ n bytes → Fits q (suc n) bytes
  Fits-more n (a, b, c) =
      let e = after_one n in
      let size = ap (λ (xs : List Event). length xs) e in
      let sum = ap total_bytes e in
      (omega (arith, a, size, count), omega (arith, b, sum, limit), omega (arith, c, sum))

  Fits-less : (n : ℕ) → Fits q (suc n) bytes → Fits q₁ n bytes
  Fits-less n (a, b, c) =
      let e = after_one n in
      let size = ap (λ (xs : List Event). length xs) e in
      let sum = ap total_bytes e in
      (omega (arith, a, size, count), omega (arith, b, sum, limit), omega (arith, c, sum))

  never-more : ¬ Fits q 0 bytes → ((n : ℕ) → ¬ Fits q₁ n bytes) → (n : ℕ) → ¬ Fits q n bytes
  never-more full never zero = full
  never-more full never (suc n) = λ fits. never n (Fits-less n fits)

  earlier-more :
      (gone : ℕ)
      → ¬ Fits q 0 bytes
      → ((n : ℕ) → n < gone → ¬ Fits q₁ n bytes)
      → (n : ℕ) → n < suc gone
      → ¬ Fits q n bytes
  earlier-more gone full earlier zero h = full
  earlier-more gone full earlier (suc n) h = λ fits. earlier n (omega arith) (Fits-less n fits)

after_eviction :
    (q : EventQueue) (removed : Event) (left : List Event) (bytes : ℕ) (before : Bool)
    (r : Option (Result Bool × EventQueue))
    → take_notification q.queue ≡ some (removed, left)
    → ¬ Fits q 0 bytes
    → RoomMade (without q removed left) bytes true r
    → RoomMade q bytes before r
after_eviction q removed left bytes before none found full h = h
after_eviction q removed left bytes before (some (ok evicted, q')) found full
      (gone, shape, fits, earlier, answer, free, valid) =
    let q₁ = without q removed left in
    let one = take_notification-some q.queue found in
    let e = after_one q q₁ bytes one refl refl gone in
    (
      suc gone,
      shape ∙ ap (λ xs. record q { queued_bytes = total_bytes xs; queue = xs }) e,
      Fits-more q q₁ bytes one refl refl gone fits,
      earlier-more q q₁ bytes one refl refl gone full earlier,
      ground (arith, answer),
      free,
      valid,
    )
after_eviction q removed left bytes before (some (err code, q')) found full
      (blocked, never, kept, count, limit, valid) =
    let q₁ = without q removed left in
    let one = take_notification-some q.queue found in
    (
      blocked,
      never-more q q₁ bytes one refl refl full never,
      kept ∙ ap lifecycle one ∙ lifecycle-drop_first 1 q.queue,
      count,
      limit,
      valid,
    )

-- One more round than there are events is enough, and the loop ends as `RoomMade` says.
pub make_room-RoomMade :
    (fuel : ℕ) (q : EventQueue) (bytes : ℕ) (before : Bool)
    → IsValid q
    → length q.queue < fuel
    → RoomMade q bytes before (make_room fuel q bytes before)
unfolding make_room
make_room-RoomMade zero q bytes before v h = absurd (omega arith)
make_room-RoomMade (suc fuel) q bytes before v h = elim (Bool-cases (is_blocked q bytes)) [
  | inr free ↦
      rw (free, make_room)
        (
          0,
          displaced-zero q v,
          free-Fits q bytes v free,
          (λ n none_before. absurd (omega arith)),
          ground arith,
          free,
          v,
        )
  | inl blocked ↦
      let full = blocked-Fits q bytes v blocked in
      elim (Option-cases (take_notification q.queue)) [
        | inl missing ↦
            rw (blocked, make_room)
              (rw missing
                (refl, never_fits missing full, lifecycle-all q.queue missing, refl, refl, v))
        | inr ((removed, left), found) ↦
            let (bytes_left, count, kind) = take_notification-parts q.queue found in
            rw (blocked, make_room)
              (rw found (
                after_eviction q removed left bytes before _ found full (
                  make_room-RoomMade fuel (without q removed left) bytes true
                    (evict-IsValid q v found) (omega arith))))
      ]
]
  where
    never_fits : take_notification q.queue ≡ none → ¬ Fits q 0 bytes → (n : ℕ) → ¬ Fits q n bytes
    never_fits missing full n (a, b, c) =
        let e = take_notification-none q.queue missing n in
        let size = ap (λ (xs : List Event). length xs) e in
        let sum = ap total_bytes e in
        full (omega (arith, a, size), omega (arith, b, sum), omega (arith, c, sum))
