-- ===== src/Core/EventQueue/Run.antt =====
-- Whole runs of the queue of crates/rnet-core/src/event_queue.rs, the waits of `push_timeout` included.
use mathlib.Core.Path.{subst}
use rnetlib.Prelude.{
  ℕ, ◌≤◌, ◌≡◌, refl, sym, ap, ◌∙◌, arith, Bool, false, Option, some, none, List, [], ◌∷◌, All,
  Result, ok, err, length, Bool-cases, inl, inr,
}
use rnetlib.Core.EventQueue.{
  Event, EventQueue, is_blocked, push_back, new_with_limits, try_push, push_priority,
  poll_with_byte_limit, Sleep, push_until, push_timeout, total_bytes,
}
use rnetlib.Core.EventQueue.Invariant.{
  IsValid, new_with_limits-IsValid, push_back-IsValid, poll_with_byte_limit-IsValid,
}
use rnetlib.Core.EventQueue.Priority.{PriorityEnd, push_priority_ends}

-- A queue that keeps its invariant and its limits.
abbrev pub Keeps : EventQueue → EventQueue → Type 0
Keeps q q' = IsValid q' × (q'.capacity ≡ q.capacity) × (q'.byte_capacity ≡ q.byte_capacity)

-- What one call makes of the queue. The sleeps of a `push_timeout` let other threads keep it valid.
pub data Step : EventQueue → EventQueue → Type 0 where
  tried : {q : EventQueue} (now : ℕ) (e : Event) → Step q (try_push now q e).1
  prioritized :
      {q q' : EventQueue} (now : ℕ) (e : Event) (r : Result Bool)
      → push_priority now q e ≡ some (r, q')
      → Step q q'
  polled : {q : EventQueue} (capacity limit : ℕ) → Step q (poll_with_byte_limit capacity limit q).1
  waited :
      {q q' : EventQueue} (deadline : Option ℕ) (last : ℕ) (sleeps : List Sleep) (e : Event)
      (r : Result (Unit {0}))
      → All (λ s. (p : EventQueue) → IsValid p → Keeps p (s.others p)) sleeps
      → push_timeout deadline last sleeps q e ≡ some (r, q')
      → Step q q'

pub data Run : EventQueue → EventQueue → Type 0 where
  started : {q : EventQueue} → Run q q
  stepped : {q q' q'' : EventQueue} → Run q q' → Step q' q'' → Run q q''

Keeps-trans : (q q' q'' : EventQueue) → Keeps q q' → Keeps q' q'' → Keeps q q''
Keeps-trans q q' q'' (v, a, b) (v', a', b') = (v', a' ∙ a, b' ∙ b)

push_back-Keeps :
    (now : ℕ) (q : EventQueue) (e : Event)
    → IsValid q
    → is_blocked q (length e.payload) ≡ false
    → Keeps q (push_back now q e)
unfolding push_back
push_back-Keeps now q e v free = (push_back-IsValid now q e v free, refl, refl)

try_push-Keeps : (now : ℕ) (q : EventQueue) (e : Event) → IsValid q → Keeps q (try_push now q e).1
unfolding try_push
try_push-Keeps now q e v = elim (Bool-cases (is_blocked q (length e.payload))) [
  | inl full ↦ rw full (v, refl, refl)
  | inr free ↦ rw free (push_back-Keeps now q e v free)
]

PriorityEnd-Keeps :
    (now : ℕ) (q : EventQueue) (e : Event) (payload : List ℕ) (end : Result Bool × EventQueue)
    → PriorityEnd now q e payload end
    → Keeps q end.1
PriorityEnd-Keeps now q e payload (ok evicted, q') (gone, fits, earlier, answer, shape, a, b, v) =
    (v, a, b)
PriorityEnd-Keeps now q e payload (err code, q') (refused, never, which, a, b, v) = (v, a, b)

-- The queue of an answer.
abbrev from_some : EventQueue → Option (Result Bool × EventQueue) → EventQueue
from_some q none = q
from_some q (some (r, q')) = q'

push_priority-Keeps :
    (now : ℕ) (q : EventQueue) (e : Event) {r : Result Bool} {q' : EventQueue}
    → IsValid q
    → push_priority now q e ≡ some (r, q')
    → Keeps q q'
push_priority-Keeps now q e v made =
    let (payload, carried, end, here, ends) = push_priority_ends now q e v in
    subst (Keeps q) (ap (λ o. from_some q o) (sym here ∙ made))
      (PriorityEnd-Keeps now q e payload end ends)

poll-Keeps :
    (capacity limit : ℕ) (q : EventQueue)
    → IsValid q
    → Keeps q (poll_with_byte_limit capacity limit q).1
unfolding poll_with_byte_limit
poll-Keeps capacity limit q v = (poll_with_byte_limit-IsValid capacity limit q v, refl, refl)

push_until-Keeps :
    (deadline last : ℕ) (sleeps : List Sleep) (q : EventQueue) (e : Event) {r : Result (Unit {0})}
    {q' : EventQueue}
    → All (λ s. (p : EventQueue) → IsValid p → Keeps p (s.others p)) sleeps
    → IsValid q
    → push_until deadline last sleeps q e ≡ some (r, q')
    → Keeps q q'
unfolding push_until
push_until-Keeps deadline last [] q e fair v end =
    elim (Bool-cases (is_blocked q (length e.payload))) [
      | inl full ↦ ground (arith, full)
      | inr free ↦ ground (arith, free, push_back-Keeps last q e v free)
    ]
push_until-Keeps deadline last (s ∷ sleeps) q e {r} {q'} (f, fair) v end =
    let (v', a, b) = f q v in
    let later : push_until deadline last sleeps (s.others q) e ≡ some (r, q') → Keeps q q' =
      λ after.
        Keeps-trans q (s.others q) q' (v', a, b)
          (push_until-Keeps deadline last sleeps (s.others q) e fair v' after) in
    elim (Bool-cases (is_blocked q (length e.payload))) [
      | inr free ↦ ground (arith, free, push_back-Keeps s.now q e v free)
      | inl full ↦ ground (arith, full, later)
    ]

push_timeout-Keeps :
    (deadline : Option ℕ) (last : ℕ) (sleeps : List Sleep) (q : EventQueue) (e : Event)
    {r : Result (Unit {0})} {q' : EventQueue}
    → All (λ s. (p : EventQueue) → IsValid p → Keeps p (s.others p)) sleeps
    → IsValid q
    → push_timeout deadline last sleeps q e ≡ some (r, q')
    → Keeps q q'
unfolding push_timeout
push_timeout-Keeps none last sleeps q e {r} {q'} fair v end =
    let same : q ≡ q' = cc in subst (Keeps q) same (v, refl, refl)
push_timeout-Keeps (some deadline) last sleeps q e fair v end =
    push_until-Keeps deadline last sleeps q e fair v end

Step-Keeps : {q q' : EventQueue} → IsValid q → Step q q' → Keeps q q'
Step-Keeps {q} v (tried now e) = try_push-Keeps now q e v
Step-Keeps {q} v (prioritized now e r made) = push_priority-Keeps now q e v made
Step-Keeps {q} v (polled capacity limit) = poll-Keeps capacity limit q v
Step-Keeps {q} v (waited deadline last sleeps e r fair end) =
    push_timeout-Keeps deadline last sleeps q e fair v end

Run-Keeps : {q q' : EventQueue} → IsValid q → Run q q' → Keeps q q'
Run-Keeps {q} {q'} v started = (v, refl, refl)
Run-Keeps {q} {q'} v (stepped {q' = p} run step) =
    let k = Run-Keeps v run in Keeps-trans q p q' k (Step-Keeps k.0 step)

limits :
    (capacity byte_capacity : ℕ) {q : EventQueue}
    → new_with_limits capacity byte_capacity ≡ ok q
    → (q.capacity ≡ capacity) × (q.byte_capacity ≡ byte_capacity)
unfolding new_with_limits
limits capacity byte_capacity made = ground arith

-- Whatever calls are made on a fresh queue, by any threads that only call its operations, the byte
-- counter is the sum of the payloads in the queue, and both limits it was made with hold.
pub new_with_limits-Run :
    (capacity byte_capacity : ℕ) (q q' : EventQueue)
    → new_with_limits capacity byte_capacity ≡ ok q
    → Run q q'
    → (q'.queued_bytes ≡ total_bytes q'.queue)
      × (length q'.queue ≤ capacity)
      × (q'.queued_bytes ≤ byte_capacity)
new_with_limits-Run capacity byte_capacity q q' made run =
    let (v, a, b) = Run-Keeps (new_with_limits-IsValid capacity byte_capacity made) run in
    let (a', b') = limits capacity byte_capacity made in
    (v.counted, omega (arith, v.in_count), omega (arith, v.in_bytes))
