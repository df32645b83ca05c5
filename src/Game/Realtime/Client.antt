-- ===== src/Game/Realtime/Client.antt =====
-- The snapshot queue of crates/rnet-game/src/realtime.rs over any calls, against a list of messages.
use mathlib.Core.Path.{subst}
use rnetlib.Prelude.{
  Bool, true, false, ℕ, ◌/◌, ◌^◌, ◌<◌, ◌≡◌, refl, sym, ap, ◌∙◌, not, Option, none, some, List, [],
  ◌∷◌, ◌==◌, if◌then◌else◌, Option-cases, inl, inr, keep, Result, ok, err, is_none, min, max,
}
use rnetlib.Game.Realtime.{
  PendingRealtime, LatestQueue, QueueEffect, RealtimeQueueConfig, find, enqueue, requeue,
  count_dropped, pop_next, clear, from_config,
}
use rnetlib.Game.Realtime.Accounts.{Consistent}
use rnetlib.Game.Realtime.Removal.{limits_of, forget_session-Consistent}
use rnetlib.Game.Realtime.Latest.{
  Serves, first, rest, pop_next-Serves, All-Held_keep, map-key_of-keep,
}
use rnetlib.Game.Realtime.Staging.{waits, answer, admit, not-waits, held-waits, enqueue-answer}
use rnetlib.Game.Realtime.Run.{
  Call, enqueue_call, pop_call, requeue_call, forget_call, clear_call, forwarded_call,
  send_failed_call, step, run, step-Consistent, from_config-Consistent, from_config_lem,
}

-- The messages that wait after a call, by the configuration alone. A message that comes back gives way to a
-- newer one.
abbrev pub expected : RealtimeQueueConfig → Call → List PendingRealtime → List PendingRealtime
expected config (enqueue_call m) xs = admit config m xs
expected config pop_call xs = rest xs
expected config (requeue_call m) xs = if waits m.session m.key xs then xs else admit config m xs
expected config (forget_call session) xs = keep (λ x. not (x.session == session)) xs
expected config clear_call xs = []
expected config forwarded_call xs = xs
expected config send_failed_call xs = xs

-- The messages that wait after calls in order.
abbrev pub waiting : RealtimeQueueConfig → List Call → List PendingRealtime → List PendingRealtime
waiting config [] xs = xs
waiting config (call ∷ calls) xs = waiting config calls (expected config call xs)

-- The limits that a configuration makes.
abbrev budget : RealtimeQueueConfig → ℕ × ℕ × ℕ × ℕ
budget config = (
  config.max_queued_bytes,
  config.max_session_queued_bytes,
  config.max_keys_per_session,
  min (max (config.max_queued_bytes / 16) 1) 65_536,
)

-- The queue holds the messages of the list, within the limits of the configuration.
record Holds (config : RealtimeQueueConfig) (xs : List PendingRealtime) (q : LatestQueue)
    : Type 0 where
  pub consistent : Consistent q
  pub serves : Serves xs q
  pub limits : limits_of q ≡ budget config

branch_false {ℓ} : {A : Type ℓ} (x y : A) (b : Bool) → b ≡ false → (if b then x else y) ≡ y
branch_false x y b absent = rw absent refl

branch_true {ℓ} : {A : Type ℓ} (x y : A) (b : Bool) → b ≡ true → (if b then x else y) ≡ x
branch_true x y b present = rw present refl

expected_requeue :
    (config : RealtimeQueueConfig) (m : PendingRealtime) (xs : List PendingRealtime)
    → waits m.session m.key xs ≡ false
    → expected config (requeue_call m) xs ≡ admit config m xs
expected_requeue config m xs absent = branch_false _ _ (waits m.session m.key xs) absent

requeue_free :
    (m : PendingRealtime) (q : LatestQueue)
    → find m.session m.key q.pending ≡ none
    → requeue m q ≡ count_dropped (enqueue m q)
unfolding requeue
requeue_free m q absent = branch_true _ _ _ (ap is_none absent)

count_dropped-Serves :
    (r : Result QueueEffect × LatestQueue) (xs : List PendingRealtime)
    → Serves xs r.1
    → Serves xs (count_dropped r) × (limits_of (count_dropped r) ≡ limits_of r.1)
count_dropped-Serves (ok effect, q) xs serves = (serves, refl)
count_dropped-Serves (err code, q) xs serves =
    (record { keys = serves.keys; held = serves.held }, refl)

forget_session-Serves :
    (config : RealtimeQueueConfig) (session : ℕ) (q : LatestQueue) (xs : List PendingRealtime)
    → Holds config xs q
    → (q' : LatestQueue) × (step (forget_call session) q ≡ some q')
      × Serves (expected config (forget_call session) xs) q'
      × (limits_of q' ≡ limits_of q)
unfolding step
forget_session-Serves config session q xs h =
    let (q', runs, c', gone, order, others, same) =
      forget_session-Consistent session q h.consistent in
    (
      q',
      rw runs refl,
      record {
        keys =
            map-key_of-keep session xs
            ∙ ap (keep (λ entry. not (entry.0 == session))) h.serves.keys
            ∙ sym order;
        held = All-Held_keep session q.pending q'.pending xs others h.serves.held;
      },
      same,
    )

module _ (config : RealtimeQueueConfig) (word : config.max_queued_bytes < 2 ^ 64)
    (word' : config.max_session_queued_bytes < 2 ^ 64) where
  Holds-answer :
      (m : PendingRealtime) (q : LatestQueue) (xs : List PendingRealtime)
      → Holds config xs q
      → ((enqueue m q).0 ≡ answer config m xs)
        × Serves (admit config m xs) (enqueue m q).1
        × (limits_of (enqueue m q).1 ≡ limits_of q)
  Holds-answer m q xs h =
      enqueue-answer m q xs h.consistent h.serves config word word' (ap (λ l. l.0) h.limits)
        (ap (λ l. l.1) h.limits) (ap (λ l. l.2) h.limits) (ap (λ l. l.3) h.limits)

  requeue-Serves :
      (m : PendingRealtime) (q : LatestQueue) (xs : List PendingRealtime)
      → Holds config xs q
      → Serves (expected config (requeue_call m) xs) (requeue m q)
        × (limits_of (requeue m q) ≡ limits_of q)
  unfolding requeue
  requeue-Serves m q xs h = elim (Option-cases (find m.session m.key q.pending)) [
    | inl absent ↦
        let (answers, serves, same) = Holds-answer m q xs h in
        let (serves', same') = count_dropped-Serves (enqueue m q) (admit config m xs) serves in
        subst (λ q'. Serves (expected config (requeue_call m) xs) q' × (limits_of q' ≡ limits_of q))
          (sym (requeue_free m q absent))
          (
            subst (λ ys. Serves ys (count_dropped (enqueue m q)))
                (sym (expected_requeue config m xs (not-waits m q xs h.consistent h.serves absent)))
                serves',
            same' ∙ same,
          )
    | inr (old, held) ↦
        rw (held, held-waits m q xs h.consistent h.serves held)
          (record { keys = h.serves.keys; held = h.serves.held }, refl)
  ]

  step-Serves :
      (call : Call) (q : LatestQueue) (xs : List PendingRealtime)
      → Holds config xs q
      → (q' : LatestQueue) × (step call q ≡ some q')
        × Serves (expected config call xs) q'
        × (limits_of q' ≡ limits_of q)
  unfolding step clear
  step-Serves (enqueue_call m) q xs h =
      let (answers, serves, same) = Holds-answer m q xs h in (_, refl, serves, same)
  step-Serves pop_call q xs h =
      let (q', runs, serves, same) = pop_next-Serves q xs h.consistent h.serves in
      (q', rw runs refl, serves, same)
  step-Serves (requeue_call m) q xs h =
      let (serves, same) = requeue-Serves m q xs h in (_, refl, serves, same)
  step-Serves (forget_call session) q xs h = forget_session-Serves config session q xs h
  step-Serves clear_call q xs h = (_, refl, record { keys = refl; held = tt }, refl)
  step-Serves forwarded_call q xs h =
      (_, refl, record { keys = h.serves.keys; held = h.serves.held }, refl)
  step-Serves send_failed_call q xs h =
      (_, refl, record { keys = h.serves.keys; held = h.serves.held }, refl)

  -- What holds of the result of a step.
  result-of :
      {P : LatestQueue → Type 0} {r : Option LatestQueue} {q' : LatestQueue}
      → (q : LatestQueue) × (r ≡ some q) × P q
      → r ≡ some q'
      → P q'
  result-of {P} {r} {q'} (q, runs, p) e = let same : q ≡ q' = cc in subst P same p

  step-Holds :
      (call : Call) (q : LatestQueue) (xs : List PendingRealtime)
      → Holds config xs q
      → (q' : LatestQueue) × (step call q ≡ some q') × Holds config (expected config call xs) q'
  step-Holds call q xs h =
      let (q', steps, serves, same) = step-Serves call q xs h in
      (
        q',
        steps,
        record {
          consistent = result-of {P = Consistent} (step-Consistent call q h.consistent) steps;
          serves = serves;
          limits = same ∙ h.limits;
        },
      )

  run-Holds :
      (calls : List Call) (q : LatestQueue) (xs : List PendingRealtime)
      → Holds config xs q
      → (q' : LatestQueue) × (run calls q ≡ some q') × Holds config (waiting config calls xs) q'
  unfolding run
  run-Holds [] q xs h = (q, refl, h)
  run-Holds (call ∷ calls) q xs h =
      let (q1, steps, h1) = step-Holds call q xs h in
      let (q', runs, h') = run-Holds calls q1 (expected config call xs) h1 in
      (q', rw steps runs, h')

from_config-Holds :
    (config : RealtimeQueueConfig) {q : LatestQueue} → from_config config ≡ ok q → Holds config [] q
from_config-Holds config made = subst (Holds config []) (from_config_lem config made) (record {
  consistent =
      subst Consistent (sym (from_config_lem config made)) (from_config-Consistent config made);
  serves = record { keys = refl; held = tt };
  limits = refl;
})

-- Whatever calls a queue takes after its configuration made it, its pending messages in their order are the list
-- that the calls make of the empty list by the configuration alone. There a message takes the place of the one
-- with its session and key or else the last place, if the list with it is within the limits on all bytes, on the
-- bytes and the keys of its session and on all keys, and is refused otherwise; and a message that comes back
-- gives way to one that waits. A pop then returns the first message of the list, or nothing if it is empty, and
-- an enqueue is answered by that list.
pub run-Serves :
    (config : RealtimeQueueConfig) (calls : List Call) {q₀ : LatestQueue}
    → config.max_queued_bytes < 2 ^ 64
    → config.max_session_queued_bytes < 2 ^ 64
    → from_config config ≡ ok q₀
    → (q : LatestQueue) × (run calls q₀ ≡ some q)
      × Serves (waiting config calls []) q
      × ((q' : LatestQueue) × (pop_next q ≡ some (first (waiting config calls []), q')))
      × ((m : PendingRealtime) → (enqueue m q).0 ≡ answer config m (waiting config calls []))
run-Serves config calls {q₀} word word' made =
    let (q, runs, h) = run-Holds config word word' calls q₀ [] (from_config-Holds config made) in
    let (q', pops, left, same) = pop_next-Serves q _ h.consistent h.serves in
    (q, runs, h.serves, (q', pops), λ m. (Holds-answer config word word' m q _ h).0)
