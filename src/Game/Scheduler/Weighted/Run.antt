-- ===== src/Game/Scheduler/Weighted/Run.antt =====
-- The scheduler of crates/rnet-game/src/scheduler.rs as crates/rnet-game/src/scheduler_runtime.rs and its
-- cleanup call it: admissions come at any time, and a session is forgotten or the runtime stopped only
-- when no message is out to be forwarded, since these and the forwarding share the poll lock.
use mathlib.Core.Path.{subst}
use rnetlib.Prelude.{
  invalid_argument, ℕ, suc, ◌+◌, ◌≤◌, ◌≡◌, refl, sym, ap, ◌∙◌, arith, false, Option, none, some,
  List, [], ◌∷◌, All, map, inl, inr, ◌⊎◌, Bool-cases, ok, err, would_block, u64_max, min, length,
}
use rnetlib.Game.Scheduler.{ScheduledMessage, FairPriorityQueue, reserved_bytes, empty_queue}
use rnetlib.Game.Scheduler as Scheduler
use rnetlib.Game.Scheduler.Fair.{IsValid, empty_queue-IsValid}
use rnetlib.Game.Scheduler.Weight.{sum_of, sum_at, weight}
use rnetlib.Game.Scheduler.Removal.{owned}
use rnetlib.Game.Scheduler.Weighted.{
  ScheduledQueue, ScheduledQueueConfig, configured, from_config, bad_config, fits, enqueue, requeue,
  forget_session, record_forwarded, record_send_failed, clear, pop_next, push_class,
}
use rnetlib.Game.Scheduler.Weighted.Totals.{total}
use rnetlib.Game.Scheduler.Weighted.Accounts.{
  Accounts, Fits, one, fits_sound, fits_complete, enqueue-Accounts,
}
use rnetlib.Game.Scheduler.Weighted.Settlement.{
  requeue-Accounts, forget_session-Accounts, release-Accounts,
}
use rnetlib.Game.Scheduler.Weighted.Service.{
  Popped, forwards, empties, exhausted, returned, pop_next-Popped,
}

-- The scheduler with the messages that are out to be forwarded.
abbrev pub Held : Type 0
Held = List ScheduledMessage

pub data Step : Held → ScheduledQueue → Held → ScheduledQueue → Type 0 where
  admission :
      {held : List ScheduledMessage} {q : ScheduledQueue} (m : ScheduledMessage)
      → Step held q held (enqueue m q).1
  take :
      {q q' : ScheduledQueue} (fuel now : ℕ) (m : ScheduledMessage)
      → pop_next fuel now q ≡ some (some m, q')
      → Step [] q (m ∷ []) q'
  nothing_left :
      {q q' : ScheduledQueue} (fuel now : ℕ)
      → pop_next fuel now q ≡ some (none, q')
      → Step [] q [] q'
  forwarded :
      {q : ScheduledQueue} (elapsed : ℕ) (m : ScheduledMessage)
      → Step (m ∷ []) q [] (record_forwarded elapsed m q)
  failed : {q : ScheduledQueue} (m : ScheduledMessage) → Step (m ∷ []) q [] (record_send_failed m q)
  blocked : {q : ScheduledQueue} (m : ScheduledMessage) → Step (m ∷ []) q [] (requeue m q)
  forgotten : {q : ScheduledQueue} (session : ℕ) → Step [] q [] (forget_session session q).1
  stopped : {q : ScheduledQueue} → Step [] q [] (clear q)

pub data Run (q₀ : ScheduledQueue) : List ScheduledMessage → ScheduledQueue → Type 0 where
  start : Run q₀ [] q₀
  next :
      {held held' : List ScheduledMessage} {q q' : ScheduledQueue}
      → Run q₀ held q
      → Step held q held' q'
      → Run q₀ held' q'

record_forwarded-Accounts :
    (elapsed : ℕ) (m : ScheduledMessage) (held : List ScheduledMessage) (q : ScheduledQueue)
    → Accounts (m ∷ held) q
    → Accounts held (record_forwarded elapsed m q)
unfolding record_forwarded
record_forwarded-Accounts elapsed m held q a =
    let r = release-Accounts m held q a in
    record {
      four = r.four;
      at_class = r.at_class;
      each = r.each;
      messages = r.messages;
      bytes = r.bytes;
      by_session = r.by_session;
      no_empty_entry = r.no_empty_entry;
      message_limit = r.message_limit;
      byte_limit = r.byte_limit;
      session_limit = r.session_limit;
    }

record_send_failed-Accounts :
    (m : ScheduledMessage) (held : List ScheduledMessage) (q : ScheduledQueue)
    → Accounts (m ∷ held) q
    → Accounts held (record_send_failed m q)
unfolding record_send_failed
record_send_failed-Accounts m held q a =
    let r = release-Accounts m held q a in
    record {
      four = r.four;
      at_class = r.at_class;
      each = r.each;
      messages = r.messages;
      bytes = r.bytes;
      by_session = r.by_session;
      no_empty_entry = r.no_empty_entry;
      message_limit = r.message_limit;
      byte_limit = r.byte_limit;
      session_limit = r.session_limit;
    }

total-cleared :
    (f : ScheduledMessage → ℕ) (queues : List FairPriorityQueue)
    → (total f (map Scheduler.clear queues) ≡ 0)
      × All IsValid (map Scheduler.clear queues)
      × (length (map Scheduler.clear queues) ≡ length queues)
unfolding total weight sum_at
total-cleared f [] = (refl, tt, refl)
total-cleared f (fair ∷ queues) =
    let (empty, valid, same) = total-cleared f queues in
    (omega (arith, empty), (empty_queue-IsValid, valid), ap suc same)

clear-Accounts : (q : ScheduledQueue) → Accounts [] q → Accounts [] (clear q)
unfolding clear sum_of
clear-Accounts q a =
    let cleared = λ (f : ScheduledMessage → ℕ). total-cleared f q.queues in
    record {
      four = (cleared one).2 ∙ a.four;
      at_class = a.at_class;
      each = (cleared one).1;
      messages = omega (arith, (cleared one).0);
      bytes = omega (arith, (cleared reserved_bytes).0);
      by_session = λ s. omega (arith, (cleared (owned reserved_bytes s)).0);
      no_empty_entry = λ s h. cc;
      message_limit = omega arith;
      byte_limit = omega arith;
      session_limit = λ s. omega arith;
    }

configured-Accounts : (config : ScheduledQueueConfig) → Accounts [] (configured config)
unfolding total weight sum_at sum_of
configured-Accounts config = record {
  four = refl;
  at_class = omega arith;
  each = (
    empty_queue-IsValid,
    (empty_queue-IsValid, (empty_queue-IsValid, (empty_queue-IsValid, tt))),
  );
  messages = omega arith;
  bytes = omega arith;
  by_session = λ s. omega arith;
  no_empty_entry = λ s h. cc;
  message_limit = omega arith;
  byte_limit = omega arith;
  session_limit = λ s. omega arith;
}

from_config-Accounts :
    (config : ScheduledQueueConfig) {q : ScheduledQueue} → from_config config ≡ ok q → Accounts [] q
unfolding from_config
from_config-Accounts config {q} h = elim (Bool-cases (bad_config config)) [
  | inl bad ↦ absurd (impossible (rw bad at h))
  | inr good ↦ subst (Accounts []) (same (rw good at h)) (configured-Accounts config)
]
  where
    impossible : err invalid_argument ≡ ok q → ⊥
    impossible e = cc

    same : ok (configured config) ≡ ok q → configured config ≡ q
    same e = cc

abbrev outcome :
    ScheduledQueue → Option (Option ScheduledMessage × ScheduledQueue) → Held × ScheduledQueue
outcome other none = ([], other)
outcome other (some (r, q)) = (returned r, q)

Popped-Accounts :
    (fuel now : ℕ) (q : ScheduledQueue) (r : Option ScheduledMessage) {q' : ScheduledQueue}
    → pop_next fuel now q ≡ some (r, q')
    → Popped [] fuel now q
    → Accounts (returned r) q'
Popped-Accounts fuel now q r {q'} h (forwards m dropped q₁ e a fresh old all) =
    let same : ◌≡◌ {A = Held × ScheduledQueue} (m ∷ [], q₁) (returned r, q') =
      ap (λ o. outcome q₁ o) (sym e ∙ h) in
    subst (λ s. Accounts s.0 s.1) same a
Popped-Accounts fuel now q r {q'} h (empties dropped q₁ e a old all zero_left) =
    let same : ◌≡◌ {A = Held × ScheduledQueue} ([], q₁) (returned r, q') =
      ap (λ o. outcome q₁ o) (sym e ∙ h) in
    subst (λ s. Accounts s.0 s.1) same a
Popped-Accounts fuel now q r {q'} h (exhausted e out) = absurd (never (sym e ∙ h))
  where
    never : ◌≡◌ {A = Option (Option ScheduledMessage × ScheduledQueue)} none (some (r, q')) → ⊥
    never x = cc

Step-Accounts :
    {held held' : Held} {q q' : ScheduledQueue}
    → Step held q held' q'
    → Accounts held q
    → Accounts held' q'
Step-Accounts {held} {held'} {q} (admission m) a = enqueue-Accounts m held q a
Step-Accounts {held} {held'} {q} (take fuel now m e) a =
    Popped-Accounts fuel now q (some m) e (pop_next-Popped [] fuel now q a)
Step-Accounts {held} {held'} {q} (nothing_left fuel now e) a =
    Popped-Accounts fuel now q none e (pop_next-Popped [] fuel now q a)
Step-Accounts {held} {held'} {q} (forwarded elapsed m) a =
    record_forwarded-Accounts elapsed m [] q a
Step-Accounts {held} {held'} {q} (failed m) a = record_send_failed-Accounts m [] q a
Step-Accounts {held} {held'} {q} (blocked m) a = requeue-Accounts m [] q a
Step-Accounts {held} {held'} {q} (forgotten session) a = forget_session-Accounts session q a
Step-Accounts {held} {held'} {q} stopped a = clear-Accounts q a

-- After any run of calls on a scheduler with an accepted configuration: its message and byte counters are
-- the number and the reserved bytes of the messages that wait or are out to be forwarded, what a session
-- uses is the reserved bytes of its own messages among these, with no entry for a session that uses
-- none, and the three limits hold.
pub run-Accounts :
    (config : ScheduledQueueConfig) (q₀ : ScheduledQueue)
    → from_config config ≡ ok q₀
    → {held : Held} {q : ScheduledQueue} → Run q₀ held q
    → Accounts held q
run-Accounts config q₀ h start = from_config-Accounts config h
run-Accounts config q₀ h (next r s) = Step-Accounts s (run-Accounts config q₀ h r)

refused :
    (m : ScheduledMessage) (q : ScheduledQueue)
    → q.max_total_bytes ≤ u64_max
    → q.max_session_bytes ≤ u64_max
    → Fits m q
    → fits m q ≡ false
    → ⊥
refused m q word word' f no_fit = let held = fits_complete m q word word' f in cc

-- An admission succeeds exactly if the message is within the three limits. It then counts the message
-- and its bytes and pushes it to the queue of its class; else it fails with `would_block`, and only
-- the count of rejections changes.
pub enqueue_lem :
    (m : ScheduledMessage) (q : ScheduledQueue)
    → q.max_total_bytes ≤ u64_max
    → q.max_session_bytes ≤ u64_max
    → (Fits m q
        × (enqueue m q).0 ≡ ok tt
        × ((enqueue m q).1.queues ≡ push_class m q.queues)
        × ((enqueue m q).1.counters.queued_messages ≡ q.counters.queued_messages + 1)
        × ((enqueue m q).1.counters.queued_bytes ≡ q.counters.queued_bytes + reserved_bytes m))
      ⊎ ((Fits m q → ⊥)
          × (enqueue m q ≡ (
            err would_block,
            record q {
              counters = record q.counters {
                admission_rejected = min (q.counters.admission_rejected + 1) u64_max;
              };
            },
          )))
unfolding enqueue
enqueue_lem m q word word' = elim (Bool-cases (fits m q)) [
  | inl yes_fits ↦ inl (rw yes_fits (fits_sound m q yes_fits, refl, refl, refl, refl))
  | inr no_fit ↦ inr ((λ f. refused m q word word' f no_fit), rw no_fit refl)
]
