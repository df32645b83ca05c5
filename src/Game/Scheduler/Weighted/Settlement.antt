-- ===== src/Game/Scheduler/Weighted/Settlement.antt =====
-- How a message leaves the accounts of crates/rnet-game/src/scheduler.rs: released, put back, or gone with
-- its session.
use rnetlib.Prelude.{
  ℕ, ◌+◌, ◌≤◌, ◌≡◌, ◌∙◌, arith, none, List, [], ◌∷◌, ◌==◌, put, inl, inr, Bool-cases,
}
use rnetlib.Game.Scheduler.{ScheduledMessage, reserved_bytes}
use rnetlib.Game.Scheduler.Weight.{sum_of}
use rnetlib.Game.Scheduler.Removal.{owned}
use rnetlib.Game.Scheduler.Weighted.{
  ScheduledQueue, usage, release, requeue, forget_session, drop_expired, remove_all,
}
use rnetlib.Game.Scheduler.Weighted.Totals.{
  total, push_class_lem, remove_all_lem, remove_all_count, remove_all-owned,
}
use rnetlib.Game.Scheduler.Weighted.Usage.{
  usage-released, released-ne-zero, forgotten-ne-zero, usage-forgotten,
}
use rnetlib.Game.Scheduler.Weighted.Accounts.{Accounts, one}

pub release-Accounts :
    (m : ScheduledMessage) (held : List ScheduledMessage) (q : ScheduledQueue)
    → Accounts (m ∷ held) q
    → Accounts held (release m q)
unfolding release sum_of
release-Accounts m held q a = record {
  four = a.four;
  at_class = a.at_class;
  each = a.each;
  messages = omega (arith, a.messages);
  bytes = omega (arith, a.bytes);
  by_session = λ s.
      omega (arith, usage-released q.session_bytes m.session (reserved_bytes m) s, a.by_session s);
  no_empty_entry =
      λ s. released-ne-zero q.session_bytes m.session (reserved_bytes m) s (a.no_empty_entry s);
  message_limit = omega (arith, a.message_limit);
  byte_limit = omega (arith, a.byte_limit);
  session_limit = λ s.
      omega
        (arith, usage-released q.session_bytes m.session (reserved_bytes m) s, a.session_limit s);
}

pub requeue-Accounts :
    (m : ScheduledMessage) (held : List ScheduledMessage) (q : ScheduledQueue)
    → Accounts (m ∷ held) q
    → Accounts held (requeue m q)
unfolding requeue sum_of
requeue-Accounts m held q a =
    let (four', each', more) = push_class_lem m q.queues a.four a.each in
    record {
      four = four';
      at_class = a.at_class;
      each = each';
      messages = omega (arith, more one, a.messages);
      bytes = omega (arith, more reserved_bytes, a.bytes);
      by_session = λ s. omega (arith, a.by_session s, more (owned reserved_bytes s));
      no_empty_entry = a.no_empty_entry;
      message_limit = a.message_limit;
      byte_limit = a.byte_limit;
      session_limit = a.session_limit;
    }

forgotten_share :
    (session s : ℕ) (q : ScheduledQueue)
    → Accounts [] q
    → usage (put q.session_bytes session none s)
      ≡ total (owned reserved_bytes s) (remove_all session q.queues).1
        + sum_of (owned reserved_bytes s) []
unfolding sum_of
forgotten_share session s q a =
    let left = remove_all-owned reserved_bytes session s q.queues a.each in
    let used = usage-forgotten q.session_bytes session s in
    let before = a.by_session s in
    elim (Bool-cases (session == s)) [
      | inl e ↦ omega (arith, rw e at left, rw e at used)
      | inr e ↦ omega (arith, rw e at left, rw e at used, before)
    ]

forgotten_limit :
    (session s : ℕ) (q : ScheduledQueue)
    → Accounts [] q
    → usage (put q.session_bytes session none s) ≤ q.max_session_bytes
forgotten_limit session s q a =
    let used = usage-forgotten q.session_bytes session s in
    elim (Bool-cases (session == s)) [
      | inl e ↦ omega (arith, rw e at used)
      | inr e ↦ omega (arith, rw e at used, a.session_limit s)
    ]

pub forget_session-Accounts :
    (session : ℕ) (q : ScheduledQueue) → Accounts [] q → Accounts [] (forget_session session q).1
unfolding forget_session sum_of
forget_session-Accounts session q a =
    let (same, each', less) = remove_all_lem session q.queues a.each in
    record {
      four = same ∙ a.four;
      at_class = a.at_class;
      each = each';
      messages = omega (arith, less one, remove_all_count session q.queues a.each, a.messages);
      bytes = omega (arith, less reserved_bytes, a.by_session session, a.bytes);
      by_session = λ s. forgotten_share session s q a;
      no_empty_entry = λ s. forgotten-ne-zero q.session_bytes session s (a.no_empty_entry s);
      message_limit = omega (arith, a.message_limit);
      byte_limit = omega (arith, a.byte_limit);
      session_limit = λ s. forgotten_limit session s q a;
    }

pub drop_expired-Accounts :
    (m : ScheduledMessage) (held : List ScheduledMessage) (q : ScheduledQueue)
    → Accounts (m ∷ held) q
    → Accounts held (drop_expired m q)
drop_expired-Accounts m held q a =
    let r = release-Accounts m held q a in
    record {
      four = r.four;
      at_class = r.at_class;
      each = r.each;
      messages = r.messages;
      bytes = r.bytes;
      by_session = r.by_session;
      no_empty_entry = r.no_empty_entry;
      message_limit = r.message_limit;
      byte_limit = r.byte_limit;
      session_limit = r.session_limit;
    }
