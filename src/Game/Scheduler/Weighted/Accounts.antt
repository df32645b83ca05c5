-- ===== src/Game/Scheduler/Weighted/Accounts.antt =====
-- The budgets of crates/rnet-game/src/scheduler.rs: the counters are those of the messages that wait in the
-- classes or are being forwarded, and stay within the limits.
use rnetlib.Prelude.{
  ℕ, ◌+◌, ◌≤◌, ◌<◌, ◌≡◌, ◌≢◌, arith, Bool, true, false, ◌&&◌, some, List, All, put, inl, inr,
  length, put_self, put_other, same-or-not, ltb→lt, lt→ltb, Bool-cases, u64_max, checked_add,
}
use rnetlib.Game.Scheduler.{ScheduledMessage, reserved_bytes}
use rnetlib.Game.Scheduler.Fair.{IsValid}
use rnetlib.Game.Scheduler.Weight.{sum_of}
use rnetlib.Game.Scheduler.Removal.{owned}
use rnetlib.Game.Scheduler.Weighted.{ScheduledQueue, usage, total_fits, fits, enqueue}
use rnetlib.Game.Scheduler.Weighted.Totals.{total, push_class_lem}
use rnetlib.Game.Scheduler.Weighted.Usage.{usage-added, added-ne-zero}

abbrev pub one : ScheduledMessage → ℕ
one m = 1

-- The messages of `held` have been taken out to be forwarded, and are not yet accounted for.
pub record Accounts (held : List ScheduledMessage) (q : ScheduledQueue) : Type 0 where
  pub four : length q.queues ≡ 4
  pub at_class : q.cursor < 15
  pub each : All IsValid q.queues
  pub messages : q.counters.queued_messages ≡ total one q.queues + sum_of one held
  pub bytes : q.counters.queued_bytes ≡ total reserved_bytes q.queues + sum_of reserved_bytes held
  pub by_session :
      (s : ℕ)
      → usage (q.session_bytes s)
        ≡ total (owned reserved_bytes s) q.queues + sum_of (owned reserved_bytes s) held
  pub no_empty_entry : (s : ℕ) → q.session_bytes s ≢ some 0
  pub message_limit : q.counters.queued_messages ≤ q.max_messages
  pub byte_limit : q.counters.queued_bytes ≤ q.max_total_bytes
  pub session_limit : (s : ℕ) → usage (q.session_bytes s) ≤ q.max_session_bytes

all_three_hold : (a b c : Bool) → a ≡ true → b ≡ true → c ≡ true → (a && b && c) ≡ true
all_three_hold a b c p q r = ground arith

reserved_pos : (m : ScheduledMessage) → 0 < reserved_bytes m
unfolding reserved_bytes
reserved_pos m = omega arith

-- What the test of `enqueue` says.
pub record Fits (m : ScheduledMessage) (q : ScheduledQueue) : Type 0 where
  pub messages_left : q.counters.queued_messages < q.max_messages
  pub bytes_left : q.counters.queued_bytes + reserved_bytes m ≤ q.max_total_bytes
  pub session_left : usage (q.session_bytes m.session) + reserved_bytes m ≤ q.max_session_bytes

total_fits_sound : (a b limit : ℕ) → total_fits (checked_add a b) limit ≡ true → a + b ≤ limit
total_fits_sound a b limit h = ground arith

total_fits_complete :
    (a b limit : ℕ) → a + b ≤ limit → limit ≤ u64_max → total_fits (checked_add a b) limit ≡ true
total_fits_complete a b limit h word = ground arith

all_three : (a b c : Bool) → (a && b && c) ≡ true → (a ≡ true) × (b ≡ true) × (c ≡ true)
all_three a b c h = ground arith

pub fits_sound : (m : ScheduledMessage) (q : ScheduledQueue) → fits m q ≡ true → Fits m q
unfolding fits
fits_sound m q h =
    let (a, b, c) = all_three _ _ _ h in
    record {
      messages_left = ltb→lt q.counters.queued_messages q.max_messages a;
      bytes_left = total_fits_sound q.counters.queued_bytes (reserved_bytes m) q.max_total_bytes b;
      session_left =
          total_fits_sound (usage (q.session_bytes m.session)) (reserved_bytes m)
            q.max_session_bytes c;
    }

pub fits_complete :
    (m : ScheduledMessage) (q : ScheduledQueue)
    → q.max_total_bytes ≤ u64_max
    → q.max_session_bytes ≤ u64_max
    → Fits m q
    → fits m q ≡ true
unfolding fits
fits_complete m q word word' f =
    all_three_hold _ _ _ (lt→ltb q.counters.queued_messages q.max_messages f.messages_left)
      (total_fits_complete q.counters.queued_bytes (reserved_bytes m) q.max_total_bytes f.bytes_left
        word)
      (total_fits_complete (usage (q.session_bytes m.session)) (reserved_bytes m)
        q.max_session_bytes f.session_left word')

added_limit :
    (m : ScheduledMessage) (q : ScheduledQueue) (s : ℕ)
    → Fits m q
    → usage (q.session_bytes s) ≤ q.max_session_bytes
    → usage (
        put q.session_bytes m.session
          (some (usage (q.session_bytes m.session) + reserved_bytes m))
          s)
      ≤ q.max_session_bytes
added_limit m q s f h = elim (same-or-not s m.session) [
  | inl e ↦
      rw
        (
          e,
          put_self q.session_bytes m.session
              (some (usage (q.session_bytes m.session) + reserved_bytes m)),
        )
        f.session_left
  | inr ne ↦
      rw
        (put_other q.session_bytes m.session
          (some (usage (q.session_bytes m.session) + reserved_bytes m)) s ne)
        h
]

added-Accounts :
    (m : ScheduledMessage) (held : List ScheduledMessage) (q : ScheduledQueue)
    → Accounts held q
    → fits m q ≡ true
    → Accounts held (enqueue m q).1
unfolding enqueue
added-Accounts m held q a h = rw h (
    let f = fits_sound m q h in
    let (four', each', more) = push_class_lem m q.queues a.four a.each in
    record {
      four = four';
      at_class = a.at_class;
      each = each';
      messages = omega (arith, more one, a.messages);
      bytes = omega (arith, more reserved_bytes, a.bytes);
      by_session = λ s. omega (
        arith,
        usage-added q.session_bytes m.session (reserved_bytes m) s,
        a.by_session s,
        more (owned reserved_bytes s),
      );
      no_empty_entry = λ s.
          added-ne-zero q.session_bytes m.session (reserved_bytes m) s (reserved_pos m)
            (a.no_empty_entry s);
      message_limit = omega (arith, f.messages_left);
      byte_limit = f.bytes_left;
      session_limit = λ s. added_limit m q s f (a.session_limit s);
    })

-- The same counts, with other cumulative figures.
refused-Accounts :
    (m : ScheduledMessage) (held : List ScheduledMessage) (q : ScheduledQueue)
    → Accounts held q
    → fits m q ≡ false
    → Accounts held (enqueue m q).1
unfolding enqueue
refused-Accounts m held q a h = rw h (record {
  four = a.four;
  at_class = a.at_class;
  each = a.each;
  messages = a.messages;
  bytes = a.bytes;
  by_session = a.by_session;
  no_empty_entry = a.no_empty_entry;
  message_limit = a.message_limit;
  byte_limit = a.byte_limit;
  session_limit = a.session_limit;
})

pub enqueue-Accounts :
    (m : ScheduledMessage) (held : List ScheduledMessage) (q : ScheduledQueue)
    → Accounts held q
    → Accounts held (enqueue m q).1
enqueue-Accounts m held q a = elim (Bool-cases (fits m q)) [
  | inl h ↦ added-Accounts m held q a h
  | inr h ↦ refused-Accounts m held q a h
]
