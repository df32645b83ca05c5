-- ===== src/Game/Realtime/Accounts.antt =====
-- The accounts of the snapshot queue of crates/rnet-game/src/realtime.rs: its counters and the use of each
-- session are those of the pending entries, and each entry stands once in the order.
use rnetlib.Prelude.{
  ℕ, zero, suc, ◌+◌, ◌≤◌, ◌<◌, ◌≡◌, ◌≢◌, refl, sym, ◌∙◌, arith, ◌&&◌, Option, none, some, List, [],
  ◌∷◌, ◌==◌, if◌then◌else◌, inl, inr, put, put_self, put_other, same-or-not, neq-test, ==_refl,
  checked_sub,
}
use rnetlib.Game.Realtime.{
  PendingRealtime, LatestQueue, RealtimeQueueSnapshot, find, remove, reserved_bytes, release,
  release_usage,
}
use rnetlib.Game.Realtime.Measures.{
  measure, measure-remove, is_entry, owned, one, measure-owned_zero,
}

-- The entry of a session with some number of keys and bytes: none if it has no key.
abbrev pub Entry : Option (ℕ × ℕ) → ℕ → ℕ → Type 0
Entry none keys bytes = (keys ≡ 0) × (bytes ≡ 0)
Entry (some (k, b)) keys bytes = (k ≡ keys) × (b ≡ bytes) × (0 < keys)

-- The counters agree with the pending entries.
pub record Books (q : LatestQueue) : Type 0 where
  pub messages : q.counters.queued_messages ≡ measure one q.pending
  pub bytes : q.counters.queued_bytes ≡ measure reserved_bytes q.pending
  pub by_session :
      (s : ℕ)
      → Entry
          (q.session_usage s)
          (measure (owned one s) q.pending)
          (measure (owned reserved_bytes s) q.pending)

unfoldable pub count_key : ℕ → ℕ → List (ℕ × ℕ) → ℕ
count_key session key [] = 0
count_key session key ((s, k) ∷ order) =
    (if s == session && k == key then 1 else 0) + count_key session key order

-- Each pending entry stands once in the order, and nothing else does.
abbrev pub Ordered : LatestQueue → Type 0
Ordered q =
    (session key : ℕ)
    → (count_key session key q.order ≡ measure (is_entry session key) q.pending)
      × (count_key session key q.order ≤ 1)

pub record Limits (q : LatestQueue) : Type 0 where
  pub byte_limit : measure reserved_bytes q.pending ≤ q.max_total_bytes
  pub session_limit : (s : ℕ) → measure (owned reserved_bytes s) q.pending ≤ q.max_session_bytes
  pub key_limit : (s : ℕ) → measure (owned one s) q.pending ≤ q.max_keys_per_session
  pub pending_limit : measure one q.pending ≤ q.max_pending_keys

-- The queue is as its operations leave it.
pub record Consistent (q : LatestQueue) : Type 0 where
  pub books : Books q
  pub ordered : Ordered q
  pub limits : Limits q

-- The cumulative counters are no part of the accounts.
pub recount-Consistent :
    (q : LatestQueue) (counters : RealtimeQueueSnapshot)
    → counters.queued_messages ≡ q.counters.queued_messages
    → counters.queued_bytes ≡ q.counters.queued_bytes
    → Consistent q
    → Consistent (record q { counters = counters })
recount-Consistent q counters messages bytes c = record {
  books = record {
    messages = messages ∙ c.books.messages;
    bytes = bytes ∙ c.books.bytes;
    by_session = c.books.by_session;
  };
  ordered = c.ordered;
  limits = record {
    byte_limit = c.limits.byte_limit;
    session_limit = c.limits.session_limit;
    key_limit = c.limits.key_limit;
    pending_limit = c.limits.pending_limit;
  };
}

-- The counters still hold an entry that is no longer pending.
pub record Owing (m : PendingRealtime) (q : LatestQueue) : Type 0 where
  pub messages_owing : q.counters.queued_messages ≡ measure one q.pending + 1
  pub bytes_owing : q.counters.queued_bytes ≡ measure reserved_bytes q.pending + reserved_bytes m
  pub by_session_owing :
      (s : ℕ)
      → Entry
          (q.session_usage s)
          (measure (owned one s) q.pending + owned one s m)
          (measure (owned reserved_bytes s) q.pending + owned reserved_bytes s m)

pub released-Entry :
    (o : Option (ℕ × ℕ)) (keys bytes freed : ℕ)
    → Entry o (keys + 1) (bytes + freed)
    → ((keys ≡ 0) → (bytes ≡ 0))
    → (o' : Option (ℕ × ℕ)) × (release_usage o freed ≡ some o') × Entry o' keys bytes
released-Entry none keys bytes freed e z = absurd (omega (arith, e.0))
released-Entry (some (k, b)) zero bytes freed (ek, eb, pos) z =
    let zb = z refl in
    let k1 : k ≡ 1 = omega arith in
    let b1 : b ≡ freed = omega arith in (none, rw (k1, b1) (ground arith), (refl, zb))
released-Entry (some (k, b)) (suc keys) bytes freed (ek, eb, pos) z =
    let k1 : k ≡ suc (suc keys) = omega arith in
    (some (suc keys, bytes), rw (k1, eb) (ground arith), (refl, refl, omega arith))

-- The queue with the counters and the use of a session replaced.
abbrev pub with_entry : LatestQueue → ℕ → ℕ → ℕ → Option (ℕ × ℕ) → LatestQueue
with_entry q messages bytes session entry = record q {
  counters = record q.counters { queued_messages = messages; queued_bytes = bytes };
  session_usage = put q.session_usage session entry;
}

pub own : (f : PendingRealtime → ℕ) (m : PendingRealtime) → owned f m.session m ≡ f m
own f m = rw (==_refl m.session) refl

pub foreign :
    (f : PendingRealtime → ℕ) (s : ℕ) (m : PendingRealtime) (n : ℕ)
    → s ≢ m.session
    → n + owned f s m ≡ n
foreign f s m n ne = rw (neq-test m.session s (λ e. ne (sym e))) (omega arith)

pub checked_sub_add : (a b : ℕ) → checked_sub (a + b) b ≡ some a
checked_sub_add a b = ground arith

-- A use of each session that differs from the old one for one session only.
pub put_entries :
    (u : ℕ → Option (ℕ × ℕ)) (s : ℕ) (entry : Option (ℕ × ℕ)) (keys bytes : ℕ → ℕ)
    → Entry entry (keys s) (bytes s)
    → ((s' : ℕ) → s' ≢ s → Entry (u s') (keys s') (bytes s'))
    → (s' : ℕ) → Entry (put u s entry s') (keys s') (bytes s')
put_entries u s entry keys bytes new others s' = elim (same-or-not s' s) [
  | inl same ↦ rw same (rw (put_self u s entry) new)
  | inr other ↦ rw (put_other u s entry s' other) (others s' other)
]

-- A release of an entry that is no longer pending settles the accounts and never underflows.
pub release_lem :
    (m : PendingRealtime) (q : LatestQueue)
    → Owing m q
    → (entry : Option (ℕ × ℕ)) × (let q' =
          with_entry q (measure one q.pending) (measure reserved_bytes q.pending) m.session entry in
        (release m q ≡ some q') × Books q')
unfolding release
release_lem m q owing =
    let s = m.session in
    let keys = λ (s' : ℕ). measure (owned one s') q.pending in
    let bytes = λ (s' : ℕ). measure (owned reserved_bytes s') q.pending in
    let r =
      released-Entry (q.session_usage s) (keys s) (bytes s) (reserved_bytes m)
        (rw (own one m, own reserved_bytes m) at (owing.by_session_owing s))
        (measure-owned_zero reserved_bytes s q.pending) in
    (
      r.0,
      (
        rw
            (
              owing.messages_owing,
              owing.bytes_owing,
              checked_sub_add (measure one q.pending) 1,
              checked_sub_add (measure reserved_bytes q.pending) (reserved_bytes m),
              r.1,
            )
            refl,
        record {
          messages = refl;
          bytes = refl;
          by_session = put_entries q.session_usage s r.0 keys bytes r.2 (λ s' ne.
              rw (foreign one s' m (keys s') ne, foreign reserved_bytes s' m (bytes s') ne) at
                (owing.by_session_owing s'));
        },
      ),
    )

-- What is left when an entry is removed from the pending ones, whatever the order is then.
pub remove-Owing :
    (q : LatestQueue) (session key : ℕ) (order : List (ℕ × ℕ)) {m : PendingRealtime}
    → Books q
    → find session key q.pending ≡ some m
    → Owing m (record q { order = order; pending = remove session key q.pending })
remove-Owing q session key order {m} books found =
    let parts : (f : PendingRealtime → ℕ)
        → measure f (remove session key q.pending) + f m ≡ measure f q.pending =
      λ f. rw found at (measure-remove f session key q.pending) in
    record {
      messages_owing = books.messages ∙ sym (parts one);
      bytes_owing = books.bytes ∙ sym (parts reserved_bytes);
      by_session_owing =
          λ s. rw (parts (owned one s), parts (owned reserved_bytes s)) (books.by_session s);
    }
