-- ===== src/Game/Realtime/Enqueue.antt =====
-- The enqueue of crates/rnet-game/src/realtime.rs keeps the accounts, the order and the limits.
use rnetlib.Prelude.{
  ℕ, ◌+◌, ◌≤◌, ◌≡◌, refl, sym, ◌∙◌, arith, ◌&&◌, none, some, List, [], ◌∷◌, ◌++◌, ◌==◌,
  if◌then◌else◌, Bool-cases, Option-cases, inl, inr, ◌⊎◌, put, same-or-not,
}
use rnetlib.Game.Realtime.{
  PendingRealtime, LatestQueue, RealtimeQueueSnapshot, has_key, find, insert, reserved_bytes, usage,
  is_rejected, inserted, enqueue,
}
use rnetlib.Game.Realtime.Measures.{
  measure, measure-insert, measure-remove, has_key_fields, find-has_key, is_entry, find-none, owned,
  one, measure-one,
}
use rnetlib.Game.Realtime.Accounts.{
  Books, Consistent, recount-Consistent, count_key, Ordered, Limits, own, put_entries,
}
use rnetlib.Game.Realtime.Insertion.{
  usage-Entry, Admitted, admitted, found_own, insert_foreign, insert_bytes, insert_own_bytes,
}

-- The queue after an insertion, with any counters, order and number of keys.
abbrev pub with_message :
    PendingRealtime → LatestQueue → RealtimeQueueSnapshot → List (ℕ × ℕ) → ℕ → ℕ → LatestQueue
with_message m q counters order keys session_total = record q {
  pending = insert m q.pending;
  order = order;
  counters = counters;
  session_usage = put q.session_usage m.session (some (keys, session_total));
}

insert-Books :
    (m : PendingRealtime) (q : LatestQueue) (counters : RealtimeQueueSnapshot)
    (order : List (ℕ × ℕ)) (keys session_total : ℕ)
    → Books q
    → counters.queued_messages ≡ measure one (insert m q.pending)
    → counters.queued_bytes ≡ measure reserved_bytes (insert m q.pending)
    → keys ≡ measure (owned one m.session) (insert m q.pending)
    → session_total ≡ measure (owned reserved_bytes m.session) (insert m q.pending)
    → Books (with_message m q counters order keys session_total)
insert-Books m q counters order keys session_total books messages bytes e_keys e_bytes = record {
  messages = messages;
  bytes = bytes;
  by_session =
      put_entries q.session_usage m.session (some (keys, session_total))
        (λ s. measure (owned one s) (insert m q.pending))
        (λ s. measure (owned reserved_bytes s) (insert m q.pending))
        (
          e_keys,
          e_bytes,
          omega (
            arith,
            measure-insert (owned one m.session) m q.pending,
            measure-remove (owned one m.session) m.session m.key q.pending,
            own one m,
          ),
        )
        (λ s ne.
          rw (insert_foreign m q one s ne, insert_foreign m q reserved_bytes s ne)
            (books.by_session s));
}

insert-Limits :
    (m : PendingRealtime) (q : LatestQueue) (counters : RealtimeQueueSnapshot)
    (order : List (ℕ × ℕ)) (keys session_total : ℕ)
    → Limits q
    → measure reserved_bytes (insert m q.pending) ≤ q.max_total_bytes
    → measure (owned reserved_bytes m.session) (insert m q.pending) ≤ q.max_session_bytes
    → measure (owned one m.session) (insert m q.pending) ≤ q.max_keys_per_session
    → measure one (insert m q.pending) ≤ q.max_pending_keys
    → Limits (with_message m q counters order keys session_total)
insert-Limits m q counters order keys session_total limits bytes session_bytes session_keys
      all_keys =
    record {
      byte_limit = bytes;
      session_limit = λ s. elim (same-or-not s m.session) [
        | inl same ↦ rw same session_bytes
        | inr other ↦ rw (insert_foreign m q reserved_bytes s other) (limits.session_limit s)
      ];
      key_limit = λ s. elim (same-or-not s m.session) [
        | inl same ↦ rw same session_keys
        | inr other ↦ rw (insert_foreign m q one s other) (limits.key_limit s)
      ];
      pending_limit = all_keys;
    }

count_key-snoc :
    (session key s k : ℕ) (order : List (ℕ × ℕ))
    → count_key session key (order ++ (s, k) ∷ [])
      ≡ count_key session key order + (if s == session && k == key then 1 else 0)
unfolding count_key
count_key-snoc session key s k [] = omega arith
count_key-snoc session key s k (x ∷ order) = omega (arith, count_key-snoc session key s k order)

-- The entry of `m` stands in the order exactly if the map held none under its key.
insert-entry_new :
    (m : PendingRealtime) (q : LatestQueue) (session key : ℕ)
    → find m.session m.key q.pending ≡ none
    → (measure (is_entry session key) (insert m q.pending)
        ≡ measure (is_entry session key) q.pending + is_entry session key m)
      × (is_entry session key m ≡ 0 ⊎ measure (is_entry session key) q.pending ≡ 0)
insert-entry_new m q session key absent =
    let i = rw absent at (measure-insert (is_entry session key) m q.pending) in
    (
      omega (arith, i),
      elim (Bool-cases (has_key session key m)) [
        | inl here ↦
            let same = has_key_fields session key m here in
            let e = find-none m.session m.key q.pending absent in
            inr (rw (sym same.0, sym same.1) e)
        | inr there ↦ inl (rw there refl)
      ],
    )

insert-entry_old :
    (m : PendingRealtime) (q : LatestQueue) (session key : ℕ) {old : PendingRealtime}
    → find m.session m.key q.pending ≡ some old
    → measure (is_entry session key) (insert m q.pending) ≡ measure (is_entry session key) q.pending
insert-entry_old m q session key {old} held =
    let same = find-has_key m.session m.key q.pending held in
    let e : is_entry session key old ≡ is_entry session key m = rw (same.0, same.1) refl in
    let i = rw held at (measure-insert (is_entry session key) m q.pending) in omega (arith, i, e)

is_entry-le : (session key : ℕ) (m : PendingRealtime) → is_entry session key m ≤ 1
is_entry-le session key m = ground arith

pub insert-Ordered_new :
    (m : PendingRealtime) (q : LatestQueue) (counters : RealtimeQueueSnapshot)
    (keys session_total : ℕ)
    → Ordered q
    → find m.session m.key q.pending ≡ none
    → Ordered (with_message m q counters (q.order ++ (m.session, m.key) ∷ []) keys session_total)
insert-Ordered_new m q counters keys session_total ordered absent session key =
    let e = insert-entry_new m q session key absent in
    let c = count_key-snoc session key m.session m.key q.order in
    let o = ordered session key in
    (
      omega (arith, e.0, c, o.0),
      elim e.1 [
        | inl other ↦ omega (arith, e.0, c, o.1, other)
        | inr fresh ↦ omega (arith, e.0, c, o.0, fresh, is_entry-le session key m)
      ],
    )

pub insert-Ordered_old :
    (m : PendingRealtime) (q : LatestQueue) (counters : RealtimeQueueSnapshot)
    (keys session_total : ℕ) {old : PendingRealtime}
    → Ordered q
    → find m.session m.key q.pending ≡ some old
    → Ordered (with_message m q counters q.order keys session_total)
insert-Ordered_old m q counters keys session_total ordered held session key =
    let o = ordered session key in (o.0 ∙ sym (insert-entry_old m q session key held), o.1)

module _ (m : PendingRealtime) (q : LatestQueue) (c : Consistent q) where
  pub used_is :
      ((usage (q.session_usage m.session)).0 ≡ measure (owned one m.session) q.pending)
      × ((usage (q.session_usage m.session)).1 ≡ measure (owned reserved_bytes m.session) q.pending)
  used_is = usage-Entry (q.session_usage m.session) _ _ (c.books.by_session m.session)

  new-Consistent :
      {total session_total : ℕ}
      → Admitted m q total session_total
      → find m.session m.key q.pending ≡ none
      → total ≡ measure reserved_bytes (insert m q.pending)
      → session_total ≡ measure (owned reserved_bytes m.session) (insert m q.pending)
      → Consistent (inserted m q total session_total none).1
  new-Consistent {total} {session_total} a absent t s =
      let i : (f : PendingRealtime → ℕ)
          → measure f (insert m q.pending) ≡ measure f q.pending + f m =
        λ f. let e = rw absent at (measure-insert f m q.pending) in omega (arith, e) in
      let room = a.room absent in
      let k = i (owned one m.session) in
      record {
        books =
            insert-Books m q _ _ _ session_total c.books (omega (arith, c.books.messages, i one)) t
              (omega (arith, used_is.0, k, own one m)) s;
        ordered = insert-Ordered_new m q q.counters 0 session_total c.ordered absent;
        limits =
            insert-Limits m q _ _ _ session_total c.limits (omega (arith, t, a.total_fits))
              (omega (arith, s, a.session_fits)) (omega (arith, used_is.0, k, own one m, room.0))
              (omega (arith, i one, room.1, measure-one q.pending));
      }

  old-Consistent :
      {total session_total : ℕ} {old : PendingRealtime}
      → Admitted m q total session_total
      → find m.session m.key q.pending ≡ some old
      → total ≡ measure reserved_bytes (insert m q.pending)
      → session_total ≡ measure (owned reserved_bytes m.session) (insert m q.pending)
      → Consistent (inserted m q total session_total (some old)).1
  old-Consistent {total} {session_total} a held t s =
      let i = rw held at (measure-insert one m q.pending) in
      let k = rw (found_own m q one, held) at (measure-insert (owned one m.session) m q.pending) in
      record {
        books =
            insert-Books m q _ _ _ session_total c.books (omega (arith, c.books.messages, i)) t
              (omega (arith, used_is.0, k, own one m)) s;
        ordered = insert-Ordered_old m q q.counters 0 session_total c.ordered held;
        limits =
            insert-Limits m q _ _ _ session_total c.limits (omega (arith, t, a.total_fits))
              (omega (arith, s, a.session_fits))
              (omega (arith, k, own one m, c.limits.key_limit m.session))
              (omega (arith, i, c.limits.pending_limit));
      }

  inserted-Consistent :
      {total session_total : ℕ}
      → Admitted m q total session_total
      → total ≡ measure reserved_bytes (insert m q.pending)
      → session_total ≡ measure (owned reserved_bytes m.session) (insert m q.pending)
      → Consistent (inserted m q total session_total (find m.session m.key q.pending)).1
  inserted-Consistent a t s = elim (Option-cases (find m.session m.key q.pending)) [
    | inl absent ↦ rw absent (new-Consistent a absent t s)
    | inr (old, held) ↦ rw held (old-Consistent a held t s)
  ]

  pub enqueue-Consistent : Consistent (enqueue m q).1
  unfolding enqueue
  enqueue-Consistent = elim (Bool-cases (is_rejected m q)) [
    | inl full ↦ rw full (recount-Consistent q _ refl refl c)
    | inr passes ↦
        let a = admitted m q passes in
        rw (passes, a.total_is, a.session_is)
          (inserted-Consistent a (rw c.books.bytes (sym (insert_bytes m q)))
            (rw used_is.1 (sym (insert_own_bytes m q))))
  ]
