-- ===== src/Game/Realtime/Removal.antt =====
-- pop_next, forget_session and clear of crates/rnet-game/src/realtime.rs keep the accounts, the order and the
-- limits, and never underflow.
use rnetlib.Prelude.{
  ℕ, ◌≤◌, ◌≡◌, ◌≢◌, refl, sym, ap, ◌∙◌, arith, true, false, not, ◌&&◌, none, some, List, [], ◌∷◌,
  ◌==◌, if◌then◌else◌, Bool-cases, Option-cases, inl, inr, length, keep, same-or-not, neq-test,
  ==_refl,
}
use rnetlib.Game.Realtime.{
  PendingRealtime, LatestQueue, has_key, find, remove, reserved_bytes, release, pop_from, pop_next,
  own_keys, remove_keys, forgotten, forget_session, clear,
}
use rnetlib.Game.Realtime.Measures.{
  measure, measure-remove, find-has_key, find-remove_other, is_entry, find-some, owned, one,
}
use rnetlib.Game.Realtime.Accounts.{
  Books, Consistent, count_key, Ordered, Limits, with_entry, release_lem, remove-Owing,
}

-- Fewer pending entries keep the limits.
remove-Limits :
    (q q' : LatestQueue) (session key : ℕ)
    → Limits q
    → q'.pending ≡ remove session key q.pending
    → q'.max_total_bytes ≡ q.max_total_bytes
    → q'.max_session_bytes ≡ q.max_session_bytes
    → q'.max_keys_per_session ≡ q.max_keys_per_session
    → q'.max_pending_keys ≡ q.max_pending_keys
    → Limits q'
remove-Limits q q' session key limits p t s k n =
    let less : (f : PendingRealtime → ℕ) → measure f q'.pending ≤ measure f q.pending =
      λ f. rw p (omega (arith, measure-remove f session key q.pending)) in
    record {
      byte_limit = omega (arith, less reserved_bytes, limits.byte_limit, t);
      session_limit = λ o. omega (arith, less (owned reserved_bytes o), limits.session_limit o, s);
      key_limit = λ o. omega (arith, less (owned one o), limits.key_limit o, k);
      pending_limit = omega (arith, less one, limits.pending_limit, n);
    }

abbrev pub limits_of : LatestQueue → ℕ × ℕ × ℕ × ℕ
limits_of q = (q.max_total_bytes, q.max_session_bytes, q.max_keys_per_session, q.max_pending_keys)

-- The entry of the first key of the order is there and comes out.
pub record Popped (q q' : LatestQueue) (m : PendingRealtime) (session key : ℕ) : Type 0 where
  pub of_key : (m.session ≡ session) × (m.key ≡ key)
  pub held : find session key q.pending ≡ some m
  pub left : q'.pending ≡ remove session key q.pending
  pub popped_limits : limits_of q' ≡ limits_of q

order-find :
    (q : LatestQueue) (session key : ℕ) (order : List (ℕ × ℕ))
    → q.order ≡ (session, key) ∷ order
    → Ordered q
    → (m : PendingRealtime) × (find session key q.pending ≡ some m)
unfolding count_key
order-find q session key order e ordered =
    let o = rw (e, ==_refl session, ==_refl key) at (ordered session key).0 in
    find-some session key q.pending (omega (arith, o))

pub rest-Ordered :
    (q : LatestQueue) (session key : ℕ) (order : List (ℕ × ℕ)) {m : PendingRealtime}
    → q.order ≡ (session, key) ∷ order
    → Ordered q
    → find session key q.pending ≡ some m
    → (s k : ℕ)
    → (count_key s k order ≡ measure (is_entry s k) (remove session key q.pending))
      × (count_key s k order ≤ 1)
unfolding count_key
rest-Ordered q session key order {m} e ordered held s k =
    let same = find-has_key session key q.pending held in
    let i : is_entry s k m ≡ (if session == s && key == k then 1 else 0) =
      rw (same.0, same.1) refl in
    let o0 = rw e at (ordered s k).0 in
    let o1 = rw e at (ordered s k).1 in
    let r = rw held at (measure-remove (is_entry s k) session key q.pending) in
    (omega (arith, i, o0, r), omega (arith, o1))

pop_from_found :
    (q q' : LatestQueue) (session key : ℕ) (order : List (ℕ × ℕ)) {m : PendingRealtime}
    → find session key q.pending ≡ some m
    → release m (record q { order = order; pending = remove session key q.pending }) ≡ some q'
    → pop_from ((session, key) ∷ order) q ≡ some (some m, q')
unfolding pop_from
pop_from_found q q' session key order held released = rw (held, pop_from, released) refl

pub pop_next_cons :
    (q : LatestQueue) (session key : ℕ) (order : List (ℕ × ℕ))
    → q.order ≡ (session, key) ∷ order
    → Consistent q
    → (m : PendingRealtime) × (q' : LatestQueue) × (pop_next q ≡ some (some m, q'))
      × Consistent q'
      × Popped q q' m session key
      × (q'.order ≡ order)
unfolding pop_next
pop_next_cons q session key order e c =
    let (m, held) = order-find q session key order e c.ordered in
    let q1 = record q { order = order; pending = remove session key q.pending } in
    let r = release_lem m q1 (remove-Owing q session key order c.books held) in
    let q' =
      with_entry q1 (measure one q1.pending) (measure reserved_bytes q1.pending) m.session r.0 in
    (
      m,
      q',
      ap (λ o. pop_from o q) e ∙ pop_from_found q q' session key order held r.1.0,
      record {
        books = r.1.1;
        ordered = rest-Ordered q session key order e c.ordered held;
        limits = remove-Limits q q' session key c.limits refl refl refl refl refl;
      },
      record {
        of_key = find-has_key session key q.pending held;
        held = held;
        left = refl;
        popped_limits = refl;
      },
      refl,
    )

pub pop_next_empty :
    (q : LatestQueue) → q.order ≡ [] → pop_next q ≡ some (none, record q { order = [] })
unfolding pop_next pop_from
pop_next_empty q e = rw e refl

-- The keys of a session, as its removals meet them.
own_keys_cons :
    (session key : ℕ) (keys : List ℕ) (ms : List PendingRealtime)
    → own_keys session ms ≡ key ∷ keys
    → ((m : PendingRealtime) × (find session key ms ≡ some m))
      × (own_keys session (remove session key ms) ≡ keys)
unfolding own_keys find remove
own_keys_cons session key keys [] e = absurd cc
own_keys_cons session key keys (x ∷ xs) e = elim (Bool-cases (x.session == session)) [
  | inl mine ↦
      let e' = rw mine at e in
      let same : x.key ≡ key = cc in
      let rest : own_keys session xs ≡ keys = cc in
      let here : has_key session key x ≡ true = rw (mine, same, ==_refl key) refl in
      ((x, rw here refl), rw here rest)
  | inr other ↦ rw other (rw other (own_keys_cons session key keys xs (rw other at e)))
]

-- The entries of other sessions stay.
other_entries :
    (session s key k : ℕ) (ms : List PendingRealtime)
    → s ≢ session
    → measure (is_entry s k) (remove session key ms) ≡ measure (is_entry s k) ms
other_entries session s key k ms ne = elim (Option-cases (find session key ms)) [
  | inl absent ↦
      let r = rw absent at (measure-remove (is_entry s k) session key ms) in omega (arith, r)
  | inr (m, held) ↦
      let r = rw held at (measure-remove (is_entry s k) session key ms) in
      let same = (find-has_key session key ms held).0 in
      let zero_entry : is_entry s k m ≡ 0 =
        rw (neq-test m.session s (λ e. ne (sym e ∙ same))) refl in
      omega (arith, r, zero_entry)
]

-- What the loop of `forget_session` leaves.
record Removed (session : ℕ) (q q' : LatestQueue) : Type 0 where
  pub books : Books q'
  pub limits : Limits q'
  pub same_order : q'.order ≡ q.order
  pub removed_limits : limits_of q' ≡ limits_of q
  pub none_left : own_keys session q'.pending ≡ []
  pub others :
      (s k : ℕ) → s ≢ session → measure (is_entry s k) q'.pending ≡ measure (is_entry s k) q.pending
  pub others_found : (s k : ℕ) → s ≢ session → find s k q'.pending ≡ find s k q.pending

remove_keys-Removed :
    (session : ℕ) (keys : List ℕ) (q : LatestQueue)
    → Books q
    → Limits q
    → own_keys session q.pending ≡ keys
    → (q' : LatestQueue) × (remove_keys session keys q ≡ some q') × Removed session q q'
unfolding remove_keys
remove_keys-Removed session [] q books limits e = (
  q,
  refl,
  record {
    books = books;
    limits = limits;
    same_order = refl;
    removed_limits = refl;
    none_left = e;
    others = λ s k ne. refl;
    others_found = λ s k ne. refl;
  },
)
remove_keys-Removed session (key ∷ keys) q books limits e =
    let ((m, held), left) = own_keys_cons session key keys q.pending e in
    let q1 = record q { pending = remove session key q.pending } in
    let r = release_lem m q1 (remove-Owing q session key q.order books held) in
    let q2 =
      with_entry q1 (measure one q1.pending) (measure reserved_bytes q1.pending) m.session r.0 in
    let (q', runs, rest) =
      remove_keys-Removed session keys q2 r.1.1
        (remove-Limits q q2 session key limits refl refl refl refl refl) left in
    (
      q',
      rw (held, remove_keys, r.1.0) runs,
      record {
        books = rest.books;
        limits = rest.limits;
        same_order = rest.same_order;
        removed_limits = rest.removed_limits;
        none_left = rest.none_left;
        others = λ s k ne. rest.others s k ne ∙ other_entries session s key k q.pending ne;
        others_found = λ s k ne.
            let other : (session == s && key == k) ≡ false =
              rw (neq-test session s (λ e. ne (sym e))) refl in
            rest.others_found s k ne ∙ find-remove_other session key q.pending s k other;
      },
    )

-- A session without keys has no entry.
own_keys_none :
    (session key : ℕ) (ms : List PendingRealtime)
    → own_keys session ms ≡ []
    → measure (is_entry session key) ms ≡ 0
unfolding own_keys measure
own_keys_none session key [] e = refl
own_keys_none session key (x ∷ xs) e = elim (Bool-cases (x.session == session)) [
  | inl mine ↦ let e' = rw mine at e in absurd cc
  | inr other ↦ rw other (omega (arith, own_keys_none session key xs (rw other at e)))
]

count_key-keep :
    (session s k : ℕ) (order : List (ℕ × ℕ))
    → s ≢ session
    → count_key s k (keep (λ entry. not (entry.0 == session)) order) ≡ count_key s k order
unfolding count_key
count_key-keep session s k [] ne = refl
count_key-keep session s k ((a, b) ∷ order) ne = elim (Bool-cases (a == session)) [
  | inl gone ↦
      let other : (a == s) ≡ false = ground arith in
      rw (gone, other) (omega (arith, count_key-keep session s k order ne))
  | inr kept ↦ rw kept (omega (arith, count_key-keep session s k order ne))
]

count_key-keep_own :
    (session k : ℕ) (order : List (ℕ × ℕ))
    → count_key session k (keep (λ entry. not (entry.0 == session)) order) ≡ 0
unfolding count_key
count_key-keep_own session k [] = refl
count_key-keep_own session k ((a, b) ∷ order) = elim (Bool-cases (a == session)) [
  | inl gone ↦ rw gone (count_key-keep_own session k order)
  | inr kept ↦ rw kept (rw kept (omega (arith, count_key-keep_own session k order)))
]

pub forget_session-Consistent :
    (session : ℕ) (q : LatestQueue)
    → Consistent q
    → (q' : LatestQueue) × (forget_session session q
        ≡ some (length (own_keys session q.pending), q'))
      × Consistent q'
      × (own_keys session q'.pending ≡ [])
      × (q'.order ≡ keep (λ entry. not (entry.0 == session)) q.order)
      × ((s k : ℕ) → s ≢ session → find s k q'.pending ≡ find s k q.pending)
      × (limits_of q' ≡ limits_of q)
unfolding forget_session
forget_session-Consistent session q c =
    let (q', runs, rest) =
      remove_keys-Removed session (own_keys session q.pending) q c.books c.limits refl in
    (
      forgotten session (length (own_keys session q.pending)) q',
      rw runs refl,
      record {
        books = record {
          messages = rest.books.messages;
          bytes = rest.books.bytes;
          by_session = rest.books.by_session;
        };
        ordered = λ s k. elim (same-or-not s session) [
          | inl same ↦
              let none_kept = count_key-keep_own session k q'.order in
              let none_held = own_keys_none session k q'.pending rest.none_left in
              rw same (omega (arith, none_kept, none_held), omega (arith, none_kept))
          | inr other ↦
              let o = c.ordered s k in
              let kept = count_key-keep session s k q'.order other in
              let same_count = ap (count_key s k) rest.same_order in
              let held = rest.others s k other in
              (omega (arith, o.0, kept, same_count, held), omega (arith, o.1, kept, same_count))
        ];
        limits = record {
          byte_limit = rest.limits.byte_limit;
          session_limit = rest.limits.session_limit;
          key_limit = rest.limits.key_limit;
          pending_limit = rest.limits.pending_limit;
        };
      },
      rest.none_left,
      ap (keep (λ entry. not (entry.0 == session))) rest.same_order,
      rest.others_found,
      rest.removed_limits,
    )

pub clear-Consistent : (q : LatestQueue) → Consistent (clear q)
unfolding clear measure count_key
clear-Consistent q = record {
  books = record { messages = refl; bytes = refl; by_session = λ s. (refl, refl) };
  ordered = λ s k. (refl, omega arith);
  limits = record {
    byte_limit = omega arith;
    session_limit = λ s. omega arith;
    key_limit = λ s. omega arith;
    pending_limit = omega arith;
  };
}
