-- ===== src/Game/Realtime/Staging.antt =====
-- The enqueue of crates/rnet-game/src/realtime.rs against a list of messages with the limits of a configuration.
use mathlib.Core.Path.{ap₂}
use rnetlib.Prelude.{
  ℕ, ◌+◌, ◌-◌, ◌/◌, ◌^◌, ◌≤◌, ◌<◌, ◌≡◌, refl, sym, ap, ◌∙◌, arith, Bool, true, false, not, ◌&&◌,
  ◌||◌, none, some, List, [], ◌∷◌, ◌==◌, ltb, leb, min, max, if◌then◌else◌, Bool-cases,
  Option-cases, inl, inr, length, map, ==_refl, Result, ok, err, would_block, checked_add,
}
use rnetlib.Game.Realtime.{
  PendingRealtime, LatestQueue, QueueEffect, RealtimeQueueConfig, has_key, find, insert, remove,
  reserved_bytes, bytes_of, usage, exceeds, new_total, new_session, is_rejected, inserted, enqueue,
}
use rnetlib.Game.Realtime.Measures.{
  measure, measure-insert, measure-remove, find-has_key, is_entry, find-none, owned, one,
  measure-one,
}
use rnetlib.Game.Realtime.Accounts.{Consistent, count_key, Ordered, own}
use rnetlib.Game.Realtime.Insertion.{insert_bytes, insert_own_bytes, found_own}
use rnetlib.Game.Realtime.Enqueue.{insert-Ordered_new, insert-Ordered_old, used_is}
use rnetlib.Game.Realtime.Removal.{limits_of, rest-Ordered}
use rnetlib.Game.Realtime.Latest.{offer, key_of, Serves, inserted-Serves, All-Held_remove}

-- Whether a message of the session and key is in the list.
abbrev pub waits : ℕ → ℕ → List PendingRealtime → Bool
waits session key [] = false
waits session key (x ∷ xs) = has_key session key x || waits session key xs

-- The place that a message takes.
abbrev pub effect_of : PendingRealtime → List PendingRealtime → QueueEffect
effect_of m xs = if waits m.session m.key xs then QueueEffect.replaced_older else QueueEffect.queued

-- The list with the message.
abbrev pub offer_to : PendingRealtime → List PendingRealtime → List PendingRealtime
offer_to m xs = offer (effect_of m xs) m xs

-- The bytes that a message is charged.
abbrev pub staged : PendingRealtime → ℕ
staged m = length m.payload + 16

-- The list is within the limits, those of one session included.
abbrev pub within : RealtimeQueueConfig → ℕ → List PendingRealtime → Bool
within config session xs =
    leb (measure staged xs) config.max_queued_bytes
    && leb (measure (owned staged session) xs) config.max_session_queued_bytes
    && leb (measure (owned one session) xs) config.max_keys_per_session
    && leb (length xs) (min (max (config.max_queued_bytes / 16) 1) 65_536)

-- The answer to an enqueue, and the list after it.
abbrev pub answer :
    RealtimeQueueConfig → PendingRealtime → List PendingRealtime → Result QueueEffect
answer config m xs =
    if within config m.session (offer_to m xs) then ok (effect_of m xs) else err would_block

abbrev pub admit :
    RealtimeQueueConfig → PendingRealtime → List PendingRealtime → List PendingRealtime
admit config m xs = if within config m.session (offer_to m xs) then offer_to m xs else xs

no_entries :
    (ms : List PendingRealtime)
    → ((s k : ℕ) → measure (is_entry s k) ms ≡ 0)
    → (f : PendingRealtime → ℕ) → measure f ms ≡ 0
unfolding measure
no_entries [] z f = refl
no_entries (m ∷ ms) z f =
    let here = rw (==_refl m.session, ==_refl m.key) at (z m.session m.key) in
    absurd (omega (arith, here))

-- A figure of the list is that of the pending entries.
sums :
    (xs : List PendingRealtime) (q : LatestQueue)
    → Ordered q
    → Serves xs q
    → (f : PendingRealtime → ℕ) → measure f xs ≡ measure f q.pending
unfolding measure count_key
sums [] q ordered serves f =
    let e : (s k : ℕ) → measure (is_entry s k) q.pending ≡ 0 =
      λ s k. sym (ordered s k).0 ∙ ap (count_key s k) (sym serves.keys) in
    sym (no_entries q.pending e f)
sums (x ∷ xs) q ordered serves f =
    let (held, others) = serves.held in
    let once =
      rw (sym serves.keys, ==_refl x.session, ==_refl x.key) at (ordered x.session x.key).1 in
    let q₁ : LatestQueue = record q {
      order = map key_of xs;
      pending = remove x.session x.key q.pending;
    } in
    let serves₁ : Serves xs q₁ = record {
      keys = refl;
      held = All-Held_remove x.session x.key q.pending xs (omega (arith, once)) others;
    } in
    let ordered₁ : Ordered q₁ =
      rest-Ordered q x.session x.key (map key_of xs) (sym serves.keys) ordered held in
    let r = rw held at (measure-remove f x.session x.key q.pending) in
    omega (arith, sums xs q₁ ordered₁ serves₁ f, r)

waits-measure :
    (s k : ℕ) (xs : List PendingRealtime) → waits s k xs ≡ not (measure (is_entry s k) xs == 0)
unfolding measure
waits-measure s k [] = refl
waits-measure s k (x ∷ xs) = elim (Bool-cases (has_key s k x)) [
  | inl here ↦ rw here (ground arith)
  | inr there ↦
      let e : 0 + measure (is_entry s k) xs ≡ measure (is_entry s k) xs = omega arith in
      rw there (rw e (waits-measure s k xs))
]

tests :
    {a a' b b' e e' : Bool} (c d : Bool)
    → a ≡ a'
    → b ≡ b'
    → e ≡ e'
    → (a || b || e && c || e && d) ≡ (a' || b' || e' && c || e' && d)
tests c d p q r = rw (p, q, r) refl

charged : (old : PendingRealtime) → (bytes_of (some old) == 0) ≡ false
unfolding reserved_bytes
charged old = ground arith

exceeds-ltb : (a b limit : ℕ) → limit < 2 ^ 64 → exceeds (checked_add a b) limit ≡ ltb limit (a + b)
exceeds-ltb a b limit h = ground arith

-- The test of `enqueue` on its four sums, by whether the map held the key.
new_key_test :
    (t mt s ms keys mk n mp k' n' : ℕ)
    → k' ≡ keys + 1
    → n' ≡ n + 1
    → (ltb mt t || ltb ms s || true && leb mk keys || true && leb mp n)
      ≡ not (leb t mt && leb s ms && leb k' mk && leb n' mp)
new_key_test t mt s ms keys mk n mp k' n' e e' =
    rw (e, e', over t mt, over s ms, full keys mk, full n mp)
      (de_morgan (leb t mt) (leb s ms) (leb (keys + 1) mk) (leb (n + 1) mp))
  where
    over : (a b : ℕ) → ltb b a ≡ not (leb a b)
    over a b = ground arith

    full : (a b : ℕ) → leb b a ≡ not (leb (a + 1) b)
    full a b = ground arith

    de_morgan : (a b c d : Bool) → (not a || not b || not c || not d) ≡ not (a && b && c && d)
    de_morgan a b c d = ground arith

old_key_test :
    (t mt s ms keys mk n mp k' n' : ℕ)
    → k' ≤ mk
    → n' ≤ mp
    → (ltb mt t || ltb ms s || false && leb mk keys || false && leb mp n)
      ≡ not (leb t mt && leb s ms && leb k' mk && leb n' mp)
old_key_test t mt s ms keys mk n mp k' n' h h' =
    rw (over t mt, over s ms, under k' mk h, under n' mp h') (de_morgan (leb t mt) (leb s ms))
  where
    over : (a b : ℕ) → ltb b a ≡ not (leb a b)
    over a b = ground arith

    under : (a b : ℕ) → a ≤ b → leb a b ≡ true
    under a b h = ground arith

    de_morgan : (a b : Bool) → (not a || not b || false || false) ≡ not (a && b && true && true)
    de_morgan a b = ground arith

module _ (m : PendingRealtime) (q : LatestQueue) (xs : List PendingRealtime) (c : Consistent q)
    (serves : Serves xs q) where
  pub not-waits : find m.session m.key q.pending ≡ none → waits m.session m.key xs ≡ false
  not-waits absent =
      let z = find-none m.session m.key q.pending absent in
      let e = sums xs q c.ordered serves (is_entry m.session m.key) in
      waits-measure m.session m.key xs ∙ ap (λ n. not (n == 0)) (e ∙ z)

  pub held-waits :
      {old : PendingRealtime}
      → find m.session m.key q.pending ≡ some old
      → waits m.session m.key xs ≡ true
  held-waits {old} held =
      let same = find-has_key m.session m.key q.pending held in
      let e = sums xs q c.ordered serves (is_entry m.session m.key) in
      let r = rw held at (measure-remove (is_entry m.session m.key) m.session m.key q.pending) in
      let here : is_entry m.session m.key old ≡ 1 =
        rw (same.0, same.1, ==_refl m.session, ==_refl m.key) refl in
      let one_at_least : 1 ≤ measure (is_entry m.session m.key) xs = omega (arith, e, r, here) in
      waits-measure m.session m.key xs ∙ nonzero _ one_at_least
    where
      nonzero : (n : ℕ) → 1 ≤ n → not (n == 0) ≡ true
      nonzero n h = ground arith

  -- The figures of the list with the message are those of the map after the insertion.
  offer-sums :
      (f : PendingRealtime → ℕ) → measure f (offer_to m xs) ≡ measure f (insert m q.pending)
  offer-sums f = elim (Option-cases (find m.session m.key q.pending)) [
    | inl absent ↦ rw (not-waits absent) (
        sums (offer QueueEffect.queued m xs) (inserted m q 0 0 none).1
          (insert-Ordered_new m q q.counters 0 0 c.ordered absent)
          (inserted-Serves m q 0 0 xs none absent serves) f)
    | inr (old, held) ↦ rw (held-waits held) (
        sums (offer QueueEffect.replaced_older m xs) (inserted m q 0 0 (some old)).1
          (insert-Ordered_old m q q.counters 0 0 c.ordered held)
          (inserted-Serves m q 0 0 xs (some old) held serves) f)
  ]

  length-offer : length (offer_to m xs) ≡ measure one (insert m q.pending)
  length-offer = sym (measure-one (offer_to m xs)) ∙ offer-sums one

  -- The limits of the queue are those of the configuration, which are of 64 bits.
  module _ (config : RealtimeQueueConfig) (word : config.max_queued_bytes < 2 ^ 64)
      (word' : config.max_session_queued_bytes < 2 ^ 64)
      (total_limit : q.max_total_bytes ≡ config.max_queued_bytes)
      (session_limit : q.max_session_bytes ≡ config.max_session_queued_bytes)
      (key_limit : q.max_keys_per_session ≡ config.max_keys_per_session)
      (pending_limit : q.max_pending_keys ≡ min (max (config.max_queued_bytes / 16) 1) 65_536) where
    total-test :
        exceeds (new_total m q) q.max_total_bytes
        ≡ ltb config.max_queued_bytes (measure staged (offer_to m xs))
    unfolding reserved_bytes
    total-test =
        let old = bytes_of (find m.session m.key q.pending) in
        ap (exceeds (new_total m q)) total_limit
        ∙ exceeds-ltb (q.counters.queued_bytes - old) (reserved_bytes m) config.max_queued_bytes
            word
        ∙ ap (λ n. ltb config.max_queued_bytes (n - old + reserved_bytes m)) c.books.bytes
        ∙ ap (ltb config.max_queued_bytes) (sym (insert_bytes m q) ∙ sym (offer-sums staged))

    session-test :
        exceeds (new_session m q) q.max_session_bytes
        ≡ ltb config.max_session_queued_bytes (measure (owned staged m.session) (offer_to m xs))
    unfolding reserved_bytes
    session-test =
        let old = bytes_of (find m.session m.key q.pending) in
        let limit = config.max_session_queued_bytes in
        ap (exceeds (new_session m q)) session_limit
        ∙ exceeds-ltb ((usage (q.session_usage m.session)).1 - old) (reserved_bytes m) limit word'
        ∙ ap (λ n. ltb limit (n - old + reserved_bytes m)) (used_is m q c).1
        ∙ ap (ltb limit) (sym (insert_own_bytes m q) ∙ sym (offer-sums (owned staged m.session)))

    rejected_is : is_rejected m q ≡ not (within config m.session (offer_to m xs))
    unfolding is_rejected
    rejected_is =
        let t = measure staged (offer_to m xs) in
        let s = measure (owned staged m.session) (offer_to m xs) in
        let k' = measure (owned one m.session) (offer_to m xs) in
        let n' = length (offer_to m xs) in
        let keys = (usage (q.session_usage m.session)).0 in
        let n = length q.pending in
        let count = offer-sums (owned one m.session) in
        let used = (used_is m q c).0 in
        let own_one = own one m in
        let entries = measure-one q.pending in
        let limits =
          ap₂
            (λ a b. not (
              leb t config.max_queued_bytes
              && leb s config.max_session_queued_bytes
              && leb k' a
              && leb n' b))
            key_limit pending_limit in
        elim (Option-cases (find m.session m.key q.pending)) [
          | inl absent ↦
              let fresh : (bytes_of (find m.session m.key q.pending) == 0) ≡ true =
                rw absent refl in
              let i = rw absent at (measure-insert (owned one m.session) m q.pending) in
              let j = rw absent at (measure-insert one m q.pending) in
              tests (leb q.max_keys_per_session keys) (leb q.max_pending_keys n) total-test
                session-test fresh
              ∙ new_key_test t config.max_queued_bytes s config.max_session_queued_bytes keys
                  q.max_keys_per_session n q.max_pending_keys k' n'
                  (omega (arith, count, used, own_one, i)) (omega (arith, length-offer, entries, j))
              ∙ limits
          | inr (old, held) ↦
              let kept : (bytes_of (find m.session m.key q.pending) == 0) ≡ false =
                ap (λ o. bytes_of o == 0) held ∙ charged old in
              let i =
                rw (found_own m q one, held) at
                  (measure-insert (owned one m.session) m q.pending) in
              let j = rw held at (measure-insert one m q.pending) in
              let k_limit = c.limits.key_limit m.session in
              let n_limit = c.limits.pending_limit in
              tests (leb q.max_keys_per_session keys) (leb q.max_pending_keys n) total-test
                session-test kept
              ∙ old_key_test t config.max_queued_bytes s config.max_session_queued_bytes keys
                  q.max_keys_per_session n q.max_pending_keys k' n'
                  (omega (arith, count, own_one, i, k_limit))
                  (omega (arith, length-offer, j, n_limit))
              ∙ limits
        ]

    -- The answer of `enqueue` and the list after it.
    pub enqueue-answer :
        ((enqueue m q).0 ≡ answer config m xs)
        × Serves (admit config m xs) (enqueue m q).1
        × (limits_of (enqueue m q).1 ≡ limits_of q)
    unfolding enqueue
    enqueue-answer = elim (Bool-cases (within config m.session (offer_to m xs))) [
      | inr outside ↦
          let full : is_rejected m q ≡ true = rejected_is ∙ ap not outside in
          rw (full, outside) (refl, record { keys = serves.keys; held = serves.held }, refl)
      | inl inside ↦
          let passes : is_rejected m q ≡ false = rejected_is ∙ ap not inside in
          rw (passes, inside)
            (elim (Option-cases (find m.session m.key q.pending)) [
              | inl absent ↦
                  rw (absent, not-waits absent)
                    (refl, inserted-Serves m q _ _ xs none absent serves, refl)
              | inr (old, held) ↦
                  rw (held, held-waits held)
                    (refl, inserted-Serves m q _ _ xs (some old) held serves, refl)
            ])
    ]
