-- ===== src/Game/Realtime/Insertion.antt =====
-- The enqueue of crates/rnet-game/src/realtime.rs keeps the accounts, the order and the limits.
use rnetlib.Prelude.{
  ℕ, ◌+◌, ◌-◌, ◌≤◌, ◌<◌, ◌≡◌, ◌≢◌, refl, sym, ◌∙◌, arith, Bool, true, false, ◌&&◌, ◌||◌, Option,
  none, some, List, ◌==◌, leb, Option-cases, inl, inr, length, checked_add,
}
use rnetlib.Game.Realtime.{
  PendingRealtime, LatestQueue, find, insert, reserved_bytes, bytes_of, usage, is_rejected,
  new_total, new_session, exceeds, or_zero,
}
use rnetlib.Game.Realtime.Measures.{
  measure, of_found, measure-insert, measure-remove, find-has_key, owned,
}
use rnetlib.Game.Realtime.Accounts.{Entry, own, foreign}

exceeds_not :
    (a b limit : ℕ)
    → exceeds (checked_add a b) limit ≡ false
    → (or_zero (checked_add a b) ≡ a + b) × (a + b ≤ limit)
exceeds_not a b limit h = ground arith

pub usage-Entry :
    (o : Option (ℕ × ℕ)) (keys bytes : ℕ)
    → Entry o keys bytes
    → ((usage o).0 ≡ keys) × ((usage o).1 ≡ bytes)
usage-Entry none keys bytes e = (sym e.0, sym e.1)
usage-Entry (some (k, b)) keys bytes e = (e.0, e.1)

-- The test of `enqueue` over its four conditions.
not-rejected :
    (c d e f g : Bool)
    → (c || d || e && f || e && g) ≡ false
    → (c ≡ false) × (d ≡ false) × (e ≡ true → (f ≡ false) × (g ≡ false))
not-rejected c d e f g h = ground arith

-- What the sums of `enqueue` are when its test passes.
pub record Admitted (m : PendingRealtime) (q : LatestQueue) (total session_total : ℕ) : Type 0 where
  pub total_fits : total ≤ q.max_total_bytes
  pub session_fits : session_total ≤ q.max_session_bytes
  pub total_is : or_zero (new_total m q) ≡ total
  pub session_is : or_zero (new_session m q) ≡ session_total
  pub room :
      find m.session m.key q.pending ≡ none
      → ((usage (q.session_usage m.session)).0 < q.max_keys_per_session)
        × (length q.pending < q.max_pending_keys)

pub admitted :
    (m : PendingRealtime) (q : LatestQueue)
    → is_rejected m q ≡ false
    → let old = bytes_of (find m.session m.key q.pending) in
      Admitted m q
        (q.counters.queued_bytes - old + reserved_bytes m)
        ((usage (q.session_usage m.session)).1 - old + reserved_bytes m)
unfolding is_rejected
admitted m q passes =
    let old = bytes_of (find m.session m.key q.pending) in
    let total = q.counters.queued_bytes - old in
    let session_total = (usage (q.session_usage m.session)).1 - old in
    let tests =
      not-rejected (exceeds (new_total m q) q.max_total_bytes)
        (exceeds (new_session m q) q.max_session_bytes) (old == 0)
        (leb q.max_keys_per_session (usage (q.session_usage m.session)).0)
        (leb q.max_pending_keys (length q.pending)) passes in
    let t = exceeds_not total (reserved_bytes m) q.max_total_bytes tests.0 in
    let s = exceeds_not session_total (reserved_bytes m) q.max_session_bytes tests.1 in
    record {
      total_fits = t.1;
      session_fits = s.1;
      total_is = t.0;
      session_is = s.0;
      room = λ absent.
          let empty : (old == 0) ≡ true = rw absent refl in
          let r = tests.2 empty in (ground (arith, r), ground (arith, r));
    }

-- The sums of `enqueue` are those of the pending entries once the message is among them.
sum-insert :
    (f : PendingRealtime → ℕ) (m : PendingRealtime) (ms : List PendingRealtime) (old : ℕ)
    → of_found f (find m.session m.key ms) ≡ old
    → measure f (insert m ms) ≡ measure f ms - old + f m
sum-insert f m ms old e = omega (arith, measure-insert f m ms, measure-remove f m.session m.key ms)

module _ (m : PendingRealtime) (q : LatestQueue) where
  found_bytes :
      of_found reserved_bytes (find m.session m.key q.pending)
      ≡ bytes_of (find m.session m.key q.pending)
  found_bytes = elim (Option-cases (find m.session m.key q.pending)) [
    | inl absent ↦ rw absent refl
    | inr (old, held) ↦ rw held refl
  ]

  -- What the map held under the key of `m` is of the session of `m`.
  pub found_own :
      (f : PendingRealtime → ℕ)
      → of_found (owned f m.session) (find m.session m.key q.pending)
        ≡ of_found f (find m.session m.key q.pending)
  found_own f = elim (Option-cases (find m.session m.key q.pending)) [
    | inl absent ↦ rw absent refl
    | inr (old, held) ↦
        let same = (find-has_key m.session m.key q.pending held).0 in
        rw held (rw (← same) (own f old))
  ]

  pub found_foreign :
      (f : PendingRealtime → ℕ) (s : ℕ)
      → s ≢ m.session
      → of_found (owned f s) (find m.session m.key q.pending) ≡ 0
  found_foreign f s ne = elim (Option-cases (find m.session m.key q.pending)) [
    | inl absent ↦ rw absent refl
    | inr (old, held) ↦
        let same = (find-has_key m.session m.key q.pending held).0 in
        rw held (omega (arith, foreign f s old 0 (λ e. ne (e ∙ same))))
  ]

  pub insert_foreign :
      (f : PendingRealtime → ℕ) (s : ℕ)
      → s ≢ m.session
      → measure (owned f s) (insert m q.pending) ≡ measure (owned f s) q.pending
  insert_foreign f s ne =
      omega
        (arith, measure-insert (owned f s) m q.pending, found_foreign f s ne, foreign f s m 0 ne)

  pub insert_bytes :
      measure reserved_bytes (insert m q.pending)
      ≡ measure reserved_bytes q.pending
        - bytes_of (find m.session m.key q.pending)
        + reserved_bytes m
  insert_bytes = sum-insert reserved_bytes m q.pending _ found_bytes

  pub insert_own_bytes :
      measure (owned reserved_bytes m.session) (insert m q.pending)
      ≡ measure (owned reserved_bytes m.session) q.pending
        - bytes_of (find m.session m.key q.pending)
        + reserved_bytes m
  insert_own_bytes = rw (own reserved_bytes m) at (
      sum-insert (owned reserved_bytes m.session) m q.pending _
        (found_own reserved_bytes ∙ found_bytes))
