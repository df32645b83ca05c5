-- ===== src/Game/Scheduler/Weighted/Service.antt =====
-- `pop_next` of crates/rnet-game/src/scheduler.rs: it ends, takes no message but the one that it returns
-- and those that have expired, and comes back empty only if nothing waits.
use rnetlib.Prelude.{
  ℕ, zero, suc, ◌+◌, ◌≤◌, ◌<◌, ◌≡◌, refl, ap, ◌∙◌, arith, true, false, Option, none, some, List, [],
  ◌∷◌, All, inl, inr, Bool-cases,
}
use rnetlib.Game.Scheduler.{ScheduledMessage}
use rnetlib.Game.Scheduler.Weight.{sum_of}
use rnetlib.Game.Scheduler.Weighted.{
  ScheduledQueue, search_classes, is_expired, drop_expired, release, pop_next,
}
use rnetlib.Game.Scheduler.Weighted.Totals.{total}
use rnetlib.Game.Scheduler.Weighted.Accounts.{Accounts, one}
use rnetlib.Game.Scheduler.Weighted.Settlement.{drop_expired-Accounts}
use rnetlib.Game.Scheduler.Weighted.Search.{found, nothing, search_lem, total_idle}

abbrev pub returned : Option ScheduledMessage → List ScheduledMessage
returned none = []
returned (some m) = m ∷ []

-- What `pop_next` comes to.
pub data Popped (held : List ScheduledMessage) (fuel now : ℕ) (q : ScheduledQueue) : Type 0 where
  forwards :
      (m : ScheduledMessage) (dropped : List ScheduledMessage) (q' : ScheduledQueue)
      → pop_next fuel now q ≡ some (some m, q')
      → Accounts (m ∷ held) q'
      → is_expired now m.expires_at ≡ false
      → All (λ d. is_expired now d.expires_at ≡ true) dropped
      → ((f : ScheduledMessage → ℕ) → total f q.queues ≡ sum_of f dropped + f m + total f q'.queues)
      → Popped held fuel now q
  empties :
      (dropped : List ScheduledMessage) (q' : ScheduledQueue)
      → pop_next fuel now q ≡ some (none, q')
      → Accounts held q'
      → All (λ d. is_expired now d.expires_at ≡ true) dropped
      → ((f : ScheduledMessage → ℕ) → total f q.queues ≡ sum_of f dropped + total f q'.queues)
      → total one q'.queues ≡ 0
      → Popped held fuel now q
  exhausted : pop_next fuel now q ≡ none → fuel ≤ total one q.queues → Popped held fuel now q

after_drop :
    (held : List ScheduledMessage) (fuel now : ℕ) (q q₁ : ScheduledQueue) (m : ScheduledMessage)
    → search_classes 15 q ≡ some (some m, q₁)
    → ((f : ScheduledMessage → ℕ) → total f q.queues ≡ f m + total f q₁.queues)
    → is_expired now m.expires_at ≡ true
    → Popped held fuel now (drop_expired m q₁)
    → Popped held (suc fuel) now q
unfolding pop_next sum_of release
after_drop held fuel now q q₁ m e less late (forwards m' dropped q' r a fresh old all) =
    forwards m' (m ∷ dropped) q' (rw (e, pop_next) (rw late r)) a fresh (late, old)
      (λ f. omega (arith, less f, all f))
after_drop held fuel now q q₁ m e less late (empties dropped q' r a old all zero_left) =
    empties (m ∷ dropped) q' (rw (e, pop_next) (rw late r)) a (late, old)
      (λ f. omega (arith, less f, all f)) zero_left
after_drop held fuel now q q₁ m e less late (exhausted r out) =
    exhausted (rw (e, pop_next) (rw late r)) (omega (arith, less one, out))

pub pop_next-Popped :
    (held : List ScheduledMessage) (fuel now : ℕ) (q : ScheduledQueue)
    → Accounts held q
    → Popped held fuel now q
unfolding pop_next sum_of
pop_next-Popped held zero now q a = exhausted refl (omega arith)
pop_next-Popped held (suc fuel) now q a = elim (search_lem held 15 q a) [
  | found m q₁ e t ↦ elim (Bool-cases (is_expired now m.expires_at)) [
    | inl late ↦ after_drop held fuel now q q₁ m e t.less late (
        pop_next-Popped held fuel now (drop_expired m q₁)
          (drop_expired-Accounts m held q₁ t.accounts))
    | inr fresh ↦
        forwards m [] q₁ (rw (e, pop_next) (rw fresh refl)) t.accounts fresh tt
          (λ f. omega (arith, t.less f))
  ]
  | nothing q₁ e a₁ same idle ↦
      empties [] q₁ (rw (e, pop_next) refl) a₁ tt (λ f. omega (arith, ap (total f) same))
        (ap (total one) same ∙ total_idle q.queues q.cursor a.four a.at_class idle)
]

-- With more fuel than messages wait, the search for the next message does not panic and ends. It takes a
-- message that has not expired, or none, and then nothing waits. What else it takes has expired. The
-- counters and the budgets stay exact, with the message it returns still counted, and every message that
-- waited is dropped, returned or still waiting: any figure summed over the three is what it was before.
pub pop_next_ends :
    (fuel now : ℕ) (q : ScheduledQueue)
    → Accounts [] q
    → q.counters.queued_messages < fuel
    → (dropped : List ScheduledMessage) × (r : Option ScheduledMessage) × (q' : ScheduledQueue)
      × (pop_next fuel now q ≡ some (r, q'))
      × Accounts (returned r) q'
      × All (λ d. is_expired now d.expires_at ≡ true) dropped
      × All (λ m. is_expired now m.expires_at ≡ false) (returned r)
      × ((f : ScheduledMessage → ℕ)
          → total f q.queues ≡ sum_of f dropped + sum_of f (returned r) + total f q'.queues)
      × (r ≡ none → total one q'.queues ≡ 0)
unfolding sum_of
pop_next_ends fuel now q a enough = elim (pop_next-Popped [] fuel now q a) [
  | forwards m dropped q' r a' fresh old all ↦ (
    dropped,
    some m,
    q',
    r,
    a',
    old,
    (fresh, tt),
    (λ f. omega (arith, all f)),
    (λ h. absurd (cc)),
  )
  | empties dropped q' r a' old all zero_left ↦
      (dropped, none, q', r, a', old, tt, (λ f. omega (arith, all f)), (λ h. zero_left))
  | exhausted r out ↦ absurd (omega (arith, a.messages, enough, out))
]
