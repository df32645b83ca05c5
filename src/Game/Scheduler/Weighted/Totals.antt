-- ===== src/Game/Scheduler/Weighted/Totals.antt =====
-- What waits in all four classes of crates/rnet-game/src/scheduler.rs, measured, and what a session uses.
use mathlib.Core.Path.{fun_ext}
use rnetlib.Prelude.{
  ℕ, zero, suc, ◌+◌, ◌<◌, ◌≡◌, ◌≢◌, refl, sym, ap, ◌∙◌, arith, some, List, [], ◌∷◌, All, ◌==◌,
  if◌then◌else◌, same-or-not, neq-test, ==_refl, inl, inr, length, get_elem?, set, length-set,
  get_elem?_lem, All-get_elem?, All-set,
}
use rnetlib.Game.Scheduler.{
  ScheduledMessage, GamePriority, FairPriorityQueue, index, push, remove_session,
}
use rnetlib.Game.Scheduler.Fair.{IsValid, push-IsValid, backlog}
use rnetlib.Game.Scheduler.Weight.{sum_of, sum_at, weight, weight-push}
use rnetlib.Game.Scheduler.Removal.{
  owned, weight-owned, weight-remove_session, remove_session-IsValid, sum_at_zero,
}
use rnetlib.Game.Scheduler.Weighted.{push_class, remove_all}

unfoldable pub total : (ScheduledMessage → ℕ) → List FairPriorityQueue → ℕ
total f [] = 0
total f (fair ∷ queues) = weight f fair + total f queues

pub total-set :
    (f : ScheduledMessage → ℕ) (queues : List FairPriorityQueue) (i : ℕ)
    (fair fair' : FairPriorityQueue)
    → get_elem? queues i ≡ some fair
    → total f (set queues i fair') + weight f fair ≡ total f queues + weight f fair'
unfolding total
total-set f [] i fair fair' h = absurd (cc)
total-set f (x ∷ queues) zero fair fair' h = let e : x ≡ fair = cc in omega (arith, ap (weight f) e)
total-set f (x ∷ queues) (suc i) fair fair' h = omega (arith, total-set f queues i fair fair' h)

index-lt : (p : GamePriority) → index p < 4
index-lt GamePriority.low = omega arith
index-lt GamePriority.normal = omega arith
index-lt GamePriority.high = omega arith
index-lt GamePriority.critical = omega arith

-- A message is put into one class.
pub push_class_lem :
    (m : ScheduledMessage) (queues : List FairPriorityQueue)
    → length queues ≡ 4
    → All IsValid queues
    → (length (push_class m queues) ≡ 4)
      × All IsValid (push_class m queues)
      × ((f : ScheduledMessage → ℕ) → total f (push_class m queues) ≡ total f queues + f m)
push_class_lem m queues four a =
    let (fair, found) =
      get_elem?_lem queues (index m.priority) (omega (arith, index-lt m.priority, four)) in
    let v : IsValid fair = All-get_elem? IsValid queues (index m.priority) a found in
    rw found (
      length-set queues (index m.priority) (push m fair) ∙ four,
      All-set IsValid queues (index m.priority) (push m fair) a (push-IsValid m fair v),
      (λ f. omega (
        arith,
        total-set f queues (index m.priority) fair (push m fair) found,
        weight-push f m fair v,
      )),
    )

-- A session leaves every class, and what leaves is what it had there.
pub remove_all_lem :
    (session : ℕ) (queues : List FairPriorityQueue)
    → All IsValid queues
    → (length (remove_all session queues).1 ≡ length queues)
      × All IsValid (remove_all session queues).1
      × ((f : ScheduledMessage → ℕ)
          → total f (remove_all session queues).1 + total (owned f session) queues ≡ total f queues)
unfolding remove_all total
remove_all_lem session [] a = (refl, tt, (λ f. omega arith))
remove_all_lem session (fair ∷ queues) a =
    let (same, valid, less) = remove_all_lem session queues a.1 in
    (
      ap suc same,
      (remove_session-IsValid session fair a.0, valid),
      (λ f. omega (
        arith,
        less f,
        weight-remove_session session fair a.0 f,
        weight-owned f session fair a.0,
      )),
    )

sum_of_zero : (ms : List ScheduledMessage) → sum_of (λ m. 0) ms ≡ 0
unfolding sum_of
sum_of_zero [] = refl
sum_of_zero (m ∷ ms) = omega (arith, sum_of_zero ms)

weight_zero : (q : FairPriorityQueue) → weight (λ m. 0) q ≡ 0
unfolding weight
weight_zero q =
    ap (λ g. sum_at g q.sessions) (fun_ext (λ s. sum_of_zero (backlog q s)))
    ∙ sum_at_zero q.sessions

total_zero : (queues : List FairPriorityQueue) → total (λ m. 0) queues ≡ 0
unfolding total
total_zero [] = refl
total_zero (fair ∷ queues) = omega (arith, weight_zero fair, total_zero queues)

owned_self :
    (f : ScheduledMessage → ℕ) (session : ℕ) (m : ScheduledMessage)
    → owned (owned f session) session m ≡ owned f session m
owned_self f session m = ground arith

owned_other :
    (f : ScheduledMessage → ℕ) (session s : ℕ) (m : ScheduledMessage)
    → s ≢ session
    → owned (owned f s) session m ≡ 0
owned_other f session s m ne = ground arith

-- What the sessions have in the classes after one of them is forgotten.
pub remove_all-owned :
    (f : ScheduledMessage → ℕ) (session s : ℕ) (queues : List FairPriorityQueue)
    → All IsValid queues
    → total (owned f s) (remove_all session queues).1
      ≡ (if session == s then 0 else total (owned f s) queues)
remove_all-owned f session s queues a =
    let less = (remove_all_lem session queues a).2 (owned f s) in
    elim (same-or-not s session) [
      | inl e ↦
          let same : owned (owned f session) session ≡ owned f session =
            fun_ext (λ m. owned_self f session m) in
          rw (e, ==_refl session) (omega (arith, rw e at less, ap (λ g. total g queues) same))
      | inr ne ↦
          let nothing : owned (owned f s) session ≡ (λ m. 0) =
            fun_ext (λ m. owned_other f session s m ne) in
          rw (neq-test session s (λ e. ne (sym e)))
            (omega (arith, less, ap (λ g. total g queues) nothing, total_zero queues))
    ]

pub sum_of_one : (ms : List ScheduledMessage) → sum_of (λ m. 1) ms ≡ length ms
unfolding sum_of
sum_of_one [] = refl
sum_of_one (m ∷ ms) = omega (arith, sum_of_one ms)

-- The number that `remove_all` returns.
pub remove_all_count :
    (session : ℕ) (queues : List FairPriorityQueue)
    → All IsValid queues
    → (remove_all session queues).0 ≡ total (owned (λ m. 1) session) queues
unfolding remove_all total remove_session
remove_all_count session [] a = refl
remove_all_count session (fair ∷ queues) a = omega (
  arith,
  remove_all_count session queues a.1,
  weight-owned (λ m. 1) session fair a.0,
  sum_of_one (backlog fair session),
)
