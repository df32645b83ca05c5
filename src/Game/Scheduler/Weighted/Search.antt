-- ===== src/Game/Scheduler/Weighted/Search.antt =====
-- One search through the classes of crates/rnet-game/src/scheduler.rs, along the weighted order.
use mathlib.Core.Path.{fun_ext}
use rnetlib.Prelude.{
  ℕ, zero, suc, ◌+◌, ◌-◌, ◌%◌, ◌<◌, ◌≡◌, refl, ap, ◌∙◌, arith, Option, none, some, List, [], ◌∷◌,
  inl, inr, length, length-set, get_elem?, set, get_elem?_lem, All-get_elem?, All-set,
}
use rnetlib.Game.Scheduler.{ScheduledMessage, FairPriorityQueue, reserved_bytes, pop}
use rnetlib.Game.Scheduler.Fair.{IsValid, backlog}
use rnetlib.Game.Scheduler.Rounds.{Served, pop_lem}
use rnetlib.Game.Scheduler.Weight.{sum_of, sum_at, weight, weight-Served}
use rnetlib.Game.Scheduler.Removal.{owned, sum_at_zero}
use rnetlib.Game.Scheduler.Weighted.{ScheduledQueue, weighted_order, search_classes}
use rnetlib.Game.Scheduler.Weighted.Totals.{total, total-set}
use rnetlib.Game.Scheduler.Weighted.Accounts.{Accounts, one}

-- The class that the cursor points to.
unfoldable pub class_at : ℕ → ℕ
class_at cursor = elim (get_elem? weighted_order cursor) [ none ↦ 0 | some priority ↦ priority ]

class_at_lem :
    (cursor priority : ℕ)
    → get_elem? weighted_order cursor ≡ some priority
    → class_at cursor ≡ priority
unfolding class_at
class_at_lem cursor priority here = rw here refl

abbrev pub weight_at : Option FairPriorityQueue → ℕ
weight_at none = 0
weight_at (some fair) = weight one fair

weight_idle :
    (f : ScheduledMessage → ℕ) (fair : FairPriorityQueue)
    → ((session : ℕ) → backlog fair session ≡ [])
    → weight f fair ≡ 0
unfolding weight sum_of
weight_idle f fair nothing =
    ap (λ g. sum_at g fair.sessions) (fun_ext (λ s. ap (sum_of f) (nothing s)))
    ∙ sum_at_zero fair.sessions

classes_below :
    (cursor : ℕ) {priority : ℕ} → get_elem? weighted_order cursor ≡ some priority → priority < 4
classes_below cursor h = All-get_elem? (λ c. c < 4) weighted_order cursor (omega arith) h

-- What is taken from a class is what it had before.
pub record Taken (m : ScheduledMessage) (held : List ScheduledMessage) (q q' : ScheduledQueue)
    : Type 0 where
  pub accounts : Accounts (m ∷ held) q'
  pub less : (f : ScheduledMessage → ℕ) → total f q.queues ≡ f m + total f q'.queues

taken :
    (held : List ScheduledMessage) (q : ScheduledQueue) (priority session cursor : ℕ)
    (rest : List ℕ) (fair fair' : FairPriorityQueue) (m : ScheduledMessage)
    → Accounts held q
    → cursor < 15
    → get_elem? q.queues priority ≡ some fair
    → fair.sessions ≡ session ∷ rest
    → Served fair session rest m fair'
    → Taken m held q (record q { cursor = cursor; queues = set q.queues priority fair' })
unfolding sum_of
taken held q priority session cursor rest fair fair' m a small found order s =
    let v : IsValid fair = All-get_elem? IsValid q.queues priority a.each found in
    let less : (f : ScheduledMessage → ℕ)
        → total f q.queues ≡ f m + total f (set q.queues priority fair') =
      λ f. omega (
        arith,
        total-set f q.queues priority fair fair' found,
        weight-Served f fair session rest v order s,
      ) in
    record {
      accounts = record {
        four = length-set q.queues priority fair' ∙ a.four;
        at_class = small;
        each = All-set IsValid q.queues priority fair' a.each s.valid;
        messages = omega (arith, less one, a.messages);
        bytes = omega (arith, less reserved_bytes, a.bytes);
        by_session = λ k. omega (arith, less (owned reserved_bytes k), a.by_session k);
        no_empty_entry = a.no_empty_entry;
        message_limit = a.message_limit;
        byte_limit = a.byte_limit;
        session_limit = a.session_limit;
      };
      less = less;
    }

moved-Accounts :
    (held : List ScheduledMessage) (q : ScheduledQueue) (cursor : ℕ)
    → Accounts held q
    → cursor < 15
    → Accounts held (record q { cursor = cursor })
moved-Accounts held q cursor a small = record {
  four = a.four;
  at_class = small;
  each = a.each;
  messages = a.messages;
  bytes = a.bytes;
  by_session = a.by_session;
  no_empty_entry = a.no_empty_entry;
  message_limit = a.message_limit;
  byte_limit = a.byte_limit;
  session_limit = a.session_limit;
}

-- What a search of some steps comes to.
pub data Searched (held : List ScheduledMessage) (steps : ℕ) (q : ScheduledQueue) : Type 0 where
  found :
      (m : ScheduledMessage) (q' : ScheduledQueue)
      → search_classes steps q ≡ some (some m, q')
      → Taken m held q q'
      → Searched held steps q
  nothing :
      (q' : ScheduledQueue)
      → search_classes steps q ≡ some (none, q')
      → Accounts held q'
      → q'.queues ≡ q.queues
      → ((j : ℕ) → j < steps → weight_at (get_elem? q.queues (class_at ((q.cursor + j) % 15))) ≡ 0)
      → Searched held steps q

abbrev pub IdleAt : List FairPriorityQueue → ℕ → ℕ → Type 0
IdleAt queues cursor j = weight_at (get_elem? queues (class_at ((cursor + j) % 15))) ≡ 0

idle_step :
    (queues : List FairPriorityQueue) (cursor priority steps : ℕ) (fair : FairPriorityQueue)
    → cursor < 15
    → get_elem? weighted_order cursor ≡ some priority
    → get_elem? queues priority ≡ some fair
    → weight one fair ≡ 0
    → ((j : ℕ) → j < steps → IdleAt queues ((cursor + 1) % 15) j)
    → (j : ℕ) → j < suc steps
    → IdleAt queues cursor j
idle_step queues cursor priority steps fair small here there idle later zero h =
    let e : (cursor + 0) % 15 ≡ cursor = omega arith in
    rw (e, class_at_lem cursor priority here, there) idle
idle_step queues cursor priority steps fair small here there idle later (suc j) h =
    let e : ((cursor + 1) % 15 + j) % 15 ≡ (cursor + suc j) % 15 = omega arith in
    rw e at (later j (omega arith))

search_on :
    (held : List ScheduledMessage) (steps : ℕ) (q : ScheduledQueue) (priority : ℕ)
    (fair : FairPriorityQueue)
    → q.cursor < 15
    → get_elem? weighted_order q.cursor ≡ some priority
    → get_elem? q.queues priority ≡ some fair
    → pop fair ≡ some (none, fair)
    → weight one fair ≡ 0
    → Searched held steps (record q { cursor = (q.cursor + 1) % 15 })
    → Searched held (suc steps) q
unfolding search_classes
search_on held steps q priority fair small here there idle empty (found m q' e t) =
    found m q' (rw (here, search_classes) (rw there (rw idle e)))
      (record { accounts = t.accounts; less = t.less })
search_on held steps q priority fair small here there idle empty (nothing q' e a' same later) =
    nothing q' (rw (here, search_classes) (rw there (rw idle e))) a' same
      (idle_step q.queues q.cursor priority steps fair small here there empty later)

pub search_lem :
    (held : List ScheduledMessage) (steps : ℕ) (q : ScheduledQueue)
    → Accounts held q
    → Searched held steps q
unfolding search_classes
search_lem held zero q a = nothing q refl a refl (λ j h. absurd (omega arith))
search_lem held (suc steps) q a =
    let (priority, here) = get_elem?_lem weighted_order q.cursor a.at_class in
    let (fair, found_class) =
      get_elem?_lem q.queues priority (omega (arith, classes_below q.cursor here, a.four)) in
    let v : IsValid fair = All-get_elem? IsValid q.queues priority a.each found_class in
    let cursor : ℕ = (q.cursor + 1) % 15 in
    let small : cursor < 15 = omega arith in
    elim (pop_lem fair v) [
      | inl (idle, empty) ↦
          search_on held steps q priority fair a.at_class here found_class idle
            (weight_idle one fair empty)
            (search_lem held steps (record q { cursor = cursor })
              (moved-Accounts held q cursor a small))
      | inr (session, rest, m, fair', order, popped, s) ↦
          found m (record q { cursor = cursor; queues = set q.queues priority fair' })
            (rw (here, search_classes) (rw found_class (rw popped refl)))
            (taken held q priority session cursor rest fair fair' m a small found_class order s)
    ]

visited :
    (queues : List FairPriorityQueue) (cursor p : ℕ)
    → cursor < 15
    → p < 15
    → ((j : ℕ) → j < 15 → IdleAt queues cursor j)
    → weight_at (get_elem? queues (class_at p)) ≡ 0
visited queues cursor p small below idle =
    let e : (cursor + (p + 15 - cursor) % 15) % 15 ≡ p = omega arith in
    rw e at (idle ((p + 15 - cursor) % 15) (omega arith))

-- A search over the whole order that finds nothing has looked into every class.
pub total_idle :
    (queues : List FairPriorityQueue) (cursor : ℕ)
    → length queues ≡ 4
    → cursor < 15
    → ((j : ℕ) → j < 15 → IdleAt queues cursor j)
    → total one queues ≡ 0
unfolding total class_at
total_idle (a ∷ b ∷ c ∷ d ∷ []) cursor four small idle =
    let queues = a ∷ b ∷ c ∷ d ∷ [] in
    omega (
      arith,
      visited queues cursor 14 small (omega arith) idle,
      visited queues cursor 12 small (omega arith) idle,
      visited queues cursor 8 small (omega arith) idle,
      visited queues cursor 0 small (omega arith) idle,
    )
total_idle [] cursor four small idle = absurd (omega (arith, four))
total_idle (a ∷ []) cursor four small idle = absurd (omega (arith, four))
total_idle (a ∷ b ∷ []) cursor four small idle = absurd (omega (arith, four))
total_idle (a ∷ b ∷ c ∷ []) cursor four small idle = absurd (omega (arith, four))
total_idle (a ∷ b ∷ c ∷ d ∷ e ∷ queues) cursor four small idle = absurd (omega (arith, four))
