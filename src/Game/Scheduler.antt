-- ===== src/Game/Scheduler.antt =====
-- crates/rnet-game/src/scheduler.rs: the queue of one priority class, which serves its sessions in turn.
pub mod Fair
pub mod Rounds
pub mod Weight
pub mod Removal
pub mod Weighted
mod Tests
use rnetlib.Prelude.{
  ℕ, zero, suc, ◌+◌, Bool, true, false, Option, none, some, List, [], ◌∷◌, ◌++◌, if◌then◌else◌,
  ◌==◌, not, keep, length, Map, put, min, u64_max,
}

pub data GamePriority : Type 0 where
  low normal high critical : GamePriority

abbrev pub index : GamePriority → ℕ
index GamePriority.low = 0
index GamePriority.normal = 1
index GamePriority.high = 2
index GamePriority.critical = 3

abbrev pub envelope_reservation : ℕ
envelope_reservation = 16

pub record ScheduledMessage : Type 0 where
  pub session : ℕ
  pub payload : List ℕ
  pub sequence : Option ℕ
  pub tick : Option ℕ
  pub correlation_id : ℕ
  pub priority : GamePriority
  pub enqueued_at : ℕ
  pub expires_at : Option ℕ

unfoldable pub reserved_bytes : ScheduledMessage → ℕ
reserved_bytes m = min (length m.payload + envelope_reservation) u64_max

-- The head of `sessions` is the front.
pub record FairPriorityQueue : Type 0 where
  pub sessions : List ℕ
  pub messages : Map (List ScheduledMessage)

abbrev pub empty_queue : FairPriorityQueue
empty_queue = record { sessions = []; messages = λ session. none }

-- `entry(session).or_default()`
abbrev pub or_default : Option (List ScheduledMessage) → List ScheduledMessage
or_default none = []
or_default (some queue) = queue

abbrev pub is_empty {ℓ} : {A : Type ℓ} → List A → Bool
is_empty [] = true
is_empty (x ∷ xs) = false

pub push : ScheduledMessage → FairPriorityQueue → FairPriorityQueue
push message q =
    let queue = or_default (q.messages message.session) in
    record {
      sessions = if is_empty queue then q.sessions ++ message.session ∷ [] else q.sessions;
      messages = put q.messages message.session (some (queue ++ message ∷ []));
    }

-- What is left of a session's queue after its front: an empty queue leaves the map and the order.
abbrev pub serve :
    ℕ → List ℕ → Map (List ScheduledMessage) → List ScheduledMessage → FairPriorityQueue
serve session rest messages [] = record { sessions = rest; messages = put messages session none }
serve session rest messages (next ∷ left) = record {
  sessions = rest ++ session ∷ [];
  messages = put messages session (some (next ∷ left));
}

-- The outer `none` is a panic of one of the two `expect`.
abbrev pub pop_front :
    ℕ
    → List ℕ
    → Map (List ScheduledMessage)
    → Option (List ScheduledMessage)
    → Option (Option ScheduledMessage × FairPriorityQueue)
pop_front session rest messages none = none
pop_front session rest messages (some []) = none
pop_front session rest messages (some (message ∷ left)) =
    some (some message, serve session rest messages left)

pub pop : FairPriorityQueue → Option (Option ScheduledMessage × FairPriorityQueue)
pop q = elim q.sessions [
  | [] ↦ some (none, q)
  | session ∷ rest ↦ pop_front session rest q.messages (q.messages session)
]

pub remove_session : ℕ → FairPriorityQueue → ℕ × FairPriorityQueue
remove_session session q = (
  length (or_default (q.messages session)),
  record {
    sessions = keep (λ queued. not (queued == session)) q.sessions;
    messages = put q.messages session none;
  },
)

abbrev pub clear : FairPriorityQueue → FairPriorityQueue
clear q = empty_queue
