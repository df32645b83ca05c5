-- ===== src/Game/Scheduler/Tests.antt =====
-- Two sessions in one class.
use rnetlib.Prelude.{ℕ, ◌≡◌, refl, some, none, List, [], ◌∷◌, ◌++◌, map}
use rnetlib.Game.Scheduler.{ScheduledMessage, GamePriority, FairPriorityQueue, empty_queue, push}
use rnetlib.Game.Scheduler.Fair.{IsValid, empty_queue-IsValid, push-IsValid}
use rnetlib.Game.Scheduler.Rounds.{pops, pops_round}

abbrev message : ℕ → ℕ → ScheduledMessage
message session correlation_id = record {
  session = session;
  payload = [];
  sequence = none;
  tick = none;
  correlation_id = correlation_id;
  priority = GamePriority.normal;
  enqueued_at = 0;
  expires_at = none;
}

-- Session 1 sends two messages before session 2 sends one.
abbrev queued : FairPriorityQueue
queued = push (message 2 30) (push (message 1 20) (push (message 1 10) empty_queue))

queued-IsValid : IsValid queued
queued-IsValid =
    push-IsValid (message 2 30) _
      (push-IsValid (message 1 20) _ (push-IsValid (message 1 10) _ empty_queue-IsValid))

order : queued.sessions ≡ 1 ∷ 2 ∷ []
unfolding push
order = refl

pops_round_example :
    (served : List ScheduledMessage) × (q' : FairPriorityQueue) × (later : List ℕ) × (pops 2 queued
      ≡ some (served, q'))
    × (map (λ m. m.session) served ≡ 1 ∷ 2 ∷ [])
    × (q'.sessions ≡ [] ++ later)
    × IsValid q'
pops_round_example = pops_round (1 ∷ 2 ∷ []) [] queued queued-IsValid order
