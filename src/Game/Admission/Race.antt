-- ===== src/Game/Admission/Race.antt =====
-- Threads that send, close and stop at once over crates/rnet-game/src/admission.rs. A sender holds the read lock
-- from its test to the end of its operation, which queues a message; the others take the write lock, which waits
-- for the senders, and clean the queue up after it.
use rnetlib.Prelude.{
  ℕ, Bool, true, false, not, ◌&&◌, Option, none, some, List, [], ◌∷◌, ◌++◌, ◌==◌, if◌then◌else◌,
  get_elem?, set, keep,
}
use rnetlib.Prelude.Options.{◌>>=◌}
use rnetlib.Game.Admission.{SendAdmission, begin_stop, publish, with_ready, remove, clear}

-- Where a sending thread stands in `with_ready`.
pub data Phase : Type 0 where
  outside : Phase
  entered : (session : ℕ) → Phase
  admitted : (session : ℕ) → Phase
  leaving : Phase

-- `queue` holds the sessions of the messages that wait.
pub record System : Type 0 where
  pub admission : SendAdmission
  pub threads : List Phase
  pub queue : List ℕ

pub data Action : Type 0 where
  enter : (thread session : ℕ) → Action
  test : (thread : ℕ) → Action
  operate : (thread : ℕ) → Action
  leave : (thread : ℕ) → Action
  stop : Action
  publishing : (session : ℕ) → Action
  removing : (session : ℕ) → Action
  clearing : Action
  forget : (session : ℕ) → Action
  forget_all : Action
  forward : Action

abbrev pub is_outside : Phase → Bool
is_outside Phase.outside = true
is_outside (Phase.entered session) = false
is_outside (Phase.admitted session) = false
is_outside Phase.leaving = false

-- No thread holds the read lock.
abbrev pub unread : List Phase → Bool
unread [] = true
unread (phase ∷ threads) = is_outside phase && unread threads

-- The step of a thread inside `with_ready`, with what it queues; `none` if it has no such step.
abbrev pub after_test : Option Phase → Phase
after_test none = Phase.leaving
after_test (some phase) = phase

abbrev pub tested : SendAdmission → Phase → Option Phase
tested a Phase.outside = none
tested a (Phase.entered session) = some (after_test (with_ready session (Phase.admitted session) a))
tested a (Phase.admitted session) = none
tested a Phase.leaving = none

abbrev pub operated : Phase → Option ℕ
operated Phase.outside = none
operated (Phase.entered session) = none
operated (Phase.admitted session) = some session
operated Phase.leaving = none

abbrev pub left : Phase → Option Phase
left Phase.outside = none
left (Phase.entered session) = none
left (Phase.admitted session) = none
left Phase.leaving = some Phase.outside

abbrev pub tail : List ℕ → List ℕ
tail [] = []
tail (x ∷ xs) = xs

abbrev pub move : System → ℕ → Phase → System
move w i phase = record w { threads = set w.threads i phase }

-- A change under the write lock.
abbrev pub locked : System → SendAdmission → Option System
locked w a = if unread w.threads then some (record w { admission = a }) else none

-- `none` is a step that has to wait.
unfoldable pub step : Action → System → Option System
step (Action.enter i session) w = get_elem? w.threads i >>= λ phase.
    if is_outside phase then some (move w i (Phase.entered session)) else none
step (Action.test i) w =
    get_elem? w.threads i >>= λ phase. tested w.admission phase >>= λ next. some (move w i next)
step (Action.operate i) w = get_elem? w.threads i >>= λ phase. operated phase >>= λ session.
    some (record w { threads = set w.threads i Phase.leaving; queue = w.queue ++ session ∷ [] })
step (Action.leave i) w =
    get_elem? w.threads i >>= λ phase. left phase >>= λ next. some (move w i next)
step Action.stop w = some (record w { admission = begin_stop w.admission })
step (Action.publishing session) w = locked w (publish session w.admission)
step (Action.removing session) w = locked w (remove session w.admission)
step Action.clearing w = locked w (clear w.admission)
step (Action.forget session) w = some (record w { queue = keep (λ s. not (s == session)) w.queue })
step Action.forget_all w = some (record w { queue = [] })
step Action.forward w = some (record w { queue = tail w.queue })

unfoldable pub run : List Action → System → Option System
run [] w = some w
run (action ∷ actions) w = step action w >>= run actions
