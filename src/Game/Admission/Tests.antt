-- ===== src/Game/Admission/Tests.antt =====
-- Senders that race with close and stop over crates/rnet-game/src/admission.rs.
use rnetlib.Prelude.{ℕ, false, none, some, List, [], ◌∷◌, ◌==◌, ◌≡◌, refl, All}
use rnetlib.Game.Admission.{SendAdmission, with_ready, new, publish, begin_stop, remove, clear}
use rnetlib.Game.Admission.Race.{Phase, System, Action, step, run}
use rnetlib.Game.Admission.Closing.{close_lem, stop_lem}

-- One sender has queued a message of session 7 and left; another has entered and is not tested yet.
abbrev one_ready : SendAdmission
one_ready = publish 7 new

abbrev system : SendAdmission → Phase → List ℕ → System
system admission phase queue = record { admission = admission; threads = phase ∷ []; queue = queue }

abbrev late_send : List Action
late_send = Action.enter 0 7 ∷ Action.test 0 ∷ Action.operate 0 ∷ []

abbrev refused_send : List Action
refused_send = Action.enter 0 7 ∷ Action.test 0 ∷ Action.leave 0 ∷ []

-- A send before the removal leaves its message, which waits until it is forgotten.
admitted_send :
    run late_send (system one_ready Phase.outside [])
    ≡ some (system one_ready Phase.leaving (7 ∷ []))
unfolding run step with_ready
admitted_send = refl

-- The removal waits for it.
removal_waits : step (Action.removing 7) (system one_ready (Phase.admitted 7) []) ≡ none
unfolding step
removal_waits = refl

refused_after_removal :
    (queue : List ℕ)
    → run refused_send (system (remove 7 one_ready) Phase.outside queue)
      ≡ some (system (remove 7 one_ready) Phase.outside queue)
unfolding run step with_ready
refused_after_removal queue = refl

close_lem_example : All (λ s. (s == 7) ≡ false) (8 ∷ [])
unfolding step
close_lem_example =
    close_lem 7 refused_send refused_send (system one_ready Phase.outside (7 ∷ 8 ∷ [])) refl
      (refused_after_removal (7 ∷ 8 ∷ [])) refl (refused_after_removal (8 ∷ []))
      (refl, (refl, (refl, tt))) (refl, (refl, (refl, tt)))

abbrev stopping : SendAdmission
stopping = begin_stop one_ready

-- A sender that was admitted before the stop queues its message after it.
message_after_stop :
    run (Action.operate 0 ∷ Action.leave 0 ∷ []) (system stopping (Phase.admitted 7) [])
    ≡ some (system stopping Phase.outside (7 ∷ []))
unfolding run step
message_after_stop = refl

refused_after_stop :
    (queue : List ℕ)
    → run refused_send (system (clear stopping) Phase.outside queue)
      ≡ some (system (clear stopping) Phase.outside queue)
unfolding run step with_ready
refused_after_stop queue = refl

stop_lem_example : (system (clear stopping) Phase.outside []).queue ≡ []
unfolding step
stop_lem_example =
    stop_lem (Action.operate 0 ∷ Action.leave 0 ∷ []) refused_send refused_send
      (system one_ready (Phase.admitted 7) []) refl message_after_stop refl
      (refused_after_stop (7 ∷ [])) refl (refused_after_stop [])
