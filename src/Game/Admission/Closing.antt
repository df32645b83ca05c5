-- ===== src/Game/Admission/Closing.antt =====
-- Close and stop against racing senders over crates/rnet-game/src/admission.rs.
use mathlib.Core.Path.{subst}
use rnetlib.Prelude.{
  ℕ, Bool, true, false, not, some, List, [], ◌∷◌, ◌==◌, keep, ◌≡◌, refl, All, Bool-cases, inl, inr,
  sym,
}
use rnetlib.Game.Admission.{begin_stop, remove, clear}
use rnetlib.Game.Admission.Race.{Phase, System, Action, step, run}
use rnetlib.Game.Admission.Shut.{
  Spares, Without, Shut, reopens, unread-Spares, locked-some, step-Shut,
}
use rnetlib.Game.Admission.Emptied.{run-Shut, run-Without}

abbrev pub only : ℕ → ℕ → Bool
only session s = s == session

removed-Shut :
    (session : ℕ) (w : System) {w' : System}
    → step (Action.removing session) w ≡ some w'
    → Shut false (only session) w'
unfolding step
removed-Shut session w e =
    let (free, same) = locked-some w (remove session w.admission) e in
    subst (Shut false (only session)) (sym same) (record {
      refuses = λ s barred. rw barred refl;
      spares = unread-Spares (only session) w.threads free;
    })

forgotten-Without :
    (session : ℕ) (queue : List ℕ)
    → All (λ s. only session s ≡ false) (keep (λ s. not (s == session)) queue)
forgotten-Without session [] = tt
forgotten-Without session (x ∷ xs) = elim (Bool-cases (x == session)) [
  | inl gone ↦ rw gone (forgotten-Without session xs)
  | inr other ↦ rw other (other, forgotten-Without session xs)
]

-- Once a session is removed and then its messages are forgotten, no message of it waits, whatever other threads
-- did between and do later, as long as none publishes the session again.
pub close_lem :
    (session : ℕ) (between later : List Action) (w : System) {w1 w2 w3 w4 : System}
    → step (Action.removing session) w ≡ some w1
    → run between w1 ≡ some w2
    → step (Action.forget session) w2 ≡ some w3
    → run later w3 ≡ some w4
    → All (λ action. reopens false (only session) action ≡ false) between
    → All (λ action. reopens false (only session) action ≡ false) later
    → All (λ s. (s == session) ≡ false) w4.queue
unfolding step
close_lem session between later w {w1} {w2} {w3} removes runs forgets runs' quiet quiet' =
    let shut =
      run-Shut false (only session) between w1 quiet (removed-Shut session w removes) runs in
    let shut' = step-Shut false (only session) (Action.forget session) w2 refl shut forgets in
    let same : record w2 { queue = keep (λ s. not (s == session)) w2.queue } ≡ w3 = cc in
    run-Without false (only session) later w3 quiet' shut'
      (subst (Without (only session)) same (forgotten-Without session w2.queue)) runs'

abbrev pub anyone : ℕ → Bool
anyone s = true

abbrev no_one : ℕ → Bool
no_one s = false

no_one-Spares : (threads : List Phase) → All (Spares no_one) threads
no_one-Spares [] = tt
no_one-Spares (Phase.outside ∷ threads) = (tt, no_one-Spares threads)
no_one-Spares (Phase.entered s ∷ threads) = (tt, no_one-Spares threads)
no_one-Spares (Phase.admitted s ∷ threads) = (refl, no_one-Spares threads)
no_one-Spares (Phase.leaving ∷ threads) = (tt, no_one-Spares threads)

never_reopens : (P : ℕ → Bool) (action : Action) → reopens true P action ≡ false
never_reopens P (Action.enter i session) = refl
never_reopens P (Action.test i) = refl
never_reopens P (Action.operate i) = refl
never_reopens P (Action.leave i) = refl
never_reopens P Action.stop = refl
never_reopens P (Action.publishing session) = refl
never_reopens P (Action.removing session) = refl
never_reopens P Action.clearing = refl
never_reopens P (Action.forget session) = refl
never_reopens P Action.forget_all = refl
never_reopens P Action.forward = refl

never_reopen :
    (P : ℕ → Bool) (actions : List Action) → All (λ action. reopens true P action ≡ false) actions
never_reopen P [] = tt
never_reopen P (action ∷ actions) = (never_reopens P action, never_reopen P actions)

empty-of : (queue : List ℕ) → All (λ s. anyone s ≡ false) queue → queue ≡ []
empty-of [] h = refl
empty-of (x ∷ xs) (h, rest) = absurd cc

stopped-Shut : (w : System) {w' : System} → step Action.stop w ≡ some w' → Shut true no_one w'
unfolding step
stopped-Shut w {w'} e =
    let same : record w { admission = begin_stop w.admission } ≡ w' = cc in
    subst (Shut true no_one) same (record { refuses = refl; spares = no_one-Spares w.threads })

cleared-Shut :
    (w : System) {w' : System}
    → Shut true no_one w
    → step Action.clearing w ≡ some w'
    → Shut true anyone w'
unfolding step
cleared-Shut w shut e =
    let (free, same) = locked-some w (clear w.admission) e in
    subst (Shut true anyone) (sym same)
      (record { refuses = shut.refuses; spares = unread-Spares anyone w.threads free })

-- Once the runtime is stopping, the ready sessions are cleared and then all messages are forgotten, no message
-- waits, whatever other threads did between and do later.
pub stop_lem :
    (before between later : List Action) (w : System) {w1 w2 w3 w4 w5 w6 : System}
    → step Action.stop w ≡ some w1
    → run before w1 ≡ some w2
    → step Action.clearing w2 ≡ some w3
    → run between w3 ≡ some w4
    → step Action.forget_all w4 ≡ some w5
    → run later w5 ≡ some w6
    → w6.queue ≡ []
unfolding step
stop_lem before between later w {w1} {w2} {w3} {w4} {w5} {w6} stops runs clears runs' forgets
      runs'' =
    let shut2 =
      run-Shut true no_one before w1 (never_reopen no_one before) (stopped-Shut w stops) runs in
    let shut3 = cleared-Shut w2 shut2 clears in
    let shut4 = run-Shut true anyone between w3 (never_reopen anyone between) shut3 runs' in
    let shut5 = step-Shut true anyone Action.forget_all w4 refl shut4 forgets in
    let same : record w4 { queue = [] } ≡ w5 = cc in
    empty-of w6.queue (
      run-Without true anyone later w5 (never_reopen anyone later) shut5
        (subst (Without anyone) same tt) runs'')
