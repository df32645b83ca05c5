-- ===== src/Game/Admission/Emptied.antt =====
-- The queue over crates/rnet-game/src/admission.rs once a session is removed or the runtime has stopped.
use mathlib.Core.Path.{subst}
use rnetlib.Prelude.{
  ℕ, Bool, false, not, some, List, [], ◌∷◌, ◌++◌, ◌==◌, get_elem?, set, keep, ◌≡◌, All,
  All-get_elem?, Bool-cases, inl, inr, sym,
}
use rnetlib.Prelude.Options.{bind_some}
use rnetlib.Game.Admission.{begin_stop}
use rnetlib.Game.Admission.Race.{
  Phase, System, Action, is_outside, tested, operated, left, tail, move, step, run,
}
use rnetlib.Game.Admission.Shut.{
  Spares, Without, Shut, reopens, locked-some, All-append_one, All-keep, All-tail, operated-spared,
  step-Shut,
}

module _ (by_stop : Bool) (P : ℕ → Bool) where
  get_elem?-Spares :
      (w : System) (i : ℕ) {phase : Phase}
      → Shut by_stop P w
      → get_elem? w.threads i ≡ some phase
      → Spares P phase
  get_elem?-Spares w i shut found = All-get_elem? (Spares P) w.threads i shut.spares found

  pub step-Without :
      (action : Action) (w : System) {w' : System}
      → Shut by_stop P w
      → Without P w
      → step action w ≡ some w'
      → Without P w'
  unfolding step
  step-Without (Action.enter i session) w {w'} shut empty e =
      let (phase, found, next) = bind_some (get_elem? w.threads i) _ e in
      elim (Bool-cases (is_outside phase)) [
        | inl here ↦
            let e' = rw here at next in
            let same : move w i (Phase.entered session) ≡ w' = cc in subst (Without P) same empty
        | inr away ↦ let e' = rw away at next in absurd cc
      ]
  step-Without (Action.test i) w {w'} shut empty e =
      let (phase, found, next) = bind_some (get_elem? w.threads i) _ e in
      let (to, moves, made) = bind_some (tested w.admission phase) _ next in
      let same : move w i to ≡ w' = cc in subst (Without P) same empty
  step-Without (Action.operate i) w {w'} shut empty e =
      let (phase, found, next) = bind_some (get_elem? w.threads i) _ e in
      let (session, operates, made) = bind_some (operated phase) _ next in
      let same : record w {
        threads = set w.threads i Phase.leaving;
        queue = w.queue ++ session ∷ [];
      }
          ≡ w' =
        cc in
      let spared = operated-spared P phase session (get_elem?-Spares w i shut found) operates in
      subst (Without P) same (All-append_one (λ s. P s ≡ false) w.queue session empty spared)
  step-Without (Action.leave i) w {w'} shut empty e =
      let (phase, found, next) = bind_some (get_elem? w.threads i) _ e in
      let (to, moves, made) = bind_some (left phase) _ next in
      let same : move w i to ≡ w' = cc in subst (Without P) same empty
  step-Without Action.stop w {w'} shut empty e =
      let same : record w { admission = begin_stop w.admission } ≡ w' = cc in
      subst (Without P) same empty
  step-Without (Action.publishing session) w {w'} shut empty e =
      subst (Without P) (sym (locked-some w _ e).1) empty
  step-Without (Action.removing session) w {w'} shut empty e =
      subst (Without P) (sym (locked-some w _ e).1) empty
  step-Without Action.clearing w {w'} shut empty e =
      subst (Without P) (sym (locked-some w _ e).1) empty
  step-Without (Action.forget session) w {w'} shut empty e =
      let same : record w { queue = keep (λ s. not (s == session)) w.queue } ≡ w' = cc in
      subst (Without P) same (All-keep (λ s. P s ≡ false) _ w.queue empty)
  step-Without Action.forget_all w {w'} shut empty e =
      let same : record w { queue = [] } ≡ w' = cc in subst (Without P) same tt
  step-Without Action.forward w {w'} shut empty e =
      let same : record w { queue = tail w.queue } ≡ w' = cc in
      subst (Without P) same (All-tail (λ s. P s ≡ false) w.queue empty)

  pub run-Shut :
      (actions : List Action) (w : System) {w' : System}
      → All (λ action. reopens by_stop P action ≡ false) actions
      → Shut by_stop P w
      → run actions w ≡ some w'
      → Shut by_stop P w'
  unfolding run
  run-Shut [] w {w'} allowed shut e = let same : w ≡ w' = cc in subst (Shut by_stop P) same shut
  run-Shut (action ∷ actions) w (a, allowed) shut e =
      let (w1, steps, runs) = bind_some (step action w) _ e in
      run-Shut actions w1 allowed (step-Shut by_stop P action w a shut steps) runs

  pub run-Without :
      (actions : List Action) (w : System) {w' : System}
      → All (λ action. reopens by_stop P action ≡ false) actions
      → Shut by_stop P w
      → Without P w
      → run actions w ≡ some w'
      → Without P w'
  unfolding run
  run-Without [] w {w'} allowed shut empty e =
      let same : w ≡ w' = cc in subst (Without P) same empty
  run-Without (action ∷ actions) w (a, allowed) shut empty e =
      let (w1, steps, runs) = bind_some (step action w) _ e in
      run-Without actions w1 allowed (step-Shut by_stop P action w a shut steps)
        (step-Without action w shut empty steps) runs
