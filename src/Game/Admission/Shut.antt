-- ===== src/Game/Admission/Shut.antt =====
-- What no step of the threads over crates/rnet-game/src/admission.rs undoes once a session is not ready or the
-- runtime is stopping.
use mathlib.Core.Path.{subst}
use rnetlib.Prelude.{
  ℕ, Bool, true, false, not, ◌&&◌, some, List, [], ◌∷◌, ◌++◌, ◌==◌, get_elem?, set, keep, ◌≡◌, refl,
  arith, All, All-set, Bool-cases, inl, inr, sym,
}
use rnetlib.Prelude.Options.{bind_some}
use rnetlib.Game.Admission.{SendAdmission, begin_stop, publish, with_ready, remove, clear}
use rnetlib.Game.Admission.Race.{
  Phase, System, Action, is_outside, unread, after_test, tested, operated, left, tail, move, locked,
  step,
}

-- The thread has no admission of a barred session.
abbrev pub Spares : (ℕ → Bool) → Phase → Type 0
Spares P Phase.outside = Unit {0}
Spares P (Phase.entered session) = Unit
Spares P (Phase.admitted session) = P session ≡ false
Spares P Phase.leaving = Unit

abbrev pub Without : (ℕ → Bool) → System → Type 0
Without P w = All (λ s. P s ≡ false) w.queue

pub unread-Spares :
    (P : ℕ → Bool) (threads : List Phase) → unread threads ≡ true → All (Spares P) threads
unread-Spares P [] free = tt
unread-Spares P (Phase.outside ∷ threads) free = (tt, unread-Spares P threads free)
unread-Spares P (Phase.entered s ∷ threads) free = absurd cc
unread-Spares P (Phase.admitted s ∷ threads) free = absurd cc
unread-Spares P (Phase.leaving ∷ threads) free = absurd cc

pub All-append_one : (Q : ℕ → Type 0) (xs : List ℕ) (y : ℕ) → All Q xs → Q y → All Q (xs ++ y ∷ [])
All-append_one Q [] y h q = (q, tt)
All-append_one Q (x ∷ xs) y (p, h) q = (p, All-append_one Q xs y h q)

pub All-keep : (Q : ℕ → Type 0) (f : ℕ → Bool) (xs : List ℕ) → All Q xs → All Q (keep f xs)
All-keep Q f [] h = tt
All-keep Q f (x ∷ xs) (p, h) = elim (Bool-cases (f x)) [
  | inl kept ↦ rw kept (p, All-keep Q f xs h)
  | inr dropped ↦ rw dropped (All-keep Q f xs h)
]

pub All-tail : (Q : ℕ → Type 0) (xs : List ℕ) → All Q xs → All Q (tail xs)
All-tail Q [] h = tt
All-tail Q (x ∷ xs) (p, h) = h

-- The admission after a step.
pub locked-some :
    (w : System) (a : SendAdmission) {w' : System}
    → locked w a ≡ some w'
    → (unread w.threads ≡ true) × (w' ≡ record w { admission = a })
locked-some w a e = elim (Bool-cases (unread w.threads)) [
  | inl free ↦ let e' = rw free at e in (free, cc)
  | inr held ↦ let e' = rw held at e in absurd cc
]

-- The runtime is stopping, or the barred sessions are not ready.
abbrev pub Refuses : (by_stop : Bool) → (ℕ → Bool) → SendAdmission → Type 0
Refuses true P a = a.stopping ≡ true
Refuses false P a = (s : ℕ) → P s ≡ true → a.ready s ≡ false

refuses_test :
    (by_stop : Bool) (P : ℕ → Bool) (a : SendAdmission) (s : ℕ)
    → Refuses by_stop P a
    → Spares P (after_test (with_ready s (Phase.admitted s) a))
unfolding with_ready
refuses_test true P a s stopped = elim (Bool-cases (a.ready s)) [
  | inl ready ↦ rw (ready, stopped) tt
  | inr missing ↦ rw missing tt
]
refuses_test false P a s closed = elim (Bool-cases (P s)) [
  | inl barred ↦ rw (closed s barred) tt
  | inr spared ↦ elim (Bool-cases (a.ready s)) [
    | inl ready ↦ elim (Bool-cases a.stopping) [
      | inl stopped ↦ rw (ready, stopped) tt
      | inr runs ↦ rw (ready, runs) spared
    ]
    | inr missing ↦ rw missing tt
  ]
]

-- Nothing of a barred session can come into the queue.
pub record Shut (by_stop : Bool) (P : ℕ → Bool) (w : System) : Type 0 where
  pub refuses : Refuses by_stop P w.admission
  pub spares : All (Spares P) w.threads

-- The action publishes a barred session while the runtime is not stopping.
abbrev pub reopens : (by_stop : Bool) → (ℕ → Bool) → Action → Bool
reopens by_stop P (Action.enter i session) = false
reopens by_stop P (Action.test i) = false
reopens by_stop P (Action.operate i) = false
reopens by_stop P (Action.leave i) = false
reopens by_stop P Action.stop = false
reopens by_stop P (Action.publishing session) = not by_stop && P session
reopens by_stop P (Action.removing session) = false
reopens by_stop P Action.clearing = false
reopens by_stop P (Action.forget session) = false
reopens by_stop P Action.forget_all = false
reopens by_stop P Action.forward = false

tested-Spares :
    (by_stop : Bool) (P : ℕ → Bool) (a : SendAdmission) (phase next : Phase)
    → Refuses by_stop P a
    → tested a phase ≡ some next
    → Spares P next
tested-Spares by_stop P a Phase.outside next refuses e = absurd cc
tested-Spares by_stop P a (Phase.entered s) next refuses e =
    let same : after_test (with_ready s (Phase.admitted s) a) ≡ next = cc in
    subst (Spares P) same (refuses_test by_stop P a s refuses)
tested-Spares by_stop P a (Phase.admitted s) next refuses e = absurd cc
tested-Spares by_stop P a Phase.leaving next refuses e = absurd cc

pub operated-spared :
    (P : ℕ → Bool) (phase : Phase) (session : ℕ)
    → Spares P phase
    → operated phase ≡ some session
    → P session ≡ false
operated-spared P Phase.outside session h e = absurd cc
operated-spared P (Phase.entered s) session h e = absurd cc
operated-spared P (Phase.admitted s) session h e = let same : s ≡ session = cc in rw (sym same) h
operated-spared P Phase.leaving session h e = absurd cc

left-Spares : (P : ℕ → Bool) (phase next : Phase) → left phase ≡ some next → Spares P next
left-Spares P Phase.outside next e = absurd cc
left-Spares P (Phase.entered s) next e = absurd cc
left-Spares P (Phase.admitted s) next e = absurd cc
left-Spares P Phase.leaving next e =
    let same : Phase.outside ≡ next = cc in subst (Spares P) same tt

publish-Refuses :
    (by_stop : Bool) (P : ℕ → Bool) (session : ℕ) (a : SendAdmission)
    → (not by_stop && P session) ≡ false
    → Refuses by_stop P a
    → Refuses by_stop P (publish session a)
publish-Refuses true P session a spared stopped = stopped
publish-Refuses false P session a spared closed = λ s barred. elim (Bool-cases (s == session)) [
  | inl same ↦ let e : s ≡ session = ground arith in absurd cc
  | inr other ↦ rw other (closed s barred)
]

remove-Refuses :
    (by_stop : Bool) (P : ℕ → Bool) (session : ℕ) (a : SendAdmission)
    → Refuses by_stop P a
    → Refuses by_stop P (remove session a)
remove-Refuses true P session a stopped = stopped
remove-Refuses false P session a closed = λ s barred. elim (Bool-cases (s == session)) [
  | inl same ↦ rw same refl
  | inr other ↦ rw other (closed s barred)
]

clear-Refuses :
    (by_stop : Bool) (P : ℕ → Bool) (a : SendAdmission)
    → Refuses by_stop P a
    → Refuses by_stop P (clear a)
clear-Refuses true P a stopped = stopped
clear-Refuses false P a closed = λ s barred. refl

stop-Refuses :
    (by_stop : Bool) (P : ℕ → Bool) (a : SendAdmission)
    → Refuses by_stop P a
    → Refuses by_stop P (begin_stop a)
stop-Refuses true P a stopped = refl
stop-Refuses false P a closed = closed

module _ (by_stop : Bool) (P : ℕ → Bool) where
  -- The threads of a system with one of them elsewhere.
  move-Shut :
      (w : System) (i : ℕ) (phase : Phase)
      → Shut by_stop P w
      → Spares P phase
      → Shut by_stop P (move w i phase)
  move-Shut w i phase shut h = record {
    refuses = shut.refuses;
    spares = All-set (Spares P) w.threads i phase shut.spares h;
  }

  locked-Shut :
      (w w' : System) (a : SendAdmission)
      → locked w a ≡ some w'
      → (Refuses by_stop P w.admission → Refuses by_stop P a)
      → Shut by_stop P w
      → Shut by_stop P w'
  locked-Shut w w' a e keeps shut =
      let (free, same) = locked-some w a e in
      subst (Shut by_stop P) (sym same)
        (record { refuses = keeps shut.refuses; spares = shut.spares })

  pub step-Shut :
      (action : Action) (w : System) {w' : System}
      → reopens by_stop P action ≡ false
      → Shut by_stop P w
      → step action w ≡ some w'
      → Shut by_stop P w'
  unfolding step
  step-Shut (Action.enter i session) w {w'} allowed shut e =
      let (phase, found, next) = bind_some (get_elem? w.threads i) _ e in
      elim (Bool-cases (is_outside phase)) [
        | inl here ↦
            let e' = rw here at next in
            let same : move w i (Phase.entered session) ≡ w' = cc in
            subst (Shut by_stop P) same (move-Shut w i (Phase.entered session) shut tt)
        | inr away ↦ let e' = rw away at next in absurd cc
      ]
  step-Shut (Action.test i) w {w'} allowed shut e =
      let (phase, found, next) = bind_some (get_elem? w.threads i) _ e in
      let (to, moves, made) = bind_some (tested w.admission phase) _ next in
      let same : move w i to ≡ w' = cc in
      subst (Shut by_stop P) same
        (move-Shut w i to shut (tested-Spares by_stop P w.admission phase to shut.refuses moves))
  step-Shut (Action.operate i) w {w'} allowed shut e =
      let (phase, found, next) = bind_some (get_elem? w.threads i) _ e in
      let (session, operates, made) = bind_some (operated phase) _ next in
      let same : record w {
        threads = set w.threads i Phase.leaving;
        queue = w.queue ++ session ∷ [];
      }
          ≡ w' =
        cc in
      let moved = move-Shut w i Phase.leaving shut tt in
      subst (Shut by_stop P) same (record { refuses = moved.refuses; spares = moved.spares })
  step-Shut (Action.leave i) w {w'} allowed shut e =
      let (phase, found, next) = bind_some (get_elem? w.threads i) _ e in
      let (to, moves, made) = bind_some (left phase) _ next in
      let same : move w i to ≡ w' = cc in
      subst (Shut by_stop P) same (move-Shut w i to shut (left-Spares P phase to moves))
  step-Shut Action.stop w {w'} allowed shut e =
      let same : record w { admission = begin_stop w.admission } ≡ w' = cc in
      subst (Shut by_stop P) same
        (record { refuses = stop-Refuses by_stop P w.admission shut.refuses; spares = shut.spares })
  step-Shut (Action.publishing session) w {w'} allowed shut e =
      locked-Shut w w' _ e (publish-Refuses by_stop P session w.admission allowed) shut
  step-Shut (Action.removing session) w {w'} allowed shut e =
      locked-Shut w w' _ e (remove-Refuses by_stop P session w.admission) shut
  step-Shut Action.clearing w {w'} allowed shut e =
      locked-Shut w w' _ e (clear-Refuses by_stop P w.admission) shut
  step-Shut (Action.forget session) w {w'} allowed shut e =
      let same : record w { queue = keep (λ s. not (s == session)) w.queue } ≡ w' = cc in
      subst (Shut by_stop P) same (record { refuses = shut.refuses; spares = shut.spares })
  step-Shut Action.forget_all w {w'} allowed shut e =
      let same : record w { queue = [] } ≡ w' = cc in
      subst (Shut by_stop P) same (record { refuses = shut.refuses; spares = shut.spares })
  step-Shut Action.forward w {w'} allowed shut e =
      let same : record w { queue = tail w.queue } ≡ w' = cc in
      subst (Shut by_stop P) same (record { refuses = shut.refuses; spares = shut.spares })
