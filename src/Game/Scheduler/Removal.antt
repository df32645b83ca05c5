-- ===== src/Game/Scheduler/Removal.antt =====
-- A session that is forgotten leaves the queue of a class of crates/rnet-game/src/scheduler.rs, and nothing
-- else does.
use rnetlib.Prelude.{
  ℕ, ◌+◌, ◌≡◌, ◌≢◌, refl, sym, ap, ◌∙◌, arith, Bool, not, Option, none, some, List, [], ◌∷◌, All,
  keep, ◌==◌, if◌then◌else◌, put_self, put_other, same-or-not, neq-test, ==_refl, inl, inr, ◌⊎◌,
}
use rnetlib.Game.Scheduler.{ScheduledMessage, FairPriorityQueue, or_default, remove_session}
use rnetlib.Game.Scheduler.Fair.{backlog, IsValid, count, presence, count_nil, count_other_cons}
use rnetlib.Game.Scheduler.Weight.{
  sum_of, sum_at, AgreeBut, load, weight, sum_at_absent, sum_at_present, presence-le-one,
}

abbrev others : ℕ → ℕ → Bool
others session queued = not (queued == session)

sum_at-keep :
    (session : ℕ) (g : ℕ → ℕ) (ss : List ℕ)
    → g session ≡ 0
    → sum_at g (keep (others session) ss) ≡ sum_at g ss
unfolding sum_at
sum_at-keep session g [] h = refl
sum_at-keep session g (s ∷ ss) h = elim (same-or-not s session) [
  | inl e ↦ rw (e, ==_refl session, h) (omega (arith, sum_at-keep session g ss h))
  | inr ne ↦ rw (neq-test s session ne) (omega (arith, sum_at-keep session g ss h))
]

count-keep_self : (session : ℕ) (ss : List ℕ) → count session (keep (others session) ss) ≡ 0
count-keep_self session [] = count_nil session
count-keep_self session (s ∷ ss) = elim (same-or-not s session) [
  | inl e ↦ rw (e, ==_refl session) (count-keep_self session ss)
  | inr ne ↦ rw (neq-test s session ne) (
      count_other_cons session s (keep (others session) ss) (λ e. ne (sym e))
      ∙ count-keep_self session ss)
]

count-keep_other :
    (session k : ℕ) (ss : List ℕ) → k ≢ session → count k (keep (others session) ss) ≡ count k ss
unfolding count
count-keep_other session k [] h = refl
count-keep_other session k (s ∷ ss) h = elim (same-or-not s session) [
  | inl e ↦
      rw (e, ==_refl session, neq-test k session h) (omega (arith, count-keep_other session k ss h))
  | inr ne ↦ rw (neq-test s session ne) (omega (arith, count-keep_other session k ss h))
]

module _ (session : ℕ) (q : FairPriorityQueue) (v : IsValid q) where
  pub remove_session-IsValid : IsValid (remove_session session q).1
  unfolding remove_session
  remove_session-IsValid k = elim (same-or-not k session) [
    | inl e ↦ rw (e, put_self q.messages session none) (count-keep_self session q.sessions, tt, tt)
    | inr ne ↦
        let (c, n, owned) = v k in
        rw (put_other q.messages session none k ne)
          (count-keep_other session k q.sessions ne ∙ c, n, owned)
  ]

  removed_agrees :
      (f : ScheduledMessage → ℕ) → AgreeBut session (load f q) (load f (remove_session session q).1)
  unfolding remove_session
  removed_agrees f k ne = ap (λ o. sum_of f (or_default o)) (put_other q.messages session none k ne)

  removed_empty : (f : ScheduledMessage → ℕ) → load f (remove_session session q).1 session ≡ 0
  unfolding remove_session sum_of
  removed_empty f = ap (λ o. sum_of f (or_default o)) (put_self q.messages session none)

  absent-load : (f : ScheduledMessage → ℕ) → count session q.sessions ≡ 0 → load f q session ≡ 0
  unfolding sum_of
  absent-load f c = go (q.messages session) (sym (v session).0 ∙ c)
    where
      go : (o : Option (List ScheduledMessage)) → presence o ≡ 0 → sum_of f (or_default o) ≡ 0
      go none h = refl
      go (some queue) h = absurd (omega (arith, h))

  once-or-absent : (count session q.sessions ≡ 0) ⊎ (count session q.sessions ≡ 1)
  once-or-absent =
      let c = (v session).0 in
      let most = presence-le-one (q.messages session) in ground (arith, c, most)

  -- What the removal takes away is the backlog of the session.
  pub weight-remove_session :
      (f : ScheduledMessage → ℕ)
      → weight f (remove_session session q).1 + sum_of f (backlog q session) ≡ weight f q
  unfolding weight remove_session
  weight-remove_session f =
      let g' = load f (remove_session session q).1 in
      let kept : sum_at g' (keep (others session) q.sessions) ≡ sum_at g' q.sessions =
        sum_at-keep session g' q.sessions (removed_empty f) in
      elim once-or-absent [
        | inl none_there ↦ omega (
          arith,
          kept,
          sum_at_absent session (load f q) g' q.sessions (removed_agrees f) none_there,
          absent-load f none_there,
        )
        | inr once ↦ omega (
          arith,
          kept,
          sum_at_present session (load f q) g' q.sessions (removed_agrees f) once,
          removed_empty f,
        )
      ]

-- The figure of the messages of one session, and none for the others.
abbrev pub owned : (ScheduledMessage → ℕ) → ℕ → ScheduledMessage → ℕ
owned f session m = if m.session == session then f m else 0

sum_of-owned_self :
    (f : ScheduledMessage → ℕ) (session : ℕ) (ms : List ScheduledMessage)
    → All (λ m. m.session ≡ session) ms
    → sum_of (owned f session) ms ≡ sum_of f ms
unfolding sum_of
sum_of-owned_self f session [] a = refl
sum_of-owned_self f session (m ∷ ms) a = ground (arith, a.0, sum_of-owned_self f session ms a.1)

sum_of-owned_other :
    (f : ScheduledMessage → ℕ) (session k : ℕ) (ms : List ScheduledMessage)
    → k ≢ session
    → All (λ m. m.session ≡ k) ms
    → sum_of (owned f session) ms ≡ 0
unfolding sum_of
sum_of-owned_other f session k [] ne a = refl
sum_of-owned_other f session k (m ∷ ms) ne a =
    ground (arith, a.0, ne, sum_of-owned_other f session k ms ne a.1)

pub sum_at_zero : (ss : List ℕ) → sum_at (λ session. 0) ss ≡ 0
unfolding sum_at
sum_at_zero [] = refl
sum_at_zero (s ∷ ss) = omega (arith, sum_at_zero ss)

-- The messages of a session that wait in a class are its backlog.
pub weight-owned :
    (f : ScheduledMessage → ℕ) (session : ℕ) (q : FairPriorityQueue)
    → IsValid q
    → weight (owned f session) q ≡ sum_of f (backlog q session)
unfolding weight
weight-owned f session q v =
    let g = load (owned f session) q in
    let same : AgreeBut session g (λ k. 0) =
      λ k ne. sym (sum_of-owned_other f session k (backlog q k) ne (v k).2) in
    let self = sum_of-owned_self f session (backlog q session) (v session).2 in
    elim (once-or-absent session q v) [
      | inl none_there ↦ omega (
        arith,
        sum_at_absent session g (λ k. 0) q.sessions same none_there,
        sum_at_zero q.sessions,
        absent-load session q v (owned f session) none_there,
        self,
      )
      | inr once ↦ omega (
        arith,
        sum_at_present session g (λ k. 0) q.sessions same once,
        sum_at_zero q.sessions,
        self,
      )
    ]
