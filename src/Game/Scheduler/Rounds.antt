-- ===== src/Game/Scheduler/Rounds.antt =====
-- What the queue of one class of crates/rnet-game/src/scheduler.rs serves: the oldest message of the session
-- at the front, in rounds in which every waiting session has its turn.
use mathlib.Core.Path.{subst, ap₂}
use mathlib.Core.List.{append-nil, append_assoc}
use rnetlib.Prelude.{
  ℕ, zero, suc, ◌≡◌, ◌≢◌, refl, sym, ap, ◌∙◌, arith, Option, none, some, List, [], ◌∷◌, ◌++◌,
  length, inl, inr, ◌⊎◌, map, put_self, put_other,
}
use rnetlib.Game.Scheduler.{ScheduledMessage, FairPriorityQueue, or_default, push, serve, pop}
use rnetlib.Game.Scheduler.Fair.{
  backlog, IsValid, count, presence, count_nil, push-IsValid, front, serve_other, serve_self,
  serve-IsValid, serve-sessions,
}

-- A push keeps the order and the map in step, puts the message at the end of its session's backlog, and
-- leaves the other backlogs.
pub push_lem :
    (m : ScheduledMessage) (q : FairPriorityQueue)
    → IsValid q
    → IsValid (push m q)
      × (backlog (push m q) m.session ≡ backlog q m.session ++ m ∷ [])
      × ((other : ℕ) → other ≢ m.session → backlog (push m q) other ≡ backlog q other)
unfolding push
push_lem m q v = (
  push-IsValid m q v,
  ap or_default (put_self q.messages m.session _),
  (λ other ne. ap or_default (put_other q.messages m.session _ other ne)),
)

-- A pop that serves the session at the front.
pub record Served (q : FairPriorityQueue) (session : ℕ) (rest : List ℕ) (m : ScheduledMessage)
    (q' : FairPriorityQueue) : Type 0 where
  pub owner : m.session ≡ session
  pub oldest : backlog q session ≡ m ∷ backlog q' session
  pub others : (other : ℕ) → other ≢ session → backlog q' other ≡ backlog q other
  pub turned :
      ((backlog q' session ≡ []) × (q'.sessions ≡ rest))
      ⊎ ((backlog q' session ≢ []) × (q'.sessions ≡ rest ++ session ∷ []))
  pub valid : IsValid q'

turned_by :
    (rest : List ℕ) (session : ℕ) (q' : FairPriorityQueue) (left : List ScheduledMessage)
    → backlog q' session ≡ left
    → ((left ≡ []) × (q'.sessions ≡ rest)) ⊎ ((left ≢ []) × (q'.sessions ≡ rest ++ session ∷ []))
    → ((backlog q' session ≡ []) × (q'.sessions ≡ rest))
      ⊎ ((backlog q' session ≢ []) × (q'.sessions ≡ rest ++ session ∷ []))
turned_by rest session q' left e (inl (a, b)) = inl (e ∙ a, b)
turned_by rest session q' left e (inr (a, b)) = inr ((λ h. a (sym e ∙ h)), b)

pop_found :
    (session : ℕ) (rest : List ℕ) (q : FairPriorityQueue) {m : ScheduledMessage}
    {left : List ScheduledMessage}
    → q.sessions ≡ session ∷ rest
    → q.messages session ≡ some (m ∷ left)
    → pop q ≡ some (some m, serve session rest q.messages left)
unfolding pop
pop_found session rest q e found = rw (e, pop) (rw found refl)

pop-Served :
    (session : ℕ) (rest : List ℕ) (q : FairPriorityQueue)
    → IsValid q
    → q.sessions ≡ session ∷ rest
    → (m : ScheduledMessage) × (q' : FairPriorityQueue) × (pop q ≡ some (some m, q'))
      × Served q session rest m q'
unfolding pop
pop-Served session rest q v e =
    let v' : IsValid (record { sessions = session ∷ rest; messages = q.messages }) =
      subst (λ sessions. IsValid (record { sessions = sessions; messages = q.messages })) e v in
    let (m, left, found, c, owner, a) = front session rest (q.messages session) (v' session) in
    let (entry, kept) = serve_self session rest q.messages left c a in
    (
      m,
      serve session rest q.messages left,
      pop_found session rest q e found,
      record {
        owner = owner;
        oldest = ap or_default found ∙ ap (λ ms. m ∷ ms) (sym kept);
        others = λ other ne. ap or_default (serve_other session rest q.messages left other ne).0;
        turned =
            turned_by rest session (serve session rest q.messages left) left kept
              (serve-sessions session rest q.messages left);
        valid = serve-IsValid session rest q.messages left v' c a;
      },
    )

-- An empty order means that nothing waits.
nothing_waits :
    (q : FairPriorityQueue) → IsValid q → q.sessions ≡ [] → (session : ℕ) → backlog q session ≡ []
nothing_waits q v e session = absent (q.messages session) (sym (v session).0 ∙ ap (count session) e)
  where
    absent :
        (o : Option (List ScheduledMessage)) → presence o ≡ count session [] → or_default o ≡ []
    absent none h = refl
    absent (some queue) h = absurd (omega (arith, h, count_nil session))

-- A pop does not panic: it serves the oldest message of the session at the front and leaves the other
-- backlogs, and the session goes to the end of the order if it has more to send. It serves none only
-- if every backlog is empty.
pub pop_lem :
    (q : FairPriorityQueue)
    → IsValid q
    → ((pop q ≡ some (none, q)) × ((session : ℕ) → backlog q session ≡ []))
      ⊎ ((session : ℕ) × (rest : List ℕ) × (m : ScheduledMessage) × (q' : FairPriorityQueue)
          × (q.sessions ≡ session ∷ rest)
          × (pop q ≡ some (some m, q'))
          × Served q session rest m q')
unfolding pop
pop_lem q v = go q.sessions refl
  where
    pop_none : q.sessions ≡ [] → pop q ≡ some (none, q)
    pop_none e = simp (e, pop)

    go :
        (sessions : List ℕ)
        → q.sessions ≡ sessions
        → ((pop q ≡ some (none, q)) × ((session : ℕ) → backlog q session ≡ []))
          ⊎ ((session : ℕ) × (rest : List ℕ) × (m : ScheduledMessage) × (q' : FairPriorityQueue)
              × (q.sessions ≡ session ∷ rest)
              × (pop q ≡ some (some m, q'))
              × Served q session rest m q')
    go [] e = inl (pop_none e, nothing_waits q v e)
    go (session ∷ rest) e =
        let (m, q', served, how) = pop-Served session rest q v e in
        inr (session, rest, m, q', e, served, how)

-- A number of pops in a row; `none` is a panic or a pop that serves none.
pub pops : ℕ → FairPriorityQueue → Option (List ScheduledMessage × FairPriorityQueue)
pops zero q = some ([], q)
pops (suc n) q = elim (pop q) [
  | none ↦ none
  | some (none, q') ↦ none
  | some (some m, q') ↦ elim (pops n q') [ none ↦ none | some (ms, q'') ↦ some (m ∷ ms, q'') ]
]

-- Where the order goes by one pop.
next_order :
    (session : ℕ) (xs ys : List ℕ) (q q' : FairPriorityQueue) {m : ScheduledMessage}
    → Served q session (xs ++ ys) m q'
    → (tail : List ℕ) × (q'.sessions ≡ xs ++ (ys ++ tail))
next_order session xs ys q q' s = elim s.turned [
  | inl (done, same) ↦ ([], same ∙ sym (ap (λ r. xs ++ r) (append-nil ys)))
  | inr (more, moved) ↦ (session ∷ [], moved ∙ append_assoc xs ys (session ∷ []))
]

-- The sessions at the front of the order are served once each, in order, before any session behind them
-- and before any of them a second time.
pub pops_round :
    (xs ys : List ℕ) (q : FairPriorityQueue)
    → IsValid q
    → q.sessions ≡ xs ++ ys
    → (served : List ScheduledMessage) × (q' : FairPriorityQueue) × (later : List ℕ) × (pops
          (length xs)
          q
        ≡ some (served, q'))
      × (map (λ m. m.session) served ≡ xs)
      × (q'.sessions ≡ ys ++ later)
      × IsValid q'
unfolding pops
pops_round [] ys q v e = ([], q, [], refl, refl, e ∙ sym (append-nil ys), v)
pops_round (x ∷ xs) ys q v e =
    let (m, q₁, here, s) = pop-Served x (xs ++ ys) q v e in
    let (tail, order) = next_order x xs ys q q₁ s in
    let (ms, q₂, later, there, owners, order₂, v₂) = pops_round xs (ys ++ tail) q₁ s.valid order in
    (
      m ∷ ms,
      q₂,
      tail ++ later,
      rw (here, pops) (rw there refl),
      ap₂ (λ k ks. k ∷ ks) s.owner owners,
      order₂ ∙ append_assoc ys tail later,
      v₂,
    )
