-- ===== src/Game/Scheduler/Weight.antt =====
-- What waits in the queue of one class of crates/rnet-game/src/scheduler.rs, measured: each message counts
-- by a figure of its own, such as its reserved bytes.
use rnetlib.Prelude.{
  ℕ, suc, ◌+◌, ◌≤◌, ◌≡◌, ◌≢◌, refl, sym, ap, arith, Option, none, some, List, [], ◌∷◌, ◌++◌,
  if◌then◌else◌, same-or-not, inl, inr,
}
use rnetlib.Game.Scheduler.{ScheduledMessage, FairPriorityQueue, or_default, is_empty, push}
use rnetlib.Game.Scheduler.Fair.{
  backlog, IsValid, count, presence, count_nil, count_self_cons, count_other_cons, NonEmpty,
}
use rnetlib.Game.Scheduler.Rounds.{Served, push_lem}

unfoldable pub sum_of : (ScheduledMessage → ℕ) → List ScheduledMessage → ℕ
sum_of f [] = 0
sum_of f (m ∷ ms) = f m + sum_of f ms

pub sum_of-append :
    (f : ScheduledMessage → ℕ) (xs ys : List ScheduledMessage)
    → sum_of f (xs ++ ys) ≡ sum_of f xs + sum_of f ys
unfolding sum_of
sum_of-append f [] ys = omega arith
sum_of-append f (x ∷ xs) ys = omega (arith, sum_of-append f xs ys)

unfoldable pub sum_at : (ℕ → ℕ) → List ℕ → ℕ
sum_at g [] = 0
sum_at g (s ∷ ss) = g s + sum_at g ss

sum_at-append : (g : ℕ → ℕ) (xs ys : List ℕ) → sum_at g (xs ++ ys) ≡ sum_at g xs + sum_at g ys
unfolding sum_at
sum_at-append g [] ys = omega arith
sum_at-append g (x ∷ xs) ys = omega (arith, sum_at-append g xs ys)

-- Two figures that differ at one session only.
abbrev pub AgreeBut : ℕ → (ℕ → ℕ) → (ℕ → ℕ) → Type 0
AgreeBut k g g' = (s : ℕ) → s ≢ k → g' s ≡ g s

pub count_eq_cons : (k s : ℕ) (ss : List ℕ) → k ≡ s → count k (s ∷ ss) ≡ suc (count k ss)
count_eq_cons k s ss e = rw e (count_self_cons s ss)

pub sum_at_absent :
    (k : ℕ) (g g' : ℕ → ℕ) (ss : List ℕ)
    → AgreeBut k g g'
    → count k ss ≡ 0
    → sum_at g' ss ≡ sum_at g ss
unfolding sum_at
sum_at_absent k g g' [] same c = refl
sum_at_absent k g g' (s ∷ ss) same c = elim (same-or-not k s) [
  | inl e ↦ absurd (omega (arith, count_eq_cons k s ss e, c))
  | inr ne ↦ omega (
    arith,
    same s (λ e. ne (sym e)),
    sum_at_absent k g g' ss same (omega (arith, count_other_cons k s ss ne, c)),
  )
]

pub sum_at_present :
    (k : ℕ) (g g' : ℕ → ℕ) (ss : List ℕ)
    → AgreeBut k g g'
    → count k ss ≡ 1
    → sum_at g' ss + g k ≡ sum_at g ss + g' k
unfolding sum_at
sum_at_present k g g' [] same c = absurd (omega (arith, count_nil k, c))
sum_at_present k g g' (s ∷ ss) same c = elim (same-or-not k s) [
  | inl e ↦ omega (
    arith,
    ap g e,
    ap g' e,
    sum_at_absent k g g' ss same (omega (arith, count_eq_cons k s ss e, c)),
  )
  | inr ne ↦ omega (
    arith,
    same s (λ e. ne (sym e)),
    sum_at_present k g g' ss same (omega (arith, count_other_cons k s ss ne, c)),
  )
]

unfoldable pub weight : (ScheduledMessage → ℕ) → FairPriorityQueue → ℕ
weight f q = sum_at (λ session. sum_of f (backlog q session)) q.sessions

-- Where a push leaves the order.
data Placed (session : ℕ) (q : FairPriorityQueue) (sessions : List ℕ) : Type 0 where
  joined :
      count session q.sessions ≡ 0
      → sessions ≡ q.sessions ++ session ∷ []
      → backlog q session ≡ []
      → Placed session q sessions
  waiting : count session q.sessions ≡ 1 → sessions ≡ q.sessions → Placed session q sessions

placed :
    (session : ℕ) (q : FairPriorityQueue) (o : Option (List ScheduledMessage))
    → q.messages session ≡ o
    → count session q.sessions ≡ presence o
    → NonEmpty o
    → Placed session q (if is_empty (or_default o) then q.sessions ++ session ∷ [] else q.sessions)
placed session q none e c n = joined c refl (ap or_default e)
placed session q (some []) e c n = absurd n
placed session q (some (m ∷ ms)) e c n = waiting c refl

push-Placed :
    (m : ScheduledMessage) (q : FairPriorityQueue)
    → IsValid q
    → Placed m.session q (push m q).sessions
unfolding push
push-Placed m q v =
    let (c, n, owned) = v m.session in placed m.session q (q.messages m.session) refl c n

abbrev pub load : (ScheduledMessage → ℕ) → FairPriorityQueue → ℕ → ℕ
load f q session = sum_of f (backlog q session)

-- One more message.
pub weight-push :
    (f : ScheduledMessage → ℕ) (m : ScheduledMessage) (q : FairPriorityQueue)
    → IsValid q
    → weight f (push m q) ≡ weight f q + f m
unfolding weight sum_at sum_of
weight-push f m q v =
    let (_, appended, others) = push_lem m q v in
    let same : AgreeBut m.session (load f q) (load f (push m q)) =
      λ s ne. ap (sum_of f) (others s ne) in
    let here : load f (push m q) m.session ≡ load f q m.session + f m =
      omega (arith, ap (sum_of f) appended, sum_of-append f (backlog q m.session) (m ∷ [])) in
    elim (push-Placed m q v) [
      | joined c order empty ↦ omega (
        arith,
        ap (sum_at (load f (push m q))) order,
        sum_at-append (load f (push m q)) q.sessions (m.session ∷ []),
        sum_at_absent m.session (load f q) (load f (push m q)) q.sessions same c,
        ap (sum_of f) empty,
      )
      | waiting c order ↦ omega (
        arith,
        ap (sum_at (load f (push m q))) order,
        sum_at_present m.session (load f q) (load f (push m q)) q.sessions same c,
      )
    ]

pub presence-le-one : (o : Option (List ScheduledMessage)) → presence o ≤ 1
presence-le-one none = omega arith
presence-le-one (some queue) = omega arith

-- One message less.
pub weight-Served :
    (f : ScheduledMessage → ℕ) (q : FairPriorityQueue) (session : ℕ) (rest : List ℕ)
    {m : ScheduledMessage} {q' : FairPriorityQueue}
    → IsValid q
    → q.sessions ≡ session ∷ rest
    → Served q session rest m q'
    → weight f q ≡ f m + weight f q'
unfolding weight sum_at sum_of
weight-Served f q session rest {m} {q'} v order s =
    let same : AgreeBut session (load f q) (load f q') = λ k ne. ap (sum_of f) (s.others k ne) in
    let once : count session rest ≡ 0 = omega (
      arith,
      (v session).0,
      ap (count session) order,
      count_self_cons session rest,
      presence-le-one (q.messages session),
    ) in
    let before = ap (sum_at (load f q)) order in
    let kept = sum_at_absent session (load f q) (load f q') rest same once in
    elim s.turned [
      | inl (done, order') ↦ omega (
        arith,
        before,
        kept,
        ap (sum_of f) s.oldest,
        ap (sum_of f) done,
        ap (sum_at (load f q')) order',
      )
      | inr (more, order') ↦ omega (
        arith,
        before,
        kept,
        ap (sum_of f) s.oldest,
        ap (sum_at (load f q')) order',
        sum_at-append (load f q') rest (session ∷ []),
      )
    ]
