-- ===== src/Game/Scheduler/Fair.antt =====
-- The queue of one class of crates/rnet-game/src/scheduler.rs: its order and its map agree, no `expect`
-- fails, and each session's messages leave in the order they came.
use mathlib.Core.Path.{subst}
use rnetlib.Prelude.{
  ℕ, suc, ◌+◌, ◌≡◌, ◌≢◌, refl, sym, ◌∙◌, arith, Bool, true, false, Option, none, some, List, [],
  ◌∷◌, ◌++◌, All, All-append, if◌then◌else◌, ◌==◌, ==_refl, Map, put_self, put_other, neq-test, inl,
  inr, ◌⊎◌, same-or-not,
}
use rnetlib.Game.Scheduler.{
  ScheduledMessage, FairPriorityQueue, empty_queue, or_default, is_empty, push, serve,
}

abbrev pub backlog : FairPriorityQueue → ℕ → List ScheduledMessage
backlog q session = or_default (q.messages session)

-- How often a session stands in the order.
unfoldable pub count : ℕ → List ℕ → ℕ
count session [] = 0
count session (other ∷ rest) = (if session == other then 1 else 0) + count session rest

-- How often it should.
abbrev pub presence : Option (List ScheduledMessage) → ℕ
presence none = 0
presence (some queue) = 1

abbrev pub NonEmpty : Option (List ScheduledMessage) → Type 0
NonEmpty none = Unit
NonEmpty (some []) = ⊥
NonEmpty (some (m ∷ ms)) = Unit

-- The order holds each session of the map once, each with a queue of its own messages that is not empty.
abbrev pub IsValid : FairPriorityQueue → Type 0
IsValid q =
    (session : ℕ)
    → (count session q.sessions ≡ presence (q.messages session))
      × NonEmpty (q.messages session)
      × All (λ m. m.session ≡ session) (backlog q session)

pub empty_queue-IsValid : IsValid empty_queue
unfolding count
empty_queue-IsValid session = (refl, tt, tt)

pub count_nil : (session : ℕ) → count session [] ≡ 0
unfolding count
count_nil session = omega arith

pub count-append :
    (session : ℕ) (xs ys : List ℕ) → count session (xs ++ ys) ≡ count session xs + count session ys
unfolding count
count-append session [] ys = omega arith
count-append session (x ∷ xs) ys = omega (arith, count-append session xs ys)

count_single : (session : ℕ) → count session (session ∷ []) ≡ 1
unfolding count
count_single session = rw (==_refl session) (omega arith)

count_other : (session other : ℕ) → session ≢ other → count session (other ∷ []) ≡ 0
unfolding count
count_other session other ne = rw (neq-test session other ne) (omega arith)

pub count_self_cons :
    (session : ℕ) (rest : List ℕ) → count session (session ∷ rest) ≡ suc (count session rest)
unfolding count
count_self_cons session rest = rw (==_refl session) (omega arith)

pub count_other_cons :
    (session other : ℕ) (rest : List ℕ)
    → session ≢ other
    → count session (other ∷ rest) ≡ count session rest
unfolding count
count_other_cons session other rest ne = rw (neq-test session other ne) (omega arith)

count_pushed :
    (session k : ℕ) (b : Bool) (xs : List ℕ)
    → session ≢ k
    → count session (if b then xs ++ k ∷ [] else xs) ≡ count session xs
count_pushed session k true xs ne =
    omega (arith, count-append session xs (k ∷ []), count_other session k ne)
count_pushed session k false xs ne = refl

-- What a session's entry should be, given the order.
abbrev pub Entry : ℕ → List ℕ → Option (List ScheduledMessage) → Type 0
Entry session sessions o =
    (count session sessions ≡ presence o)
    × NonEmpty o
    × All (λ m. m.session ≡ session) (or_default o)

push-Entry :
    (m : ScheduledMessage) (sessions : List ℕ) (o : Option (List ScheduledMessage))
    → Entry m.session sessions o
    → Entry m.session
        (if is_empty (or_default o) then sessions ++ m.session ∷ [] else sessions)
        (some (or_default o ++ m ∷ []))
push-Entry m sessions none (c, n, a) = (
  omega (arith, count-append m.session sessions (m.session ∷ []), count_single m.session),
  tt,
  (refl, tt),
)
push-Entry m sessions (some []) (c, n, a) = absurd n
push-Entry m sessions (some (x ∷ xs)) (c, n, a) =
    (c, tt, (a.0, All-append (λ m'. m'.session ≡ m.session) xs (m ∷ []) a.1 (refl, tt)))

pub push-IsValid : (m : ScheduledMessage) (q : FairPriorityQueue) → IsValid q → IsValid (push m q)
unfolding push
push-IsValid m q v session = elim (same-or-not session m.session) [
  | inr ne ↦
      let (c, n, o) = v session in
      rw
        (put_other q.messages m.session (some (or_default (q.messages m.session) ++ m ∷ [])) session
          ne)
        (count_pushed session m.session _ q.sessions ne ∙ c, n, o)
  | inl e ↦
      subst (λ k. Entry k (push m q).sessions ((push m q).messages k)) (sym e)
        (rw (put_self q.messages m.session (some (or_default (q.messages m.session) ++ m ∷ [])))
          (push-Entry m q.sessions (q.messages m.session) (v m.session)))
]

-- What a pop finds at the front of the order.
pub front :
    (session : ℕ) (rest : List ℕ) (o : Option (List ScheduledMessage))
    → Entry session (session ∷ rest) o
    → (m : ScheduledMessage) × (left : List ScheduledMessage) × (o ≡ some (m ∷ left))
      × (count session rest ≡ 0)
      × (m.session ≡ session)
      × All (λ m'. m'.session ≡ session) left
front session rest none (c, n, a) = absurd (omega (arith, c, count_self_cons session rest))
front session rest (some []) (c, n, a) = absurd n
front session rest (some (m ∷ left)) (c, n, a) =
    (m, left, refl, omega (arith, c, count_self_cons session rest), a.0, a.1)

pub serve_other :
    (session : ℕ) (rest : List ℕ) (messages : Map (List ScheduledMessage))
    (left : List ScheduledMessage) (k : ℕ)
    → k ≢ session
    → ((serve session rest messages left).messages k ≡ messages k)
      × (count k (serve session rest messages left).sessions ≡ count k rest)
serve_other session rest messages [] k ne = (put_other messages session none k ne, refl)
serve_other session rest messages (next ∷ left) k ne = (
  put_other messages session (some (next ∷ left)) k ne,
  omega (arith, count-append k rest (session ∷ []), count_other k session ne),
)

pub serve_self :
    (session : ℕ) (rest : List ℕ) (messages : Map (List ScheduledMessage))
    (left : List ScheduledMessage)
    → count session rest ≡ 0
    → All (λ m. m.session ≡ session) left
    → Entry session
        (serve session rest messages left).sessions
        ((serve session rest messages left).messages session)
      × (or_default ((serve session rest messages left).messages session) ≡ left)
serve_self session rest messages [] c a = rw (put_self messages session none) ((c, tt, tt), refl)
serve_self session rest messages (next ∷ left) c a =
    rw (put_self messages session (some (next ∷ left)))
      ((omega (arith, count-append session rest (session ∷ []), count_single session), tt, a), refl)

pub serve-IsValid :
    (session : ℕ) (rest : List ℕ) (messages : Map (List ScheduledMessage))
    (left : List ScheduledMessage)
    → IsValid (record { sessions = session ∷ rest; messages = messages })
    → count session rest ≡ 0
    → All (λ m. m.session ≡ session) left
    → IsValid (serve session rest messages left)
serve-IsValid session rest messages left v c a k = elim (same-or-not k session) [
  | inl e ↦
      subst
        (λ k.
          Entry k (serve session rest messages left).sessions
            ((serve session rest messages left).messages k))
        (sym e) (serve_self session rest messages left c a).0
  | inr ne ↦
      let (same, counted) = serve_other session rest messages left k ne in
      let (c', n, o) = v k in
      subst (λ entry. Entry k (serve session rest messages left).sessions entry) (sym same)
        (counted ∙ sym (count_other_cons k session rest ne) ∙ c', n, o)
]

-- Where a served session goes: out of the order, or to its end.
pub serve-sessions :
    (session : ℕ) (rest : List ℕ) (messages : Map (List ScheduledMessage))
    (left : List ScheduledMessage)
    → (left ≡ []) × ((serve session rest messages left).sessions ≡ rest)
      ⊎ ((left ≢ []) × ((serve session rest messages left).sessions ≡ rest ++ session ∷ []))
serve-sessions session rest messages [] = inl (refl, refl)
serve-sessions session rest messages (next ∷ left) = inr ((λ e. cc), refl)
