-- ===== src/Core/Lifecycle/Race.antt =====
-- Threads that race on the lifecycle of crates/rnet-core/src/lifecycle.rs. A load and the exchange after it
-- are two atomic steps, and others may come between.
use rnetlib.Prelude.{
  ℕ, suc, ◌+◌, ◌≤◌, ◌≡◌, refl, arith, List, [], ◌∷◌, ◌++◌, Result, ok, inl, inr, ◌⊎◌,
}
use rnetlib.Core.Lifecycle.{Lifecycle, transition, start, begin_draining, mark_stopped}

-- An atomic step of some thread: the exchange of `start`, or that of one of the other two after its load.
pub data Attempt : Type 0 where
  starting : Attempt
  beginning stopping : (seen : Lifecycle) → Attempt

pub attempt : Attempt → ℕ → Result (Unit {0}) × ℕ
attempt Attempt.starting byte = start byte
attempt (Attempt.beginning seen) byte = begin_draining seen byte
attempt (Attempt.stopping seen) byte = mark_stopped seen byte

-- One step: the byte stays, or moves to the next state.
attempt-moves :
    (a : Attempt) (byte : ℕ)
    → byte ≤ 3
    → let (result, byte') = attempt a byte in
      (byte' ≡ byte) ⊎ ((byte' ≡ suc byte) × (byte' ≤ 3) × (result ≡ ok tt))
unfolding attempt start begin_draining mark_stopped transition
attempt-moves Attempt.starting byte h = ground arith
attempt-moves (Attempt.beginning Lifecycle.created) byte h = inl refl
attempt-moves (Attempt.beginning Lifecycle.running) byte h = ground arith
attempt-moves (Attempt.beginning Lifecycle.draining) byte h = inl refl
attempt-moves (Attempt.beginning Lifecycle.stopped) byte h = inl refl
attempt-moves (Attempt.stopping Lifecycle.created) byte h = inl refl
attempt-moves (Attempt.stopping Lifecycle.running) byte h = inl refl
attempt-moves (Attempt.stopping Lifecycle.draining) byte h = ground arith
attempt-moves (Attempt.stopping Lifecycle.stopped) byte h = inl refl

-- The byte after the attempts in order.
pub after : List Attempt → ℕ → ℕ
after [] byte = byte
after (a ∷ rest) byte = after rest (attempt a byte).1

abbrev pub succeeds : Attempt → Result (Unit {0}) × ℕ → ℕ
succeeds Attempt.starting (ok done, byte) = 1
succeeds _ r = 0

-- How many of them are a `start` that succeeds.
pub starts : List Attempt → ℕ → ℕ
starts [] byte = 0
starts (a ∷ rest) byte = succeeds a (attempt a byte) + starts rest (attempt a byte).1

after-grows :
    (attempts : List Attempt) (byte : ℕ)
    → byte ≤ 3
    → (byte ≤ after attempts byte) × (after attempts byte ≤ 3)
unfolding after
after-grows [] byte h = (omega arith, h)
after-grows (a ∷ rest) byte h = elim (attempt-moves a byte h) [
  | inl same ↦
      let (up, top) = after-grows rest (attempt a byte).1 (omega arith) in (omega arith, top)
  | inr (next, top, done) ↦
      let (up, top) = after-grows rest (attempt a byte).1 (omega arith) in (omega arith, top)
]

start_late : (a : Attempt) (byte : ℕ) → 1 ≤ byte → succeeds a (attempt a byte) ≡ 0
unfolding attempt start transition
start_late Attempt.starting byte h = ground arith
start_late (Attempt.beginning seen) byte h = refl
start_late (Attempt.stopping seen) byte h = refl

starts_late : (attempts : List Attempt) (byte : ℕ) → 1 ≤ byte → byte ≤ 3 → starts attempts byte ≡ 0
unfolding starts
starts_late [] byte h k = refl
starts_late (a ∷ rest) byte h k = elim (attempt-moves a byte k) [
  | inl same ↦
      omega (
        arith,
        start_late a byte h,
        starts_late rest (attempt a byte).1 (omega arith) (omega arith),
      )
  | inr (next, top, done) ↦
      omega (
        arith,
        start_late a byte h,
        starts_late rest (attempt a byte).1 (omega arith) (omega arith),
      )
]

start_moves :
    (a : Attempt) (byte : ℕ)
    → (succeeds a (attempt a byte) ≡ 0)
      ⊎ ((succeeds a (attempt a byte) ≡ 1) × ((attempt a byte).1 ≡ 1))
unfolding attempt start transition
start_moves Attempt.starting byte = ground arith
start_moves (Attempt.beginning seen) byte = inl refl
start_moves (Attempt.stopping seen) byte = inl refl

starts_once : (attempts : List Attempt) (byte : ℕ) → byte ≤ 3 → starts attempts byte ≤ 1
unfolding starts
starts_once [] byte h = omega arith
starts_once (a ∷ rest) byte h = elim (start_moves a byte) [
  | inl no_start ↦
      omega (arith, starts_once rest (attempt a byte).1 (bounded (attempt-moves a byte h)))
  | inr (one, moved) ↦
      omega (arith, starts_late rest (attempt a byte).1 (omega arith) (omega arith))
]
  where
    bounded :
        ((attempt a byte).1 ≡ byte)
          ⊎ (((attempt a byte).1 ≡ suc byte)
              × ((attempt a byte).1 ≤ 3)
              × ((attempt a byte).0 ≡ ok tt))
        → (attempt a byte).1 ≤ 3
    bounded (inl same) = omega arith
    bounded (inr (next, top, done)) = top

after-append :
    (earlier later : List Attempt) (byte : ℕ)
    → after (earlier ++ later) byte ≡ after later (after earlier byte)
unfolding after
after-append [] later byte = refl
after-append (a ∷ earlier) later byte = after-append earlier later (attempt a byte).1

-- Whatever threads race on a lifecycle, and however late an exchange follows its load, the state never
-- goes back, never passes Stopped, and at most one `start` succeeds.
pub after-created :
    (earlier later : List Attempt)
    → (after earlier 0 ≤ after (earlier ++ later) 0)
      × (after (earlier ++ later) 0 ≤ 3)
      × (starts (earlier ++ later) 0 ≤ 1)
after-created earlier later =
    let (up, top) = after-grows earlier 0 (omega arith) in
    let (up', top') = after-grows later (after earlier 0) top in
    let whole = after-append earlier later 0 in
    (omega arith, omega arith, starts_once (earlier ++ later) 0 (omega arith))
