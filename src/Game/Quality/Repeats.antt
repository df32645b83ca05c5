-- ===== src/Game/Quality/Repeats.antt =====
-- A sequence number that comes again after others, over `UdpLossTracker` of crates/rnet-game/src/quality.rs.
use Prim.Native.Nat.{bit_and}
use native.Mathlib.Nat.{one-le-pow}
use rnetlib.Prelude.{
  ℕ, ◌*◌, ◌^◌, ◌≤◌, ◌<◌, ◌≡◌, ◌≢◌, refl, ◌∙◌, arith, true, false, not, ◌||◌, Option, none, List, [],
  ◌∷◌, All, some, ◌==◌, ltb, leb, Bool-cases, inl, inr,
}
use rnetlib.Prelude.BitAt.{bit_and-power}
use rnetlib.Game.Quality.{UdpLossTracker, new_tracker, observe, wrapping_sub, reorder_window}
use rnetlib.Game.Quality.Loss.{
  CountsNothing, CountsNothing-old, CountsNothing-seen, behind_old, behind_seen, observe_same,
  observe_far, observe_near,
}
use rnetlib.Game.Quality.Window.{
  Marked, Anchored, ahead_distance, ahead-seen, ahead-Anchored, observe_behind-Behind,
  behind-Anchored, behind-Past, Valid, Past,
}

-- The ways an observation goes, after the first one.
module _ (next highest : ℕ) (t : UdpLossTracker) (small : next < 2 ^ 32)
    (a : Anchored t highest) where
  observe-Anchored : (h : ℕ) × Anchored (observe next t).1 h
  observe-Anchored = elim (Bool-cases (wrapping_sub next highest == 0)) [
    | inl same ↦ rw (observe_same next highest t a.is_highest same) (
      highest,
      record { is_highest = a.is_highest; in_range = a.in_range; in_window = a.in_window },
    )
    | inr other ↦ elim (Bool-cases (ltb (wrapping_sub next highest) (2 ^ 31))) [
      | inl ahead ↦
          rw (observe_far next highest t a.is_highest other ahead)
            (next, ahead-Anchored next (wrapping_sub next highest) t small)
      | inr behind ↦
          rw (observe_near next highest t a.is_highest other behind)
            (highest, behind-Anchored highest (wrapping_sub highest next) t a)
    ]
  ]

  -- A number stays observed while it is near.
  observe-Past :
      (sequence : ℕ)
      → sequence < 2 ^ 32
      → wrapping_sub highest sequence < 2 ^ 31
      → Marked (wrapping_sub highest sequence) t
      → Past sequence (observe next t).1
  observe-Past sequence tiny near marked = elim (Bool-cases (wrapping_sub next highest == 0)) [
    | inl same ↦ rw (observe_same next highest t a.is_highest same) (
      highest,
      record { is_highest = a.is_highest; in_range = a.in_range; in_window = a.in_window },
      marked,
    )
    | inr other ↦ elim (Bool-cases (ltb (wrapping_sub next highest) (2 ^ 31))) [
      | inl ahead ↦
          let forward = wrapping_sub next highest in
          let d = ahead_distance sequence highest next tiny a.in_range small near (ground arith) in
          rw (observe_far next highest t a.is_highest other ahead) (
            next,
            ahead-Anchored next forward t small,
            rw d (
                ahead-seen next forward t (λ z. ground arith) (wrapping_sub highest sequence)
                  marked),
          )
      | inr behind ↦
          rw (observe_near next highest t a.is_highest other behind)
            (behind-Past sequence highest (wrapping_sub highest next) t a marked)
    ]
  ]

  -- An observation puts its own number among those observed.
  observe-Past_self : Past next (observe next t).1
  observe-Past_self = elim (Bool-cases (wrapping_sub next highest == 0)) [
    | inl same ↦
        let r = a.in_range in
        let here : next ≡ highest = ground (arith, r) in
        let d : wrapping_sub highest next ≡ 0 = omega (arith, r) in
        rw (observe_same next highest t a.is_highest same) (
          highest,
          record { is_highest = a.is_highest; in_range = a.in_range; in_window = a.in_window },
          rw d (inr (inr a.in_window)),
        )
    | inr other ↦ elim (Bool-cases (ltb (wrapping_sub next highest) (2 ^ 31))) [
      | inl ahead ↦
          let a' = ahead-Anchored next (wrapping_sub next highest) t small in
          let d : wrapping_sub next next ≡ 0 = omega arith in
          rw (observe_far next highest t a.is_highest other ahead)
            (next, a', rw d (inr (inr a'.in_window)))
      | inr behind ↦ rw (observe_near next highest t a.is_highest other behind) (
        highest,
        behind-Anchored highest (wrapping_sub highest next) t a,
        (observe_behind-Behind (wrapping_sub highest next) t).marks,
      )
    ]
  ]

other_half :
    (sequence highest : ℕ)
    → sequence < 2 ^ 32
    → highest < 2 ^ 32
    → wrapping_sub highest sequence < 2 ^ 31
    → (wrapping_sub sequence highest == 0) ≡ false
    → ltb (wrapping_sub sequence highest) (2 ^ 31) ≡ false
other_half sequence highest s h near other =
    let apart : wrapping_sub sequence highest ≢ 0 = λ z. ground arith in
    let far : 2 ^ 31 ≤ wrapping_sub sequence highest = omega arith in ground (arith, far)

Marked-set :
    (behind : ℕ) (t : UdpLossTracker)
    → (leb reorder_window behind || leb t.span behind) ≡ false
    → Marked behind t
    → not (bit_and t.seen (2 ^ behind) == 0) ≡ true
Marked-set behind t recent (inl wide) = ground arith
Marked-set behind t recent (inr (inl outside)) = ground arith
Marked-set behind t recent (inr (inr set)) =
    let whole : bit_and t.seen (2 ^ behind) ≡ 2 ^ behind =
      bit_and-power behind t.seen ∙ one_time _ (2 ^ behind) set in
    rw whole (nonzero (2 ^ behind) (one-le-pow behind 2 (omega arith)))
  where
    one_time : (a b : ℕ) → a ≡ 1 → a * b ≡ b
    one_time a b e = rw e (omega arith)

    nonzero : (n : ℕ) → 1 ≤ n → not (n == 0) ≡ true
    nonzero n h = ground arith

-- A number that was observed and is near counts nothing.
Past-CountsNothing :
    (sequence highest : ℕ) (t : UdpLossTracker)
    → sequence < 2 ^ 32
    → Anchored t highest
    → Marked (wrapping_sub highest sequence) t
    → wrapping_sub highest sequence < 2 ^ 31
    → CountsNothing (observe sequence t) t
Past-CountsNothing sequence highest t small a marked near =
    elim (Bool-cases (wrapping_sub sequence highest == 0)) [
      | inl same ↦ rw (observe_same sequence highest t a.is_highest same) (CountsNothing-seen t)
      | inr other ↦
          let r = a.in_range in
          let behind = other_half sequence highest small r near other in
          let d = wrapping_sub highest sequence in
          rw (observe_near sequence highest t a.is_highest other behind)
            (elim (Bool-cases (leb reorder_window d || leb t.span d)) [
              | inl old ↦ rw (behind_old d t old) (CountsNothing-old t)
              | inr recent ↦
                  rw (behind_seen d t recent (Marked-set d t recent marked)) (CountsNothing-seen t)
            ])
    ]

observe_first :
    (sequence : ℕ) (t : UdpLossTracker)
    → sequence < 2 ^ 32
    → t.highest ≡ none
    → Anchored (observe sequence t).1 sequence
unfolding observe
observe_first sequence t small e =
    rw e (record { is_highest = refl; in_range = small; in_window = refl })

observe-Valid : (next : ℕ) (t : UdpLossTracker) → next < 2 ^ 32 → Valid t → Valid (observe next t).1
observe-Valid next t small (inl fresh) = inr (next, observe_first next t small fresh)
observe-Valid next t small (inr (highest, a)) = inr (observe-Anchored next highest t small a)

observe-Past_any :
    (next : ℕ) (t : UdpLossTracker) → next < 2 ^ 32 → Valid t → Past next (observe next t).1
observe-Past_any next t small (inl fresh) =
    let a = observe_first next t small fresh in
    let d : wrapping_sub next next ≡ 0 = omega arith in (next, a, rw d (inr (inr a.in_window)))
observe-Past_any next t small (inr (highest, a)) = observe-Past_self next highest t small a

-- A tracker after observations in order.
abbrev pub observe_all : List ℕ → UdpLossTracker → UdpLossTracker
observe_all [] t = t
observe_all (next ∷ later) t = observe_all later (observe next t).1

-- The highest number is less than half the circle of numbers ahead.
abbrev pub Near : ℕ → Option ℕ → Type 0
Near sequence none = Unit {0}
Near sequence (some highest) = wrapping_sub highest sequence < 2 ^ 31

-- It stays so at each of the observations.
abbrev pub StaysNear : ℕ → UdpLossTracker → List ℕ → Type 0
StaysNear sequence t [] = Near sequence t.highest
StaysNear sequence t (next ∷ later) =
    Near sequence t.highest × StaysNear sequence (observe next t).1 later

Near-at :
    (sequence highest : ℕ) (o : Option ℕ)
    → o ≡ some highest
    → Near sequence o
    → wrapping_sub highest sequence < 2 ^ 31
Near-at sequence highest o e near = rw e at near

observe_all-Valid :
    (numbers : List ℕ) (t : UdpLossTracker)
    → All (λ n. n < 2 ^ 32) numbers
    → Valid t
    → Valid (observe_all numbers t)
observe_all-Valid [] t small v = v
observe_all-Valid (n ∷ numbers) t (h, small) v =
    observe_all-Valid numbers (observe n t).1 small (observe-Valid n t h v)

observe_all-CountsNothing :
    (sequence : ℕ) (between : List ℕ) (t : UdpLossTracker)
    → sequence < 2 ^ 32
    → All (λ n. n < 2 ^ 32) between
    → StaysNear sequence t between
    → Past sequence t
    → CountsNothing (observe sequence (observe_all between t)) (observe_all between t)
observe_all-CountsNothing sequence [] t tiny small near (highest, a, marked) =
    Past-CountsNothing sequence highest t tiny a marked
      (Near-at sequence highest t.highest a.is_highest near)
observe_all-CountsNothing sequence (n ∷ between) t tiny (h, small) (near, later)
      (highest, a, marked) =
    observe_all-CountsNothing sequence between (observe n t).1 tiny small later (
      observe-Past n highest t h a sequence tiny
        (Near-at sequence highest t.highest a.is_highest near) marked)

-- A sequence number that was observed by a tracker counts nothing when it is observed again, whatever was
-- observed before and between, as long as the highest number is less than 2 ^ 31 ahead of it at each observation
-- since: the answer is that it is a duplicate or too old, and no figure changes but the count of such answers.
pub observe_twice :
    (before : List ℕ) (sequence : ℕ) (between : List ℕ)
    → All (λ n. n < 2 ^ 32) before
    → sequence < 2 ^ 32
    → All (λ n. n < 2 ^ 32) between
    → StaysNear sequence (observe sequence (observe_all before new_tracker)).1 between
    → let t = (observe sequence (observe_all before new_tracker)).1 in
      CountsNothing (observe sequence (observe_all between t)) (observe_all between t)
observe_twice before sequence between early tiny small near =
    let t = observe_all before new_tracker in
    observe_all-CountsNothing sequence between (observe sequence t).1 tiny small near
      (observe-Past_any sequence t tiny (observe_all-Valid before new_tracker early (inl refl)))
