-- ===== src/Game/Quality/Origin.antt =====
-- The window of `UdpLossTracker` of crates/rnet-game/src/quality.rs marks no number that was not observed.
use Prim.Native.Nat.{bit_and, bit_or}
use rnetlib.Prelude.{
  ℕ, zero, suc, ◌+◌, ◌-◌, ◌*◌, ◌%◌, ◌^◌, ◌≤◌, ◌<◌, ◌≡◌, ◌≢◌, refl, sym, ap, ◌∙◌, arith, not, ◌||◌,
  none, same-or-not, ◌==◌, ltb, leb, Bool-cases, inl, inr,
}
use mathlib.Core.Path.{subst}
use rnetlib.Prelude.BitAt.{bit, bit-zero, bit-bit_or_other, bit-shifted, bit-shifted_below, bit-mod}
use rnetlib.Game.Quality.{
  UdpLossTracker, observe, observe_ahead, observe_behind, wrapping_sub, reorder_window,
  max_forward_gap,
}
use rnetlib.Game.Quality.Loss.{
  behind_old, behind_seen, behind_unseen, observe_same, observe_far, observe_near,
}
use rnetlib.Game.Quality.Window.{Anchored, ahead-Anchored, behind-Anchored}

-- The numbers marked in the window are among those of `P`.
abbrev pub Known : (ℕ → Type 0) → ℕ → UdpLossTracker → Type 0
Known P highest t = (k : ℕ) → k < 64 → bit k t.seen ≡ 1 → P (wrapping_sub highest k)

only_newest : (k : ℕ) → bit k 1 ≡ 1 → k ≡ 0
only_newest zero set = refl
only_newest (suc k) set = let clear = bit-zero k in absurd cc

module _ (P : ℕ → Type 0) (sequence highest : ℕ) (tiny : sequence < 2 ^ 32)
    (small : highest < 2 ^ 32) (here : P sequence) (t : UdpLossTracker)
    (known : Known P highest t) where
  newest : (k : ℕ) → k ≡ 0 → P (wrapping_sub sequence k)
  newest k z = let e : sequence ≡ wrapping_sub sequence k = omega arith in subst P e here

  shifted :
      (k : ℕ)
      → k < 64
      → k ≢ 0
      → bit k (bit_or (t.seen * 2 ^ wrapping_sub sequence highest % 2 ^ 64) (2 ^ 0)) ≡ 1
      → P (wrapping_sub sequence k)
  shifted k short other set =
      let forward = wrapping_sub sequence highest in
      let moved : bit k (t.seen * 2 ^ forward) ≡ 1 =
        sym (bit-mod 64 k (t.seen * 2 ^ forward) short)
        ∙ sym (bit-bit_or_other 0 k (t.seen * 2 ^ forward % 2 ^ 64) other)
        ∙ set in
      elim (Bool-cases (ltb k forward)) [
        | inl low ↦
            let clear : bit k (t.seen * 2 ^ forward) ≡ 0 =
              bit-shifted_below forward k t.seen (ground arith) in
            absurd cc
        | inr high ↦
            let up : forward ≤ k = ground arith in
            let split : k ≡ forward + (k - forward) = omega arith in
            let e : wrapping_sub highest (k - forward) ≡ wrapping_sub sequence k = omega arith in
            subst P e (
              known (k - forward) (omega arith) (
                sym (bit-shifted forward (k - forward) t.seen)
                ∙ ap (λ j. bit j (t.seen * 2 ^ forward)) (sym split)
                ∙ moved))
      ]

  ahead-Known : Known P sequence (observe_ahead sequence (wrapping_sub sequence highest) t).1
  unfolding observe_ahead
  ahead-Known k short = elim (Bool-cases (ltb max_forward_gap (wrapping_sub sequence highest))) [
    | inl far ↦ rw far (λ set. newest k (only_newest k set))
    | inr near ↦ rw near (elim (Bool-cases (leb reorder_window (wrapping_sub sequence highest))) [
      | inl wide ↦ rw wide (λ set. newest k (only_newest k set))
      | inr close ↦ rw close (λ set. elim (same-or-not k 0) [
        | inl z ↦ newest k z
        | inr other ↦ shifted k short other set
      ])
    ])
  ]

  behind-Known : Known P highest (observe_behind (wrapping_sub highest sequence) t).1
  behind-Known k short =
      let d = wrapping_sub highest sequence in
      elim (Bool-cases (leb reorder_window d || leb t.span d)) [
        | inl old ↦ rw (behind_old d t old) (known k short)
        | inr recent ↦ elim (Bool-cases (not (bit_and t.seen (2 ^ d) == 0))) [
          | inl set ↦ rw (behind_seen d t recent set) (known k short)
          | inr clear ↦ rw (behind_unseen d t recent clear) (λ set. elim (same-or-not k d) [
            | inl at ↦ let e : sequence ≡ wrapping_sub highest k = omega arith in subst P e here
            | inr other ↦ known k short (sym (bit-bit_or_other d k t.seen other) ∙ set)
          ])
        ]
      ]

-- A tracker whose window marks only numbers of `P`.
abbrev pub Origin : (ℕ → Type 0) → UdpLossTracker → Type 0
Origin P t = (highest : ℕ) × Anchored t highest × Known P highest t

pub observe-Origin :
    (P : ℕ → Type 0) (sequence : ℕ) (t : UdpLossTracker)
    → sequence < 2 ^ 32
    → P sequence
    → Origin P t
    → Origin P (observe sequence t).1
observe-Origin P sequence t tiny here (highest, a, known) =
    let small = a.in_range in
    elim (Bool-cases (wrapping_sub sequence highest == 0)) [
      | inl same ↦ rw (observe_same sequence highest t a.is_highest same) (
        highest,
        record { is_highest = a.is_highest; in_range = a.in_range; in_window = a.in_window },
        known,
      )
      | inr other ↦ elim (Bool-cases (ltb (wrapping_sub sequence highest) (2 ^ 31))) [
        | inl ahead ↦ rw (observe_far sequence highest t a.is_highest other ahead) (
          sequence,
          ahead-Anchored sequence (wrapping_sub sequence highest) t tiny,
          ahead-Known P sequence highest tiny small here t known,
        )
        | inr behind ↦ rw (observe_near sequence highest t a.is_highest other behind) (
          highest,
          behind-Anchored highest (wrapping_sub highest sequence) t a,
          behind-Known P sequence highest tiny small here t known,
        )
      ]
    ]

pub observe-Origin_first :
    (P : ℕ → Type 0) (sequence : ℕ) (t : UdpLossTracker)
    → sequence < 2 ^ 32
    → P sequence
    → t.highest ≡ none
    → Origin P (observe sequence t).1
unfolding observe
observe-Origin_first P sequence t tiny here e = rw e (
  sequence,
  record { is_highest = refl; in_range = tiny; in_window = refl },
  λ k short set.
      let z = only_newest k set in
      let same : sequence ≡ wrapping_sub sequence k = omega arith in subst P same here,
)
