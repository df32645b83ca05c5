-- ===== src/Game/Quality/Window.antt =====
-- The window of `UdpLossTracker` of crates/rnet-game/src/quality.rs: which numbers it holds after an observation.
use Prim.Native.Nat.{bit_and, bit_or}
use rnetlib.Prelude.{
  ℕ, ◌+◌, ◌*◌, ◌%◌, ◌^◌, ◌≤◌, ◌<◌, ◌≡◌, ◌≢◌, refl, ◌∙◌, arith, true, not, ◌||◌, none, same-or-not,
  some, ◌==◌, ltb, leb, u64_mod, Bool-cases, inl, inr, ◌⊎◌,
}
use rnetlib.Prelude.BitAt.{
  bit, bit-le-one, bit_and-power, bit-bit_or_self, bit-bit_or_other, bit-shifted, bit-mod,
}
use rnetlib.Game.Quality.{
  UdpLossTracker, observe_ahead, observe_behind, wrapping_sub, reorder_window, max_forward_gap,
}
use rnetlib.Game.Quality.Loss.{behind_old, behind_seen, behind_unseen}

-- What the window says of a number that is `behind` the highest one and has been observed.
abbrev pub Marked : ℕ → UdpLossTracker → Type 0
Marked behind t = (64 ≤ behind) ⊎ ((t.span ≤ behind) ⊎ (bit behind t.seen ≡ 1))

-- A tracker whose highest number is in its window.
pub record Anchored (t : UdpLossTracker) (highest : ℕ) : Type 0 where
  pub is_highest : t.highest ≡ some highest
  pub in_range : highest < 2 ^ 32
  pub in_window : bit 0 t.seen ≡ 1

-- Nothing is observed yet, or the highest number is in the window.
abbrev pub Valid : UdpLossTracker → Type 0
Valid t = (t.highest ≡ none) ⊎ ((highest : ℕ) × Anchored t highest)

-- A number that has been observed.
abbrev pub Past : ℕ → UdpLossTracker → Type 0
Past sequence t = (highest : ℕ) × Anchored t highest × Marked (wrapping_sub highest sequence) t

pub ahead_distance :
    (sequence highest next : ℕ)
    → sequence < 2 ^ 32
    → highest < 2 ^ 32
    → next < 2 ^ 32
    → wrapping_sub highest sequence < 2 ^ 31
    → wrapping_sub next highest < 2 ^ 31
    → wrapping_sub next sequence ≡ wrapping_sub next highest + wrapping_sub highest sequence
ahead_distance sequence highest next s h n a b = omega arith

-- The window after an observation ahead.
pub ahead-seen :
    (sequence forward : ℕ) (t : UdpLossTracker)
    → forward ≢ 0
    → (behind : ℕ) → Marked behind t
    → Marked (forward + behind) (observe_ahead sequence forward t).1
unfolding observe_ahead
ahead-seen sequence forward t moved behind marked =
    elim (Bool-cases (ltb max_forward_gap forward)) [
      | inl far ↦ rw far (inl (ground arith))
      | inr near ↦ rw near (elim (Bool-cases (leb reorder_window forward)) [
        | inl wide ↦ inl (ground arith)
        | inr short ↦ rw short (elim marked [
          | inl old ↦ inl (omega arith)
          | inr (inl outside) ↦ inr (inl (omega arith))
          | inr (inr set) ↦ elim (Bool-cases (leb 64 (forward + behind))) [
            | inl old ↦ inl (ground arith)
            | inr recent ↦ inr (
                inr (
                  bit-bit_or_other 0 (forward + behind) (t.seen * 2 ^ forward % u64_mod)
                    (λ e. moved (omega arith))
                  ∙ bit-mod 64 (forward + behind) (t.seen * 2 ^ forward) (ground arith)
                  ∙ bit-shifted forward behind t.seen
                  ∙ set))
          ]
        ])
      ])
    ]

pub ahead-Anchored :
    (sequence forward : ℕ) (t : UdpLossTracker)
    → sequence < 2 ^ 32
    → Anchored (observe_ahead sequence forward t).1 sequence
unfolding observe_ahead
ahead-Anchored sequence forward t small = elim (Bool-cases (ltb max_forward_gap forward)) [
  | inl far ↦ rw far (record { is_highest = refl; in_range = small; in_window = refl })
  | inr near ↦ rw near (record {
    is_highest = refl;
    in_range = small;
    in_window = elim (Bool-cases (leb reorder_window forward)) [
      | inl wide ↦ rw wide refl
      | inr short ↦ rw short (bit-bit_or_self 0 (t.seen * 2 ^ forward % u64_mod))
    ];
  })
]

or_keeps : (k j seen : ℕ) → bit j seen ≡ 1 → bit j (bit_or seen (2 ^ k)) ≡ 1
or_keeps k j seen set = elim (same-or-not j k) [
  | inl here ↦ rw here (bit-bit_or_self k seen)
  | inr other ↦ bit-bit_or_other k j seen other ∙ set
]

-- What an observation behind leaves, and the mark it makes.
pub record Behind (behind : ℕ) (t t' : UdpLossTracker) : Type 0 where
  pub same_highest : t'.highest ≡ t.highest
  pub same_span : t'.span ≡ t.span
  pub keeps : (j : ℕ) → bit j t.seen ≡ 1 → bit j t'.seen ≡ 1
  pub marks : Marked behind t'

pub test-bit : (k seen : ℕ) → not (bit_and seen (2 ^ k) == 0) ≡ true → bit k seen ≡ 1
test-bit k seen h = elim (Bool-cases (bit k seen == 0)) [
  | inl clear ↦
      let z : bit k seen ≡ 0 = ground arith in
      let none_left : bit_and seen (2 ^ k) ≡ 0 = bit_and-power k seen ∙ zero_times _ (2 ^ k) z in
      let h' = rw none_left at h in absurd cc
  | inr set ↦ let small = bit-le-one k seen in ground (arith, small)
]
  where
    zero_times : (a b : ℕ) → a ≡ 0 → a * b ≡ 0
    zero_times a b z = rw z (omega arith)

old-cases : (a b c d : ℕ) → (leb a b || leb c d) ≡ true → (a ≤ b) ⊎ (c ≤ d)
old-cases a b c d h = ground arith

pub observe_behind-Behind :
    (behind : ℕ) (t : UdpLossTracker) → Behind behind t (observe_behind behind t).1
observe_behind-Behind behind t =
    elim (Bool-cases (leb reorder_window behind || leb t.span behind)) [
      | inl old ↦ rw (behind_old behind t old) (record {
        same_highest = refl;
        same_span = refl;
        keeps = λ j set. set;
        marks = elim (old-cases 64 behind t.span behind old) [
          | inl wide ↦ inl wide
          | inr outside ↦ inr (inl outside)
        ];
      })
      | inr recent ↦ elim (Bool-cases (not (bit_and t.seen (2 ^ behind) == 0))) [
        | inl set ↦ rw (behind_seen behind t recent set) (record {
          same_highest = refl;
          same_span = refl;
          keeps = λ j set'. set';
          marks = inr (inr (test-bit behind t.seen set));
        })
        | inr clear ↦ rw (behind_unseen behind t recent clear) (record {
          same_highest = refl;
          same_span = refl;
          keeps = λ j set. or_keeps behind j t.seen set;
          marks = inr (inr (bit-bit_or_self behind t.seen));
        })
      ]
    ]

pub behind-Anchored :
    (highest behind : ℕ) (t : UdpLossTracker)
    → Anchored t highest
    → Anchored (observe_behind behind t).1 highest
behind-Anchored highest behind t a =
    let b = observe_behind-Behind behind t in
    record {
      is_highest = b.same_highest ∙ a.is_highest;
      in_range = a.in_range;
      in_window = b.keeps 0 a.in_window;
    }

pub behind-Past :
    (sequence highest behind : ℕ) (t : UdpLossTracker)
    → Anchored t highest
    → Marked (wrapping_sub highest sequence) t
    → Past sequence (observe_behind behind t).1
behind-Past sequence highest behind t a marked =
    let b = observe_behind-Behind behind t in
    (
      highest,
      behind-Anchored highest behind t a,
      elim marked [
        | inl wide ↦ inl wide
        | inr (inl outside) ↦ inr (inl (omega (arith, b.same_span, outside)))
        | inr (inr set) ↦ inr (inr (b.keeps (wrapping_sub highest sequence) set))
      ],
    )
