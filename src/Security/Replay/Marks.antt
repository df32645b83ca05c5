-- ===== src/Security/Replay/Marks.antt =====
-- The bitmap of the replay window of crates/rnet-security/src/lib.rs: which bit stands for which nonce.
use Prim.Native.Nat.{bit_or, bit_and}
use native.Mathlib.Nat.{one-le-pow}
use rnetlib.Prelude.{
  ℕ, zero, suc, ◌+◌, ◌-◌, ◌*◌, ◌%◌, ◌^◌, ◌≤◌, ◌<◌, max, ◌≡◌, ◌≢◌, refl, sym, ap, ◌∙◌, arith, Bool,
  true, false, ◌||◌, List, [], ◌∷◌, ◌==◌, leb, u64_mod, Bool-cases, inl, inr, neq-test, same-or-not,
  dec_lt,
}
use rnetlib.Prelude.BitAt.{
  bit, bit-zero, bit_and-power, bit-bit_or_self, bit-bit_or_other, bit-shifted, bit-shifted_below,
  bit-mod,
}
use rnetlib.Security.Replay.{is_marked, advance}

unfoldable pub elem : ℕ → List ℕ → Bool
elem n [] = false
elem n (x ∷ xs) = n == x || elem n xs

abbrev pub highest_of : List ℕ → ℕ
highest_of [] = 0
highest_of (x ∷ xs) = max x (highest_of xs)

abbrev pub mark : Bool → ℕ
mark true = 1
mark false = 0

pub record Marks (highest bitmap : ℕ) (accepted : List ℕ) : Type 0 where
  pub top : highest_of accepted ≡ highest
  pub marked : (d : ℕ) → d < 64 → d ≤ highest → bit d bitmap ≡ mark (elem (highest - d) accepted)

pub elem-le-highest : (n : ℕ) (accepted : List ℕ) → elem n accepted ≡ true → n ≤ highest_of accepted
unfolding elem
elem-le-highest n [] h = cc
elem-le-highest n (x ∷ xs) h = ground (arith, elem-le-highest n xs)

pub not_above : (n : ℕ) (accepted : List ℕ) → highest_of accepted < n → elem n accepted ≡ false
not_above n accepted h = ground (arith, elem-le-highest n accepted)

pub marked_lem : (bitmap d : ℕ) (b : Bool) → d < 64 → bit d bitmap ≡ mark b → is_marked bitmap d ≡ b
marked_lem bitmap d true small e =
    let set_bit : bit_and bitmap (2 ^ d) ≡ 2 ^ d = bit_and-power d bitmap ∙ rw e (omega arith) in
    ground (arith, set_bit, one-le-pow d 2 (omega arith))
marked_lem bitmap d false small e =
    let clear_bit : bit_and bitmap (2 ^ d) ≡ 0 = bit_and-power d bitmap ∙ rw e (omega arith) in
    ground (arith, clear_bit)

-- The bitmap after an advance by `d`: the new highest is marked, the old marks have moved up.
advance_zero : (bitmap d : ℕ) → bit 0 (advance bitmap d) ≡ 1
advance_zero bitmap d = elim (Bool-cases (leb 64 d)) [
  | inl far ↦ rw far refl
  | inr near ↦ rw near (bit-bit_or_self 0 (bitmap * 2 ^ d % u64_mod))
]

bit-one_above : (k : ℕ) → bit (suc k) 1 ≡ 0
bit-one_above k = bit-zero k

far-false : (d k : ℕ) → d ≤ k → k < 64 → leb 64 d ≡ false
far-false d k h small = ground arith

nonzero : (k : ℕ) → 0 < k → k ≢ 0
nonzero k pos e = omega arith

advance_near :
    (bitmap d k : ℕ)
    → leb 64 d ≡ false
    → 0 < k
    → k < 64
    → bit k (advance bitmap d) ≡ bit k (bitmap * 2 ^ d)
advance_near bitmap d k near pos small = rw near (
    bit-bit_or_other 0 k (bitmap * 2 ^ d % u64_mod) (nonzero k pos)
    ∙ bit-mod 64 k (bitmap * 2 ^ d) small)

advance_moved :
    (bitmap d k : ℕ) → 0 < d → d ≤ k → k < 64 → bit k (advance bitmap d) ≡ bit (k - d) bitmap
advance_moved bitmap d k pos h small =
    let e : d + (k - d) ≡ k = omega arith in
    advance_near bitmap d k (far-false d k h small) (omega arith) small
    ∙ sym (ap (λ j. bit j (bitmap * 2 ^ d)) e)
    ∙ bit-shifted d (k - d) bitmap

far_bit : (bitmap k d : ℕ) → leb 64 d ≡ true → bit (suc k) (advance bitmap d) ≡ 0
far_bit bitmap k d far =
    let e : advance bitmap d ≡ 1 = rw far refl in ap (bit (suc k)) e ∙ bit-one_above k

advance_between : (bitmap d k : ℕ) → suc k < d → suc k < 64 → bit (suc k) (advance bitmap d) ≡ 0
advance_between bitmap d k h small = elim (Bool-cases (leb 64 d)) [
  | inl far ↦ far_bit bitmap k d far
  | inr near ↦
      advance_near bitmap d (suc k) near (omega arith) small ∙ bit-shifted_below d (suc k) bitmap h
]

pub elem_nil : (n : ℕ) → elem n [] ≡ false
unfolding elem
elem_nil n = refl

pub elem_self : (n : ℕ) (accepted : List ℕ) → elem n (n ∷ accepted) ≡ true
unfolding elem
elem_self n accepted = ground arith

pub elem_other : (n m : ℕ) (accepted : List ℕ) → n ≢ m → elem n (m ∷ accepted) ≡ elem n accepted
unfolding elem
elem_other n m accepted ne = rw (neq-test n m ne) refl

above_marked :
    (highest bitmap nonce : ℕ) (accepted : List ℕ)
    → Marks highest bitmap accepted
    → highest < nonce
    → (d : ℕ) → d < 64
    → d ≤ nonce
    → bit d (advance bitmap (nonce - highest)) ≡ mark (elem (nonce - d) (nonce ∷ accepted))
above_marked highest bitmap nonce accepted t above zero small low =
    let e : nonce - 0 ≡ nonce = omega arith in
    advance_zero bitmap (nonce - highest) ∙ rw (e, elem_self nonce accepted) refl
above_marked highest bitmap nonce accepted t above (suc k) small low =
    rw (elem_other (nonce - suc k) nonce accepted (λ e. omega arith))
      (elim (dec_lt (suc k) (nonce - highest)) [
        | yes between ↦
            advance_between bitmap (nonce - highest) k between small
            ∙ sym (ap mark (not_above (nonce - suc k) accepted (omega (arith, t.top))))
        | no beyond ↦
            let e : highest - (suc k - (nonce - highest)) ≡ nonce - suc k = omega arith in
            advance_moved bitmap (nonce - highest) (suc k) (omega arith) (omega arith) small
            ∙ t.marked (suc k - (nonce - highest)) (omega arith) (omega arith)
            ∙ ap (λ n. mark (elem n accepted)) e
      ])

pub insert_above :
    (highest bitmap nonce : ℕ) (accepted : List ℕ)
    → Marks highest bitmap accepted
    → highest < nonce
    → Marks nonce (advance bitmap (nonce - highest)) (nonce ∷ accepted)
insert_above highest bitmap nonce accepted t above = record {
  top = omega (arith, t.top);
  marked = above_marked highest bitmap nonce accepted t above;
}

within_marked :
    (highest bitmap nonce : ℕ) (accepted : List ℕ)
    → Marks highest bitmap accepted
    → nonce ≤ highest
    → (d : ℕ) → d < 64
    → d ≤ highest
    → bit d (bit_or bitmap (2 ^ (highest - nonce))) ≡ mark (elem (highest - d) (nonce ∷ accepted))
within_marked highest bitmap nonce accepted t below d small low =
    elim (same-or-not d (highest - nonce)) [
      | inl e ↦
          let e' : highest - (highest - nonce) ≡ nonce = omega arith in
          rw (e, e', elem_self nonce accepted) (bit-bit_or_self (highest - nonce) bitmap)
      | inr ne ↦
          rw (elem_other (highest - d) nonce accepted (λ e. ne (omega arith)))
            (bit-bit_or_other (highest - nonce) d bitmap ne ∙ t.marked d small low)
    ]

pub insert_within :
    (highest bitmap nonce : ℕ) (accepted : List ℕ)
    → Marks highest bitmap accepted
    → nonce ≤ highest
    → Marks highest (bit_or bitmap (2 ^ (highest - nonce))) (nonce ∷ accepted)
insert_within highest bitmap nonce accepted t below = record {
  top = omega (arith, t.top);
  marked = within_marked highest bitmap nonce accepted t below;
}

pub first_marked : (nonce d : ℕ) → d ≤ nonce → bit d 1 ≡ mark (elem (nonce - d) (nonce ∷ []))
first_marked nonce zero low =
    let e : nonce - 0 ≡ nonce = omega arith in rw (e, elem_self nonce []) refl
first_marked nonce (suc k) low =
    bit-one_above k
    ∙ sym (
        ap mark (elem_other (nonce - suc k) nonce [] (λ e. omega arith) ∙ elem_nil (nonce - suc k)))
