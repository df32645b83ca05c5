-- ===== src/Prelude/Int.antt =====
-- Signed integers over the native numbers: `negsuc n` is -(n + 1).
use Prim.Native.Nat.{ℕ, suc, ◌+◌, ◌-◌, ◌/◌, ◌≤◌}
use native.Mathlib.Omega.{arith}
use mathlib.Core.Path.{◌≡◌, refl}
use mathlib.Core.Logic.{◌⊎◌, inl, inr}
use rnetlib.Prelude.Tests.{leb, if◌then◌else◌}

pub data ℤ : Type 0 where
  pos : ℕ → ℤ
  negsuc : ℕ → ℤ

abbrev pub pos_part : ℤ → ℕ
pos_part (pos n) = n
pos_part (negsuc n) = 0

abbrev pub neg_part : ℤ → ℕ
neg_part (pos n) = 0
neg_part (negsuc n) = suc n

-- a - b
unfoldable pub sub_ℕ : ℕ → ℕ → ℤ
sub_ℕ a b = if leb b a then pos (a - b) else negsuc (b - a - 1)

infixl 65 ◌+ℤ◌
unfoldable pub ◌+ℤ◌ : ℤ → ℤ → ℤ
a +ℤ b = sub_ℕ (pos_part a + pos_part b) (neg_part a + neg_part b)

-- Half, rounded towards zero.
unfoldable pub half : ℤ → ℤ
unfolding sub_ℕ
half (pos n) = pos (n / 2)
half (negsuc n) = sub_ℕ 0 (suc n / 2)

pub sub_ℕ_parts : (a b : ℕ) → pos_part (sub_ℕ a b) + b ≡ neg_part (sub_ℕ a b) + a
unfolding sub_ℕ
sub_ℕ_parts a b = ground arith

-- The same, for a sum.
pub +ℤ_parts :
    (a b : ℤ)
    → (pos_part (a +ℤ b) + (neg_part a + neg_part b)
        ≡ neg_part (a +ℤ b) + (pos_part a + pos_part b))
      × ((pos_part (a +ℤ b) ≡ 0) ⊎ (neg_part (a +ℤ b) ≡ 0))
unfolding ◌+ℤ◌ sub_ℕ
+ℤ_parts a b = ground arith

pub one_part : (z : ℤ) → (pos_part z ≡ 0) ⊎ (neg_part z ≡ 0)
one_part (pos n) = inr refl
one_part (negsuc n) = inl refl

-- The parts are no larger than what is subtracted.
pub sub_ℕ_range : (a b : ℕ) → (pos_part (sub_ℕ a b) ≤ a) × (neg_part (sub_ℕ a b) ≤ b)
unfolding sub_ℕ
sub_ℕ_range a b = ground arith

pub half_parts :
    (z : ℤ) → (pos_part (half z) ≡ pos_part z / 2) × (neg_part (half z) ≡ neg_part z / 2)
unfolding half sub_ℕ
half_parts (pos n) = (ground arith, ground arith)
half_parts (negsuc n) = (ground arith, ground arith)
