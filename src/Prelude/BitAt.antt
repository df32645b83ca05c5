-- ===== src/Prelude/BitAt.antt =====
-- One binary digit of a number, and what `&`, `|`, `<<` and a reduction to a word do to it.
use Prim.Native.Nat.{ℕ, zero, suc, ◌+◌, ◌*◌, ◌/◌, ◌%◌, ◌^◌, ◌≤◌, ◌<◌, bit_or, bit_and}
use mathlib.Core.Path.{◌≡◌, refl, sym, ◌∙◌, ap, ap₂}
use mathlib.Core.Logic.{◌≢◌}
use native.Mathlib.Nat.{
  pow-suc, one-le-pow, div-add-mod', mod-lt, mul-add-mod_self_right, mod-eq_of_lt,
}
use native.Mathlib.Omega.{arith}
use rnetlib.Prelude.Bits.{bit_and_step, bit_or_step, nothing_and, nothing_or}

abbrev pub bit : ℕ → ℕ → ℕ
bit zero b = b % 2
bit (suc k) b = bit k (b / 2)

pub bit-le-one : (k b : ℕ) → bit k b ≤ 1
bit-le-one zero b = omega arith
bit-le-one (suc k) b = bit-le-one k (b / 2)

pub bit-zero : (k : ℕ) → bit k 0 ≡ 0
bit-zero zero = refl
bit-zero (suc k) = bit-zero k

half_of_power : (k : ℕ) → 2 ^ suc k / 2 ≡ 2 ^ k
half_of_power k = omega (arith, pow-suc 2 k)

shifted_half : (d b : ℕ) → b * 2 ^ suc d / 2 ≡ b * 2 ^ d
shifted_half d b = omega (arith, ap (λ (t : ℕ). b * t) (pow-suc 2 d))

or_half : (k b : ℕ) → bit_or b (2 ^ suc k) / 2 ≡ bit_or (b / 2) (2 ^ k)
or_half k b =
    omega (arith, pow-suc 2 k, bit_or_step b (2 ^ suc k), ap (bit_or (b / 2)) (half_of_power k))

-- `b & (1 << k)`
pub bit_and-power : (k b : ℕ) → bit_and b (2 ^ k) ≡ bit k b * 2 ^ k
bit_and-power zero b = omega (arith, bit_and_step b 1, nothing_and (b / 2) (b / 2) (omega arith))
bit_and-power (suc k) b = omega (
  arith,
  pow-suc 2 k,
  bit_and_step b (2 ^ suc k),
  ap (bit_and (b / 2)) (half_of_power k),
  bit_and-power k (b / 2),
  ap (λ (t : ℕ). bit k (b / 2) * t) (pow-suc 2 k),
)

-- `b | (1 << k)` sets the digit and leaves the others.
pub bit-bit_or_self : (k b : ℕ) → bit k (bit_or b (2 ^ k)) ≡ 1
bit-bit_or_self zero b = omega (arith, bit_or_step b 1)
bit-bit_or_self (suc k) b = ap (bit k) (or_half k b) ∙ bit-bit_or_self k (b / 2)

pub bit-bit_or_other : (k j b : ℕ) → j ≢ k → bit j (bit_or b (2 ^ k)) ≡ bit j b
bit-bit_or_other zero zero b ne = absurd (ne refl)
bit-bit_or_other zero (suc j) b ne =
    let half : bit_or b 1 / 2 ≡ b / 2 =
      omega (arith, bit_or_step b 1, nothing_or (b / 2) (b / 2) (omega arith)) in
    ap (bit j) half
bit-bit_or_other (suc k) zero b ne = omega (arith, bit_or_step b (2 ^ suc k), pow-suc 2 k)
bit-bit_or_other (suc k) (suc j) b ne =
    ap (bit j) (or_half k b) ∙ bit-bit_or_other k j (b / 2) (λ e. ne (ap suc e))

-- `b << d`
pub bit-shifted : (d k b : ℕ) → bit (d + k) (b * 2 ^ d) ≡ bit k b
bit-shifted zero k b =
    let e : 0 + k ≡ k = omega arith in let e' : b * 2 ^ 0 ≡ b = omega arith in ap₂ bit e e'
bit-shifted (suc d) k b =
    let e : suc d + k ≡ suc (d + k) = omega arith in
    rw e (ap (bit (d + k)) (shifted_half d b) ∙ bit-shifted d k b)

pub bit-shifted_below : (d k b : ℕ) → k < d → bit k (b * 2 ^ d) ≡ 0
bit-shifted_below zero k b h = absurd (omega (arith, h))
bit-shifted_below (suc d) zero b h = omega (arith, ap (λ (t : ℕ). b * t) (pow-suc 2 d))
bit-shifted_below (suc d) (suc k) b h =
    ap (bit k) (shifted_half d b) ∙ bit-shifted_below d k b (omega arith)

mod_parts : (m x : ℕ) → 0 < m → ((x % (m * 2)) % 2 ≡ x % 2) × ((x % (m * 2)) / 2 ≡ (x / 2) % m)
mod_parts m x positive =
    let q = x / (m * 2) in
    let r = x % (m * 2) in
    let split : q * (m * 2) + r ≡ x = div-add-mod' x (m * 2) in
    let small : r < m * 2 = mod-lt x (omega arith) in
    let whole : x / 2 ≡ q * m + r / 2 = omega (arith, split) in
    (
      omega (arith, split),
      sym (
          ap (λ (t : ℕ). t % m) whole
          ∙ mul-add-mod_self_right q m (r / 2)
          ∙ mod-eq_of_lt (omega (arith, small))),
    )

-- A word keeps its low digits.
pub bit-mod : (w k x : ℕ) → k < w → bit k (x % 2 ^ w) ≡ bit k x
bit-mod zero k x h = absurd (omega (arith, h))
bit-mod (suc w) zero x h = rw (pow-suc 2 w) (mod_parts (2 ^ w) x (one-le-pow w 2 (omega arith))).0
bit-mod (suc w) (suc k) x h = rw (pow-suc 2 w) (
    ap (bit k) (mod_parts (2 ^ w) x (one-le-pow w 2 (omega arith))).1
    ∙ bit-mod w k (x / 2) (omega arith))
