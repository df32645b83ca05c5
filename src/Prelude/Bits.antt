-- ===== src/Prelude/Bits.antt =====
-- `|` of disjoint fields and `&` with a low mask as arithmetic, at every width.
use Prim.Native.Nat.{
  ℕ, zero, suc, ◌+◌, ◌-◌, ◌*◌, ◌/◌, ◌%◌, ◌^◌, ◌≤◌, ◌<◌, max, min, bit_or, bit_and, digits,
  bit_or-bitwise, bit_and-bitwise,
}
use mathlib.Core.Path.{◌≡◌, refl, sym, ◌∙◌, ap, ap₂}
use mathlib.Core.Bool.{Bool, true, ◌&&◌}
use native.Mathlib.Nat.{pow-suc, one-le-pow, div-add-mod', mod-lt}
use native.Mathlib.Omega.{arith}

-- Two counts of digits that both cover the first number give one result, and one digit can be taken off.
module _ (rest : ℕ → ℕ) (digit : ℕ → ℕ → ℕ) where
  counts_agree : (i j x y : ℕ) → x ≤ i → x ≤ j → digits rest digit i x y ≡ digits rest digit j x y
  counts_agree (suc i) (suc j) (suc x) y up up' =
      omega (arith, counts_agree i j (suc x / 2) (y / 2) (omega arith) (omega arith))
  counts_agree (suc i) (suc j) zero y up up' = refl
  counts_agree (suc i) zero zero y up up' = refl
  counts_agree zero (suc j) zero y up up' = refl
  counts_agree zero zero zero y up up' = refl
  counts_agree zero j (suc x) y up up' = absurd (omega (arith, up))
  counts_agree (suc i) zero (suc x) y up up' = absurd (omega (arith, up'))

  lowest_digit :
      (x y : ℕ)
      → digits rest digit (suc x) (suc x) y
        ≡ digits rest digit (suc x / 2) (suc x / 2) (y / 2) * 2 + digit (suc x % 2) (y % 2)
  lowest_digit x y =
      omega (arith, counts_agree x (suc x / 2) (suc x / 2) (y / 2) (omega arith) (omega arith))

or_nothing : (y : ℕ) → bit_or 0 y ≡ y
or_nothing = bit_or-bitwise 0

pub bit_or_step : (x y : ℕ) → bit_or x y ≡ bit_or (x / 2) (y / 2) * 2 + max (x % 2) (y % 2)
bit_or_step (suc x) y =
    let whole = bit_or-bitwise (suc x) y in
    let halves = bit_or-bitwise (suc x / 2) (y / 2) in
    omega (arith, whole, halves, lowest_digit (λ r. r) max x y)
bit_or_step zero y = omega (arith, or_nothing (y / 2), or_nothing y)

pub nothing_or : (bound x : ℕ) → x ≤ bound → bit_or x 0 ≡ x
nothing_or (suc bound) (suc x) up =
    let half = nothing_or bound (suc x / 2) (omega arith) in
    omega (arith, half, bit_or_step (suc x) 0)
nothing_or bound zero up = refl
nothing_or zero (suc x) up = absurd (omega (arith, up))

-- `(q << k) | r` is a sum when `r` fits in `k` bits.
pub bit_or-shifted : (k q r : ℕ) → r < 2 ^ k → bit_or (q * 2 ^ k) r ≡ q * 2 ^ k + r
bit_or-shifted zero q r fits =
    let none_left : r ≡ 0 = omega arith in
    let unscaled : q * 2 ^ 0 ≡ q = omega arith in
    rw (none_left, unscaled) (omega (arith, nothing_or q q (omega arith)))
bit_or-shifted (suc k) q r fits = omega (
  arith,
  bit_or_step (q * 2 ^ suc k) r,
  ap (λ (t : ℕ). q * t) (pow-suc 2 k),
  ap (λ (t : ℕ). bit_or t (r / 2)) half,
  bit_or-shifted k q (r / 2) (omega (arith, pow-suc 2 k)),
)
  where
    half : (q * 2 ^ suc k) / 2 ≡ q * 2 ^ k
    half = omega (arith, ap (λ (t : ℕ). q * t) (pow-suc 2 k))

and_nothing : (y : ℕ) → bit_and 0 y ≡ 0
and_nothing = bit_and-bitwise 0

pub bit_and_step : (x y : ℕ) → bit_and x y ≡ bit_and (x / 2) (y / 2) * 2 + min (x % 2) (y % 2)
bit_and_step (suc x) y =
    let whole = bit_and-bitwise (suc x) y in
    let halves = bit_and-bitwise (suc x / 2) (y / 2) in
    omega (arith, whole, halves, lowest_digit (λ r. zero) min x y)
bit_and_step zero y = omega (arith, and_nothing (y / 2), and_nothing y)

pub nothing_and : (bound x : ℕ) → x ≤ bound → bit_and x 0 ≡ 0
nothing_and (suc bound) (suc x) up =
    let half = nothing_and bound (suc x / 2) (omega arith) in
    omega (arith, half, bit_and_step (suc x) 0)
nothing_and bound zero up = refl
nothing_and zero (suc x) up = absurd (omega (arith, up))

-- A number below `2 ^ k` passes a mask of `k` ones.
pub bit_and-ones : (k a : ℕ) → a < 2 ^ k → bit_and a (2 ^ k - 1) ≡ a
bit_and-ones zero a h = let e : a ≡ 0 = omega arith in rw e
bit_and-ones (suc k) a h = omega (
  arith,
  bit_and_step a (2 ^ suc k - 1),
  ap (bit_and (a / 2)) half,
  bit_and-ones k (a / 2) (omega (arith, pow-suc 2 k)),
  pow-suc 2 k,
  one-le-pow k 2,
)
  where
    half : (2 ^ suc k - 1) / 2 ≡ 2 ^ k - 1
    half = omega (arith, pow-suc 2 k, one-le-pow k 2 (omega arith))

-- The mask cuts off what stands above it.
bit_and-fields : (k q r : ℕ) → r < 2 ^ k → bit_and (q * 2 ^ k + r) (2 ^ k - 1) ≡ r
bit_and-fields zero q r h =
    let e : r ≡ 0 = omega arith in rw e (nothing_and (q * 2 ^ 0 + 0) (q * 2 ^ 0 + 0) (omega arith))
bit_and-fields (suc k) q r h = omega (
  arith,
  bit_and_step (q * 2 ^ suc k + r) (2 ^ suc k - 1),
  ap₂ bit_and halves mask,
  bit_and-fields k q (r / 2) (omega (arith, pow-suc 2 k)),
  pow-suc 2 k,
  ap (λ (t : ℕ). q * t) (pow-suc 2 k),
  one-le-pow k 2,
)
  where
    halves : (q * 2 ^ suc k + r) / 2 ≡ q * 2 ^ k + r / 2
    halves = omega (arith, ap (λ (t : ℕ). q * t) (pow-suc 2 k))

    mask : (2 ^ suc k - 1) / 2 ≡ 2 ^ k - 1
    mask = omega (arith, pow-suc 2 k, one-le-pow k 2 (omega arith))

-- A mask of `k` ones is the remainder by `2 ^ k`.
pub bit_and_mask : (k a : ℕ) → bit_and a (2 ^ k - 1) ≡ a % 2 ^ k
bit_and_mask k a =
    ap (λ (t : ℕ). bit_and t (2 ^ k - 1)) (sym (div-add-mod' a (2 ^ k)))
    ∙ bit_and-fields k (a / 2 ^ k) (a % 2 ^ k) (mod-lt a (one-le-pow k 2 (omega arith)))

-- A test that holds at every number below a bound, by running it.
unfoldable pub all_below : ℕ → (ℕ → Bool) → Bool
all_below (suc bound) test = test bound && all_below bound test
all_below zero test = true

pub all_below_sound :
    (bound : ℕ) (test : ℕ → Bool) (k : ℕ) → all_below bound test ≡ true → k < bound → test k ≡ true
unfolding all_below
all_below_sound (suc bound) test k holds below = ground (arith, all_below_sound bound test k)
all_below_sound zero test k holds below = absurd (omega (arith, below))

-- A bit that was set is set.
pub bit_and-bit_or : (b a : ℕ) → bit_and (bit_or a (2 ^ b)) (2 ^ b) ≡ 2 ^ b
bit_and-bit_or zero a = omega (
  arith,
  bit_and_step (bit_or a 1) 1,
  bit_or_step a 1,
  nothing_and (bit_or a 1 / 2) (bit_or a 1 / 2) (omega arith),
)
bit_and-bit_or (suc b) a =
    let half : 2 ^ suc b / 2 ≡ 2 ^ b = omega (arith, pow-suc 2 b) in
    let halves : bit_or a (2 ^ suc b) / 2 ≡ bit_or (a / 2) (2 ^ b) =
      omega (arith, pow-suc 2 b, bit_or_step a (2 ^ suc b), ap (bit_or (a / 2)) half) in
    omega (
      arith,
      pow-suc 2 b,
      bit_and_step (bit_or a (2 ^ suc b)) (2 ^ suc b),
      ap₂ bit_and halves half,
      bit_and-bit_or b (a / 2),
    )
