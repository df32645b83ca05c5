-- ===== src/Prelude/Bytes.antt =====
-- Big-endian integers in byte strings: `to_be_bytes`, `from_be_bytes` and slices of the language.
use Prim.Native.Nat.{ℕ, zero, suc, ◌+◌, ◌-◌, ◌*◌, ◌/◌, ◌%◌, ◌^◌, ◌≤◌, ◌<◌}
use mathlib.Core.Path.{◌≡◌, refl, sym, ap, ◌∙◌}
use mathlib.Core.Bool.{Bool, true, ◌&&◌}
use rnetlib.Prelude.Tests.{ltb, ltb→lt}
use mathlib.Core.List.{List, [], ◌∷◌, ◌++◌, reverse, reverse-reverse}
use native.Mathlib.Nat.{pow-suc}
use native.Mathlib.Omega.{arith}
use rnetlib.Prelude.Lists.{
  length, take, drop, All, All-reverse, All-take, All-drop, length-reverse, length-take,
  length-drop, take-append-drop, drop-drop,
}

abbrev pub IsByte : ℕ → Type 0
IsByte b = b < 256

-- Every element of a byte string is a byte.
abbrev pub IsBytes : List ℕ → Type 0
IsBytes = All IsByte

-- The `k` lowest digits to the base 256, lowest first, and the number that digits stand for.
abbrev pub to_le : ℕ → ℕ → List ℕ
to_le zero n = []
to_le (suc k) n = (n % 256) ∷ to_le k (n / 256)

unfoldable pub from_le : List ℕ → ℕ
from_le [] = 0
from_le (b ∷ bs) = b + 256 * from_le bs

-- `to_be_bytes` of an integer of `k` bytes.
abbrev pub to_be : ℕ → ℕ → List ℕ
to_be k n = reverse (to_le k n)

-- `from_be_bytes`
unfoldable pub from_be : List ℕ → ℕ
unfolding from_le
from_be bs = from_le (reverse bs)

-- The slice `[i..j]`.
abbrev pub slice : ℕ → ℕ → List ℕ → List ℕ
slice i j bs = take (j - i) (drop i bs)

from_le-to_le : (k n : ℕ) → n < 256 ^ k → from_le (to_le k n) ≡ n
unfolding from_le
from_le-to_le zero n h = omega arith
from_le-to_le (suc k) n h = omega (arith, from_le-to_le k (n / 256) (omega (arith, pow-suc 256 k)))

length-to_le : (k n : ℕ) → length (to_le k n) ≡ k
length-to_le zero n = refl
length-to_le (suc k) n = ap suc (length-to_le k (n / 256))

to_le-IsBytes : (k n : ℕ) → IsBytes (to_le k n)
to_le-IsBytes zero n = tt
to_le-IsBytes (suc k) n = (omega arith, to_le-IsBytes k (n / 256))

to_le-from_le : (bs : List ℕ) → IsBytes bs → to_le (length bs) (from_le bs) ≡ bs
unfolding from_le
to_le-from_le [] h = refl
to_le-from_le (b ∷ bs) h = rw (low, high, to_le-from_le bs h.1)
  where
    low : (b + 256 * from_le bs) % 256 ≡ b
    low = omega (arith, h.0)

    high : (b + 256 * from_le bs) / 256 ≡ from_le bs
    high = omega (arith, h.0)

from_le-lt : (bs : List ℕ) → IsBytes bs → from_le bs < 256 ^ length bs
unfolding from_le
from_le-lt [] h = omega arith
from_le-lt (b ∷ bs) h = omega (arith, h.0, from_le-lt bs h.1, pow-suc 256 (length bs))

-- Reading back what was written.
pub from_be-to_be : (k n : ℕ) → n < 256 ^ k → from_be (to_be k n) ≡ n
unfolding from_be
from_be-to_be k n h = rw reverse-reverse (from_le-to_le k n h)

-- Writing back what was read.
pub to_be-from_be : (bs : List ℕ) → IsBytes bs → to_be (length bs) (from_be bs) ≡ bs
unfolding from_be
to_be-from_be bs h =
    rw (← length-reverse bs)
      (ap reverse (to_le-from_le (reverse bs) (All-reverse IsByte bs h)) ∙ reverse-reverse bs)

pub length-to_be : (k n : ℕ) → length (to_be k n) ≡ k
length-to_be k n = length-reverse (to_le k n) ∙ length-to_le k n

pub to_be-IsBytes : (k n : ℕ) → IsBytes (to_be k n)
to_be-IsBytes k n = All-reverse IsByte (to_le k n) (to_le-IsBytes k n)

pub from_be-lt : (bs : List ℕ) → IsBytes bs → from_be bs < 256 ^ length bs
unfolding from_be
from_be-lt bs h = rw (← length-reverse bs) (from_le-lt (reverse bs) (All-reverse IsByte bs h))

pub length-slice : (i j : ℕ) (bs : List ℕ) → j ≤ length bs → length (slice i j bs) ≡ j - i
length-slice i j bs h = omega (arith, length-take (j - i) (drop i bs), length-drop i bs)

slice-IsBytes : (i j : ℕ) (bs : List ℕ) → IsBytes bs → IsBytes (slice i j bs)
slice-IsBytes i j bs h = All-take IsByte (j - i) (drop i bs) (All-drop IsByte i bs h)

to_be-from_be_of_length :
    (k : ℕ) (bs : List ℕ) → IsBytes bs → length bs ≡ k → to_be k (from_be bs) ≡ bs
to_be-from_be_of_length k bs h e = rw (← e) (to_be-from_be bs h)

from_be-lt_of_length : (k : ℕ) (bs : List ℕ) → IsBytes bs → length bs ≡ k → from_be bs < 256 ^ k
from_be-lt_of_length k bs h e = rw (← e) (from_be-lt bs h)

-- A string from `i` on is its slice up to `j`, and the rest.
pub drop-eq-slice : (i j : ℕ) (bs : List ℕ) → i ≤ j → drop i bs ≡ slice i j bs ++ drop j bs
drop-eq-slice i j bs h =
    let e : i + (j - i) ≡ j = omega arith in
    sym (take-append-drop (j - i) (drop i bs))
    ∙ ap (◌++◌ (slice i j bs)) (drop-drop i (j - i) bs ∙ ap (λ k. drop k bs) e)

-- A field of a byte string, read and written back.
pub to_be-slice :
    (i j : ℕ) (bs : List ℕ)
    → IsBytes bs
    → j ≤ length bs
    → to_be (j - i) (from_be (slice i j bs)) ≡ slice i j bs
to_be-slice i j bs h fits =
    to_be-from_be_of_length (j - i) (slice i j bs) (slice-IsBytes i j bs h)
      (length-slice i j bs fits)

pub from_be-slice-lt :
    (i j : ℕ) (bs : List ℕ) → IsBytes bs → j ≤ length bs → from_be (slice i j bs) < 256 ^ (j - i)
from_be-slice-lt i j bs h fits =
    from_be-lt_of_length (j - i) (slice i j bs) (slice-IsBytes i j bs h) (length-slice i j bs fits)

-- One field more of a string that is put together again from its fields.
pub rebuild-field :
    (i j value : ℕ) (bs rest : List ℕ)
    → IsBytes bs
    → j ≤ length bs
    → i ≤ j
    → from_be (slice i j bs) ≡ value
    → drop j bs ≡ rest
    → drop i bs ≡ to_be (j - i) value ++ rest
rebuild-field i j value bs rest h fits le e r =
    rw (← e, to_be-slice i j bs h fits, ← r) (drop-eq-slice i j bs le)

pub from_be_single : (b : ℕ) → from_be (b ∷ []) ≡ b
unfolding from_be from_le
from_be_single b = omega arith

-- The same for a field of one byte.
pub rebuild-byte :
    (i value : ℕ) (bs rest : List ℕ)
    → i < length bs
    → from_be (take 1 (drop i bs)) ≡ value
    → drop (suc i) bs ≡ rest
    → drop i bs ≡ value ∷ rest
rebuild-byte i value [] rest h e r = absurd (omega arith)
rebuild-byte zero value (b ∷ bs) rest h e r =
    let e' : b ≡ value = sym (from_be_single b) ∙ e in rw (e', r) refl
rebuild-byte (suc i) value (b ∷ bs) rest h e r = rebuild-byte i value bs rest (omega arith) e r

abbrev pub all_bytes : List ℕ → Bool
all_bytes [] = true
all_bytes (b ∷ bs) = ltb b 256 && all_bytes bs

pub all_bytes_sound : (bs : List ℕ) → all_bytes bs ≡ true → IsBytes bs
all_bytes_sound [] h = tt
all_bytes_sound (b ∷ bs) h =
    let (small, rest) = both (ltb b 256) (all_bytes bs) h in
    (ltb→lt b 256 small, all_bytes_sound bs rest)
  where
    both : (c d : Bool) → (c && d) ≡ true → (c ≡ true) × (d ≡ true)
    both c d h = ground arith
