-- ===== src/Observe/Latency/Buckets.antt =====
-- The buckets of crates/rnet-observe/src/lib.rs: a latency is in a bucket up to a number exactly if it is at
-- most the upper bound of this bucket.
use native.Mathlib.Nat.{pow-suc, one-le-pow, pow-le-pow_right}
use rnetlib.Prelude.{
  ℕ, zero, suc, ◌+◌, ◌-◌, ◌/◌, ◌^◌, ◌≤◌, ◌<◌, ◌≡◌, refl, ap, arith, false, inl, inr, ◌==◌, u64_max,
  same-or-not, neq-test, le→leb, dec_lt,
}
use rnetlib.Observe.Latency.{bit_length, latency_bucket, bucket_upper_bound}

-- The length is at most `k` exactly if the number is below `2 ^ k`.
bit_length-le : (w n k : ℕ) → n < 2 ^ w → n < 2 ^ k → bit_length w n ≤ k
unfolding bit_length
bit_length-le zero n k h below = omega arith
bit_length-le (suc w) zero k h below = omega arith
bit_length-le (suc w) (suc n) zero h below = absurd (omega (arith, below))
bit_length-le (suc w) (suc n) (suc k) h below =
    let e : (suc n == 0) ≡ false = ground arith in
    rw e (
      omega (
        arith,
        bit_length-le w (suc n / 2) k (omega (arith, pow-suc 2 w)) (omega (arith, pow-suc 2 k)),
      ))

le-bit_length : (w n k : ℕ) → n < 2 ^ w → bit_length w n ≤ k → n < 2 ^ k
unfolding bit_length
le-bit_length zero n k h short = omega (arith, one-le-pow k 2 (omega arith))
le-bit_length (suc w) zero k h short = omega (arith, one-le-pow k 2 (omega arith))
le-bit_length (suc w) (suc n) zero h short =
    let e : (suc n == 0) ≡ false = ground arith in absurd (omega (arith, rw e at short))
le-bit_length (suc w) (suc n) (suc k) h short =
    let e : (suc n == 0) ≡ false = ground arith in
    omega (
      arith,
      pow-suc 2 k,
      le-bit_length w (suc n / 2) k (omega (arith, pow-suc 2 w)) (omega (arith, rw e at short)),
    )

bucket_zero : latency_bucket 0 ≡ 0
unfolding latency_bucket
bucket_zero = refl

bucket_last : latency_bucket u64_max ≡ 65
unfolding latency_bucket
bucket_last = refl

bucket_between : (x : ℕ) → 0 < x → x < u64_max → latency_bucket x ≡ 1 + bit_length 64 (x - 1)
unfolding latency_bucket
bucket_between x pos below =
    rw (neq-test x 0 (λ e. omega arith), neq-test x u64_max (λ e. omega arith)) refl

pub upper_zero : bucket_upper_bound 0 ≡ 0
unfolding bucket_upper_bound
upper_zero = refl

upper_power : (k : ℕ) → k < 64 → bucket_upper_bound (suc k) ≡ 2 ^ k
unfolding bucket_upper_bound
upper_power k h =
    let e : suc k - 1 ≡ k = omega arith in
    rw (neq-test (suc k) 0 (λ e. omega arith), le→leb (suc k) 64 (omega arith), e) refl

upper_last : bucket_upper_bound 65 ≡ u64_max
unfolding bucket_upper_bound
upper_last = refl

small_power : (k : ℕ) → k < 64 → 2 ^ k < u64_max
small_power k h =
    let top : 2 ^ k ≤ 2 ^ 63 =
      pow-le-pow_right {n = 2} (omega arith) {i = k} {j = 63} (omega arith) in
    omega (arith, top)

-- What a latency of 64 bits can be.
data Place (x : ℕ) : Type 0 where
  none_at_all : x ≡ 0 → Place x
  longest : x ≡ u64_max → Place x
  between : 0 < x → x < u64_max → Place x

place : (x : ℕ) → x ≤ u64_max → Place x
place x word = elim (same-or-not x 0) [
  | inl e ↦ none_at_all e
  | inr ne ↦ elim (same-or-not x u64_max) [
    | inl e ↦ longest e
    | inr ne' ↦ between (omega arith) (omega arith)
  ]
]

pub latency_bucket-le : (x : ℕ) → x ≤ u64_max → latency_bucket x ≤ 65
latency_bucket-le x word = elim (place x word) [
  | none_at_all e ↦ rw (e, bucket_zero) (omega arith)
  | longest e ↦ rw (e, bucket_last) (omega arith)
  | between pos below ↦
      omega
        (arith, bucket_between x pos below, bit_length-le 64 (x - 1) 64 (omega arith) (omega arith))
]

above_none : (x : ℕ) → 0 < x → x ≤ u64_max → 1 ≤ latency_bucket x
above_none x pos word = elim (place x word) [
  | none_at_all e ↦ absurd (omega arith)
  | longest e ↦ rw (e, bucket_last) (omega arith)
  | between pos' below ↦ omega (arith, bucket_between x pos' below)
]

-- A latency is at most the upper bound of each bucket from its own on.
pub le-upper : (i x : ℕ) → x ≤ u64_max → i ≤ 65 → latency_bucket x ≤ i → x ≤ bucket_upper_bound i
le-upper zero x word top h = elim (same-or-not x 0) [
  | inl e ↦ rw e (omega arith)
  | inr ne ↦ absurd (omega (arith, above_none x (omega arith) word, h))
]
le-upper (suc k) x word top h = elim (dec_lt k 64) [
  | no beyond ↦ let e : suc k ≡ 65 = omega arith in rw (e, upper_last) word
  | yes within ↦ elim (place x word) [
    | none_at_all e ↦ rw e (omega arith)
    | longest e ↦ absurd (omega (arith, ap latency_bucket e, bucket_last, h))
    | between pos below ↦ omega (
      arith,
      upper_power k within,
      le-bit_length 64 (x - 1) k (omega arith) (omega (arith, bucket_between x pos below, h)),
    )
  ]
]

-- And it is above that of each bucket before.
pub upper-le : (i x : ℕ) → x ≤ u64_max → i ≤ 65 → x ≤ bucket_upper_bound i → latency_bucket x ≤ i
upper-le zero x word top h =
    let e : x ≡ 0 = omega (arith, h, upper_zero) in rw (e, bucket_zero) (omega arith)
upper-le (suc k) x word top h = elim (dec_lt k 64) [
  | no beyond ↦ omega (arith, latency_bucket-le x word)
  | yes within ↦ elim (place x word) [
    | none_at_all e ↦ rw (e, bucket_zero) (omega arith)
    | longest e ↦ absurd (omega (arith, e, h, upper_power k within, small_power k within))
    | between pos below ↦ omega (
      arith,
      bucket_between x pos below,
      bit_length-le 64 (x - 1) k (omega arith) (omega (arith, h, upper_power k within)),
    )
  ]
]

-- Half of an upper bound is at most the bound before.
pub half-upper : (k : ℕ) → k < 65 → bucket_upper_bound (suc k) / 2 ≤ bucket_upper_bound k
half-upper zero h = omega (arith, upper_power 0 (omega arith))
half-upper (suc k) h = elim (dec_lt (suc k) 64) [
  | yes within ↦ omega (arith, upper_power (suc k) within, upper_power k (omega arith), pow-suc 2 k)
  | no beyond ↦
      let e : k ≡ 63 = omega arith in rw e (omega (arith, upper_last, upper_power 63 (omega arith)))
]
