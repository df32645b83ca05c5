-- ===== src/Observe/Latency/Counts.antt =====
-- What the buckets of crates/rnet-observe/src/lib.rs count after a number of recordings.
use rnetlib.Prelude.{
  ℕ, zero, suc, ◌+◌, ◌≤◌, ◌<◌, ◌≡◌, refl, sym, ap, ◌∙◌, arith, ◌==◌, ltb, u64_max, if◌then◌else◌,
  Option, none, some, List, [], ◌∷◌, map, length, get_elem?, All, max, sat_add,
}
use rnetlib.Observe.Latency.{
  LatencyHistogram, empty_histogram, latency_bucket, bump, whole_micros, record_latency, zeros,
  latency_bucket_count, sum_counts,
}
use rnetlib.Observe.Latency.Buckets.{latency_bucket-le}

-- The latest recording comes first.
unfoldable pub recorded : List ℕ → LatencyHistogram
recorded [] = empty_histogram
recorded (duration ∷ durations) = record_latency duration (recorded durations)

-- The number of samples in a bucket, and in the buckets before it.
pub in_bucket : ℕ → List ℕ → ℕ
in_bucket i [] = 0
in_bucket i (x ∷ xs) = (if latency_bucket x == i then 1 else 0) + in_bucket i xs

unfoldable pub before : ℕ → List ℕ → ℕ
before i [] = 0
before i (x ∷ xs) = (if ltb (latency_bucket x) i then 1 else 0) + before i xs

abbrev pub Tallies : ℕ → List ℕ → List ℕ → Type 0
Tallies i [] xs = i ≡ latency_bucket_count
Tallies i (c ∷ cs) xs = (c ≡ in_bucket i xs) × Tallies (suc i) cs xs

in_bucket-le : (i : ℕ) (xs : List ℕ) → in_bucket i xs ≤ length xs
unfolding in_bucket
in_bucket-le i [] = omega arith
in_bucket-le i (x ∷ xs) = ground (arith, in_bucket-le i xs)

pub before_next : (i : ℕ) (xs : List ℕ) → before (suc i) xs ≡ before i xs + in_bucket i xs
unfolding before in_bucket
before_next i [] = omega arith
before_next i (x ∷ xs) = ground (arith, before_next i xs)

pub before-le : (i : ℕ) (xs : List ℕ) → before i xs ≤ length xs
unfolding before
before-le i [] = omega arith
before-le i (x ∷ xs) = ground (arith, before-le i xs)

pub before_zero : (xs : List ℕ) → before 0 xs ≡ 0
unfolding before
before_zero [] = refl
before_zero (x ∷ xs) = ground (arith, before_zero xs)

pub before_end : (xs : List ℕ) → All (λ x. x ≤ u64_max) xs → before 66 xs ≡ length xs
unfolding before
before_end [] a = refl
before_end (x ∷ xs) a = ground (arith, before_end xs a.1, latency_bucket-le x a.0)

Tallies-other :
    (i x : ℕ) (counts xs : List ℕ)
    → latency_bucket x < i
    → Tallies i counts xs
    → Tallies i counts (x ∷ xs)
unfolding in_bucket
Tallies-other i x [] xs below t = t
Tallies-other i x (c ∷ cs) xs below t =
    (ground (arith, t.0), Tallies-other (suc i) x cs xs (omega arith) t.1)

bump_cons : (c k : ℕ) (cs : List ℕ) (o : Option ℕ) → bump (c ∷ cs) (suc k) o ≡ c ∷ bump cs k o
bump_cons c k cs none = refl
bump_cons c k cs (some v) = refl

Tallies-bump :
    (i k x : ℕ) (counts xs : List ℕ)
    → latency_bucket x ≡ i + k
    → length xs < u64_max
    → Tallies i counts xs
    → Tallies i (bump counts k (get_elem? counts k)) (x ∷ xs)
unfolding in_bucket
Tallies-bump i k x [] xs e room t = t
Tallies-bump i zero x (c ∷ cs) xs e room t =
    (ground (arith, t.0, in_bucket-le i xs), Tallies-other (suc i) x cs xs (omega arith) t.1)
Tallies-bump i (suc k) x (c ∷ cs) xs e room t =
    rw (bump_cons c k cs (get_elem? cs k))
      (ground (arith, t.0), Tallies-bump (suc i) k x cs xs (omega arith) room t.1)

Tallies-zeros : (i n : ℕ) → i + n ≡ 66 → Tallies i (zeros n) []
unfolding in_bucket
Tallies-zeros i zero e = omega arith
Tallies-zeros i (suc n) e = (refl, Tallies-zeros (suc i) n (omega arith))

unfoldable pub highest_of : List ℕ → ℕ
highest_of [] = 0
highest_of (x ∷ xs) = max (highest_of xs) x

unfoldable pub micros_of : List ℕ → List ℕ
micros_of durations = map whole_micros durations

pub length-micros : (durations : List ℕ) → length (micros_of durations) ≡ length durations
unfolding micros_of
length-micros [] = refl
length-micros (d ∷ ds) = ap suc (length-micros ds)

pub micros-word : (durations : List ℕ) → All (λ x. x ≤ u64_max) (micros_of durations)
unfolding micros_of
micros-word [] = tt
micros-word (d ∷ ds) = (omega arith, micros-word ds)

-- The buckets hold the numbers of the samples in them, and the maximum is that of the samples.
pub recorded-Tallies :
    (durations : List ℕ)
    → length durations ≤ u64_max
    → Tallies 0 (recorded durations).buckets (micros_of durations)
      × ((recorded durations).max_us ≡ highest_of (micros_of durations))
unfolding recorded record_latency micros_of highest_of
recorded-Tallies [] fits = (Tallies-zeros 0 66 (omega arith), refl)
recorded-Tallies (d ∷ ds) fits =
    let (t, top) = recorded-Tallies ds (omega arith) in
    (
      Tallies-bump 0 (latency_bucket (whole_micros d)) (whole_micros d) (recorded ds).buckets
          (micros_of ds) (omega arith) (omega (arith, length-micros ds)) t,
      ap (λ m. max m (whole_micros d)) top,
    )

sum_counts_from :
    (i seen : ℕ) (counts xs : List ℕ)
    → All (λ x. x ≤ u64_max) xs
    → length xs ≤ u64_max
    → seen ≡ before i xs
    → Tallies i counts xs
    → sum_counts seen counts ≡ length xs
unfolding sum_counts
sum_counts_from i seen [] xs a fits e t = e ∙ ap (λ j. before j xs) t ∙ before_end xs a
sum_counts_from i seen (c ∷ cs) xs a fits e t =
    sum_counts_from (suc i) (sat_add seen c) cs xs a fits
      (omega (arith, t.0, e, before_next i xs, before-le (suc i) xs)) t.1

-- The sample count of a snapshot is the number of recordings.
pub sum_counts-recorded :
    (durations : List ℕ)
    → length durations ≤ u64_max
    → sum_counts 0 (recorded durations).buckets ≡ length durations
sum_counts-recorded durations fits =
    sum_counts_from 0 0 (recorded durations).buckets (micros_of durations) (micros-word durations)
      (omega (arith, length-micros durations)) (sym (before_zero (micros_of durations)))
      (recorded-Tallies durations fits).0
    ∙ length-micros durations
