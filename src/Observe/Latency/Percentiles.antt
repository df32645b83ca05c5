-- ===== src/Observe/Latency/Percentiles.antt =====
-- How near the percentiles of crates/rnet-observe/src/lib.rs are to those of the recorded latencies.
use native.Mathlib.Nat.{mul-le-mul_left}
use rnetlib.Prelude.{
  ℕ, zero, suc, ◌+◌, ◌*◌, ◌/◌, ◌≤◌, ◌<◌, ◌≡◌, refl, sym, ap, ◌∙◌, arith, false, Bool-cases, inl,
  inr, ◌⊎◌, ltb, leb, u64_max, if◌then◌else◌, List, [], ◌∷◌, length, All, min, sat_add, le→leb,
  leb→le, lt→ltb, dec_lt, neq-test,
}
use rnetlib.Observe.Latency.{
  latency_bucket, bucket_upper_bound, find_bucket, target_rank, percentile, snapshot,
  snapshot_from_counts,
}
use rnetlib.Observe.Latency.Buckets.{upper_zero, le-upper, upper-le, half-upper}
use rnetlib.Observe.Latency.Counts.{
  recorded, before, Tallies, before_next, before-le, before_zero, before_end, highest_of, micros_of,
  micros-word, recorded-Tallies, sum_counts-recorded, length-micros,
}

-- How many samples are at most a number.
pub count_le : ℕ → List ℕ → ℕ
count_le v [] = 0
count_le v (x ∷ xs) = (if leb x v then 1 else 0) + count_le v xs

same-test : (b i x u : ℕ) → (b ≤ i → x ≤ u) → (x ≤ u → b ≤ i) → ltb b (suc i) ≡ leb x u
same-test b i x u f g = elim (dec_lt b (suc i)) [
  | yes h ↦
      let in_reach : x ≤ u = f (omega arith) in rw (lt→ltb b (suc i) h, le→leb x u in_reach) refl
  | no h ↦ out_of_reach b i x u (omega arith) (λ k. omega (arith, g k))
]
  where
    out_of_reach : (b i x u : ℕ) → i < b → (x ≤ u → ⊥) → ltb b (suc i) ≡ leb x u
    out_of_reach b i x u above beyond = let far : u < x = omega (arith, beyond) in ground arith

before-count :
    (i : ℕ) (xs : List ℕ)
    → i ≤ 65
    → All (λ x. x ≤ u64_max) xs
    → before (suc i) xs ≡ count_le (bucket_upper_bound i) xs
unfolding before count_le
before-count i [] top a = refl
before-count i (x ∷ xs) top a =
    rw
      (same-test (latency_bucket x) i x (bucket_upper_bound i) (le-upper i x a.0 top)
        (upper-le i x a.0 top))
      (omega (arith, before-count i xs top a.1))

count_mono : (v w : ℕ) (xs : List ℕ) → v ≤ w → count_le v xs ≤ count_le w xs
unfolding count_le
count_mono v w [] h = omega arith
count_mono v w (x ∷ xs) h = ground (arith, count_mono v w xs h)

-- An estimate of the sample of a rank: at least so many samples are at most the estimate, and fewer
-- are at most its half.
pub record Estimates (rank : ℕ) (xs : List ℕ) (v : ℕ) : Type 0 where
  pub reached : rank ≤ count_le v xs
  pub tight : (v ≡ 0) ⊎ (count_le (v / 2) xs < rank)

Found : ℕ → List ℕ → ℕ → Type 0
Found rank xs v =
    (b : ℕ) × (v ≡ bucket_upper_bound b)
    × (b ≤ 65)
    × (rank ≤ before (suc b) xs)
    × ((b ≡ 0) ⊎ (before b xs < rank))

Tallies-length : (i : ℕ) (counts xs : List ℕ) → Tallies i counts xs → i + length counts ≡ 66
Tallies-length i [] xs t = omega (arith, t)
Tallies-length i (c ∷ cs) xs t = omega (arith, Tallies-length (suc i) cs xs t.1)

not_reached : (a b : ℕ) → leb a b ≡ false → b < a
not_reached a b h = ground arith

past_end :
    (rank i : ℕ) (xs : List ℕ)
    → All (λ x. x ≤ u64_max) xs
    → rank ≤ length xs
    → i ≡ 66
    → (i ≡ 0) ⊎ (before i xs < rank)
    → ⊥
past_end rank i xs a low e (inl none_before) = omega arith
past_end rank i xs a low e (inr below) =
    omega (arith, ap (λ j. before j xs) e, before_end xs a, below)

find_bucket_lem :
    (rank i seen : ℕ) (counts xs : List ℕ)
    → All (λ x. x ≤ u64_max) xs
    → length xs ≤ u64_max
    → rank ≤ length xs
    → seen ≡ before i xs
    → Tallies i counts xs
    → (i ≡ 0) ⊎ (before i xs < rank)
    → Found rank xs (find_bucket rank i seen counts)
unfolding find_bucket Found
find_bucket_lem rank i seen [] xs a fits low e t below = absurd (past_end rank i xs a low t below)
find_bucket_lem rank i seen (c ∷ cs) xs a fits low e t below =
    let seen' : sat_add seen c ≡ before (suc i) xs =
      omega (arith, t.0, e, before_next i xs, before-le (suc i) xs) in
    elim (Bool-cases (leb rank (sat_add seen c))) [
      | inl reached ↦ rw reached (
        i,
        refl,
        omega (arith, Tallies-length (suc i) cs xs t.1),
        omega (arith, seen', leb→le rank (sat_add seen c) reached),
        below,
      )
      | inr missed ↦ rw missed (
          find_bucket_lem rank (suc i) (sat_add seen c) cs xs a fits low seen' t.1
            (inr (omega (arith, seen', not_reached rank (sat_add seen c) missed))))
    ]

Found-Estimates :
    (rank : ℕ) (xs : List ℕ) (v : ℕ)
    → All (λ x. x ≤ u64_max) xs
    → Found rank xs v
    → Estimates rank xs v
unfolding Found
Found-Estimates rank xs v a (zero, e, top, reached, below) =
    let empty : v ≡ 0 = e ∙ upper_zero in
    record { reached = rw e (omega (arith, before-count 0 xs top a, reached)); tight = inl empty }
Found-Estimates rank xs v a (suc b, e, top, reached, inl none_before) = absurd (omega arith)
Found-Estimates rank xs v a (suc b, e, top, reached, inr below) = record {
  reached = rw e (omega (arith, before-count (suc b) xs top a, reached));
  tight = inr (
      rw e (
        omega (
          arith,
          before-count b xs (omega arith) a,
          count_mono (bucket_upper_bound (suc b) / 2) (bucket_upper_bound b) xs
              (half-upper b (omega arith)),
          below,
        )));
}

count-capped :
    (v top : ℕ) (xs : List ℕ) → highest_of xs ≤ top → count_le (min v top) xs ≡ count_le v xs
unfolding count_le highest_of
count-capped v top [] h = refl
count-capped v top (x ∷ xs) h = ground (arith, count-capped v top xs (omega (arith, h)))

Estimates-capped :
    (rank : ℕ) (xs : List ℕ) (v : ℕ)
    → Estimates rank xs v
    → Estimates rank xs (min v (highest_of xs))
Estimates-capped rank xs v e = record {
  reached = omega (arith, count-capped v (highest_of xs) xs (omega arith), e.reached);
  tight = elim e.tight [
    | inl empty ↦ inl (omega (arith, empty))
    | inr few ↦
        inr (omega (arith, count_mono (min v (highest_of xs) / 2) (v / 2) xs (omega arith), few))
  ];
}

rank-le :
    (n numerator : ℕ) (xs : List ℕ)
    → length xs ≡ n
    → numerator ≤ 1000
    → target_rank n numerator 1000 ≤ length xs
rank-le n numerator xs e share =
    let scaled : n * numerator ≤ n * 1000 = mul-le-mul_left n share in omega (arith, scaled)

percentile-Estimates :
    (numerator : ℕ) (durations : List ℕ)
    → 0 < length durations
    → length durations ≤ u64_max
    → numerator ≤ 1000
    → Estimates (target_rank (length durations) numerator 1000) (micros_of durations) (
        min
          (percentile (recorded durations).buckets (length durations) numerator 1000)
          (recorded durations).max_us)
unfolding percentile
percentile-Estimates numerator durations some_sample fits share =
    let (tallies, top) = recorded-Tallies durations fits in
    let xs = micros_of durations in
    let rank = target_rank (length durations) numerator 1000 in
    rw (neq-test (length durations) 0 (λ e. omega arith), top)
      (Estimates-capped rank xs (find_bucket rank 0 0 (recorded durations).buckets) (
        Found-Estimates rank xs (find_bucket rank 0 0 (recorded durations).buckets)
          (micros-word durations)
          (find_bucket_lem rank 0 0 (recorded durations).buckets xs (micros-word durations)
            (omega (arith, length-micros durations))
            (rank-le (length durations) numerator xs (length-micros durations) share)
            (sym (before_zero xs)) tallies (inl refl))))

-- After any recordings from an empty histogram, up to as many as the counters hold: the snapshot has their
-- number and their maximum in whole microseconds, and each of its five percentiles is an estimate: at
-- least the share of the samples that the percentile names (rounded up) is at most the estimate, and,
-- unless this is zero, fewer samples are at most half of it.
pub snapshot-Estimates :
    (durations : List ℕ)
    → 0 < length durations
    → length durations ≤ u64_max
    → let s = snapshot (recorded durations) in
      let xs = micros_of durations in
      let n = length durations in
      (s.sample_count ≡ n)
      × (s.max_us ≡ highest_of xs)
      × Estimates (target_rank n 500 1000) xs s.p50_us
      × Estimates (target_rank n 900 1000) xs s.p90_us
      × Estimates (target_rank n 950 1000) xs s.p95_us
      × Estimates (target_rank n 990 1000) xs s.p99_us
      × Estimates (target_rank n 999 1000) xs s.p999_us
unfolding snapshot_from_counts
snapshot-Estimates durations some_sample fits =
    let estimate = λ (numerator : ℕ) (share : numerator ≤ 1000).
      percentile-Estimates numerator durations some_sample fits share in
    rw (sum_counts-recorded durations fits) (
      refl,
      (recorded-Tallies durations fits).1,
      estimate 500 (omega arith),
      estimate 900 (omega arith),
      estimate 950 (omega arith),
      estimate 990 (omega arith),
      estimate 999 (omega arith),
    )
