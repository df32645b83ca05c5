-- ===== src/Observe/Latency/Tests.antt =====
-- Three latencies of 1, 3 and 900 microseconds.
use rnetlib.Prelude.{ℕ, ◌≡◌, refl, arith, List, [], ◌∷◌, length}
use rnetlib.Observe.Latency.{
  target_rank, snapshot, snapshot_from_counts, record_latency, latency_bucket, bit_length,
  percentile, find_bucket, bucket_upper_bound, sum_counts,
}
use rnetlib.Observe.Latency.Counts.{recorded, micros_of, highest_of}
use rnetlib.Observe.Latency.Percentiles.{Estimates, snapshot-Estimates}

abbrev three : List ℕ
three = 1000 ∷ 3500 ∷ 900000 ∷ []

median : (snapshot (recorded three)).p50_us ≡ 4
unfolding snapshot_from_counts recorded record_latency latency_bucket bit_length percentile
    find_bucket bucket_upper_bound sum_counts
median = refl

snapshot-Estimates_example :
    let s = snapshot (recorded three) in
    let xs = micros_of three in
    let n = length three in
    (s.sample_count ≡ n)
    × (s.max_us ≡ highest_of xs)
    × Estimates (target_rank n 500 1000) xs s.p50_us
    × Estimates (target_rank n 900 1000) xs s.p90_us
    × Estimates (target_rank n 950 1000) xs s.p95_us
    × Estimates (target_rank n 990 1000) xs s.p99_us
    × Estimates (target_rank n 999 1000) xs s.p999_us
snapshot-Estimates_example = snapshot-Estimates three (omega arith) (omega arith)
