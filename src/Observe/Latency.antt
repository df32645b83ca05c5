-- ===== src/Observe/Latency.antt =====
-- crates/rnet-observe/src/lib.rs: the histogram of latencies, with one caller at a time. Durations are
-- nanoseconds.
pub mod Buckets
pub mod Counts
pub mod Percentiles
mod Tests
use rnetlib.Prelude.{
  ℕ, zero, suc, ◌+◌, ◌-◌, ◌*◌, ◌/◌, ◌^◌, min, max, Option, none, some, List, [], ◌∷◌, ◌==◌, leb,
  if◌then◌else◌, get_elem?, set, u64_max, sat_add,
}

abbrev pub latency_bucket_count : ℕ
latency_bucket_count = 66

pub record LatencySnapshot : Type 0 where
  pub sample_count : ℕ
  pub p50_us : ℕ
  pub p90_us : ℕ
  pub p95_us : ℕ
  pub p99_us : ℕ
  pub p999_us : ℕ
  pub max_us : ℕ

pub record LatencyHistogram : Type 0 where
  pub buckets : List ℕ
  pub max_us : ℕ

abbrev pub zeros : ℕ → List ℕ
zeros zero = []
zeros (suc n) = 0 ∷ zeros n

abbrev pub empty_histogram : LatencyHistogram
empty_histogram = record { buckets = zeros latency_bucket_count; max_us = 0 }

-- `u64::BITS - n.leading_zeros()` of a number below `2 ^ width`.
unfoldable pub bit_length : ℕ → ℕ → ℕ
bit_length zero n = 0
bit_length (suc width) n = let rest = bit_length width (n / 2) in if n == 0 then 0 else suc rest

pub latency_bucket : ℕ → ℕ
latency_bucket micros =
    if micros == 0
    then 0
    else if micros == u64_max
    then latency_bucket_count - 1
    else 1 + bit_length 64 (micros - 1)

abbrev pub bump : List ℕ → ℕ → Option ℕ → List ℕ
bump buckets bucket none = buckets
bump buckets bucket (some value) = set buckets bucket (sat_add value 1)

abbrev pub whole_micros : ℕ → ℕ
whole_micros duration = min (duration / 1000) u64_max

pub record_latency : ℕ → LatencyHistogram → LatencyHistogram
record_latency duration h =
    let micros = whole_micros duration in
    let bucket = latency_bucket micros in
    record {
      buckets = bump h.buckets bucket (get_elem? h.buckets bucket);
      max_us = max h.max_us micros;
    }

pub bucket_upper_bound : ℕ → ℕ
bucket_upper_bound index =
    if index == 0 then 0 else if leb index 64 then 2 ^ (index - 1) else u64_max

-- The buckets from `index` on, after `seen` samples.
pub find_bucket : ℕ → ℕ → ℕ → List ℕ → ℕ
find_bucket target index seen [] = u64_max
find_bucket target index seen (count ∷ counts) =
    let seen' = sat_add seen count in
    let rest = find_bucket target (suc index) seen' counts in
    if leb target seen' then bucket_upper_bound index else rest

abbrev pub target_rank : ℕ → ℕ → ℕ → ℕ
target_rank total numerator denominator = (total * numerator + (denominator - 1)) / denominator

pub percentile : List ℕ → ℕ → ℕ → ℕ → ℕ
percentile counts total numerator denominator =
    if total == 0 then 0 else find_bucket (target_rank total numerator denominator) 0 0 counts

pub sum_counts : ℕ → List ℕ → ℕ
sum_counts total [] = total
sum_counts total (count ∷ counts) = sum_counts (sat_add total count) counts

pub snapshot_from_counts : List ℕ → ℕ → LatencySnapshot
snapshot_from_counts counts max_us =
    let sample_count = sum_counts 0 counts in
    record {
      sample_count = sample_count;
      p50_us = min (percentile counts sample_count 500 1000) max_us;
      p90_us = min (percentile counts sample_count 900 1000) max_us;
      p95_us = min (percentile counts sample_count 950 1000) max_us;
      p99_us = min (percentile counts sample_count 990 1000) max_us;
      p999_us = min (percentile counts sample_count 999 1000) max_us;
      max_us = max_us;
    }

abbrev pub snapshot : LatencyHistogram → LatencySnapshot
snapshot h = snapshot_from_counts h.buckets h.max_us

abbrev pub snapshot_and_reset : LatencyHistogram → LatencySnapshot × LatencyHistogram
snapshot_and_reset h = (snapshot h, empty_histogram)
