-- ===== src/Latency.antt =====
-- engine/core/latency_trace.hpp: a histogram of durations per stage, in powers of two.
-- Each access of a counter is atomic, and a call of `record` is one step here. What `dump` prints
-- is not modelled: `clear` is what it does to the row of a stage with samples.
pub mod Buckets
mod Tests
use holographic_market.Base.{
  ℕ, zero, suc, ◌+◌, ◌-◌, ◌/◌, ◌%◌, ◌^◌, ◌&&◌, List, [], ◌∷◌, ltb, ◌==◌, if◌then◌else◌, get_or, set,
  replicate,
}

-- `Stage`, by its number: `COUNT` is 5.
abbrev pub stage_count : ℕ
stage_count = 5

abbrev pub k_buckets : ℕ
k_buckets = 40

-- The counters of one stage.
pub record Row : Type 0 where
  pub buckets : List ℕ
  pub count : ℕ
  pub max_ns : ℕ

abbrev pub blank_row : Row
blank_row = record { buckets = replicate k_buckets 0; count = 0; max_ns = 0 }

unfoldable pub make : List Row
make = replicate stage_count blank_row

-- The loop of `bucket_for` from bucket `b` on: it is left at the latest in bucket 39.
unfoldable pub bucket_from : ℕ → ℕ → ℕ → ℕ
bucket_from zero ns b = b
bucket_from (suc fuel) ns b =
    let rest = bucket_from fuel (ns / 2) (suc b) in
    if ltb 1 ns && ltb b (k_buckets - 1) then rest else b

unfoldable pub bucket_for : ℕ → ℕ
bucket_for ns = if ltb ns 1 then 0 else bucket_from (k_buckets - 1) ns 0

abbrev pub plus_one : ℕ → ℕ
plus_one n = (n + 1) % 2 ^ 64

unfoldable pub add_sample : Row → ℕ → Row
add_sample row ns =
    let b = bucket_for ns in
    record {
      buckets = set row.buckets b (plus_one (get_or row.buckets b 0));
      count = plus_one row.count;
      max_ns = if ltb row.max_ns ns then ns else row.max_ns;
    }

unfoldable pub record_sample : List Row → ℕ → ℕ → List Row
record_sample rows stage ns =
    if ltb stage stage_count
    then set rows stage (add_sample (get_or rows stage blank_row) ns)
    else rows

-- The loop of `percentile_ns` over the buckets from `b` on, `target` being the number of samples
-- that is to be exceeded.
unfoldable pub percentile_from : ℕ → ℕ → List ℕ → ℕ → ℕ
percentile_from target cum [] b = 2 ^ (k_buckets - 1)
percentile_from target cum (n ∷ buckets) b =
    let cum' = (cum + n) % 2 ^ 64 in
    let rest = percentile_from target cum' buckets (suc b) in
    if ltb target cum' then 2 ^ b else rest

unfoldable pub percentile_ns : Row → ℕ → ℕ
percentile_ns row target = percentile_from target 0 row.buckets 0

unfoldable pub clear : Row → Row
clear row =
    if row.count == 0
    then row
    else record { buckets = replicate k_buckets 0; count = 0; max_ns = 0 }
