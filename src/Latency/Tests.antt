-- ===== src/Latency/Tests.antt =====
-- Samples of some durations, and the theorems on them.
use holographic_market.Base.{◌≡◌, refl, ◌∷◌, replicate}
use holographic_market.Latency.{Row, bucket_for, bucket_from}

bucket_of_1500 : bucket_for 1500 ≡ 10
unfolding bucket_for bucket_from
bucket_of_1500 = refl

-- Four samples in the buckets 1 and 2.
abbrev row_of_4 : Row
row_of_4 = record { buckets = 0 ∷ 1 ∷ 3 ∷ replicate 37 0; count = 4; max_ns = 7 }
