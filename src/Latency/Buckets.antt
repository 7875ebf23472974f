-- ===== src/Latency/Buckets.antt =====
-- The bucket of a duration, and the counts of a row.
use native.Mathlib.Nat.{pow-suc}
use holographic_market.Base.{
  ℕ, zero, suc, ◌+◌, ◌-◌, ◌/◌, ◌%◌, ◌^◌, ◌≤◌, ◌<◌, ◌≡◌, refl, sym, ap, ◌∙◌, ◌⊎◌, inl, inr, true,
  false, List, [], ◌∷◌, arith, ltb, get_or, set, length, length-set, Bool-cases, subst, take,
}
use holographic_market.Latency.{
  percentile_from, percentile_ns, k_buckets, Row, bucket_from, bucket_for, plus_one, add_sample,
}

-- Bucket `b + k` is right for a duration that was shifted right `b` times.
abbrev pub Within : ℕ → ℕ → ℕ → Type 0
Within ns b r =
    (k : ℕ) × (r ≡ b + k)
    × (r ≤ k_buckets - 1)
    × (2 ^ k ≤ ns)
    × ((r ≡ k_buckets - 1) ⊎ (ns < 2 ^ suc k))

bucket_from-Within :
    (fuel ns b : ℕ) → fuel + b ≡ k_buckets - 1 → 1 ≤ ns → Within ns b (bucket_from fuel ns b)
unfolding bucket_from
bucket_from-Within zero ns b full some =
    (0, omega arith, omega (arith, full), some, inl (omega (arith, full)))
bucket_from-Within (suc fuel) ns b full some = elim (Bool-cases (ltb 1 ns)) [
  | inr e ↦ rw e (0, omega arith, omega (arith, full), some, inr (ground (arith, e)))
  | inl e ↦
      let (k, same, top, low, high) =
        bucket_from-Within fuel (ns / 2) (suc b) (omega (arith, full)) (ground (arith, e)) in
      rw (e, room)
        (
          suc k,
          omega (arith, same),
          top,
          omega (arith, low, pow-suc 2 k),
          elim high [ inl last ↦ inl last | inr lt ↦ inr (omega (arith, lt, pow-suc 2 (suc k))) ],
        )
]
  where
    room : ltb b 39 ≡ true
    room = ground (arith, full)

-- A duration of at least one nanosecond is counted in a bucket `b` with `2 ^ b` at most the
-- duration; it is less than `2 ^ (b + 1)`, or `b` is the last bucket.
pub bucket_for-bounds :
    (ns : ℕ)
    → 1 ≤ ns
    → (bucket_for ns ≤ 39)
      × (2 ^ bucket_for ns ≤ ns)
      × ((bucket_for ns ≡ 39) ⊎ (ns < 2 ^ suc (bucket_for ns)))
unfolding bucket_for
bucket_for-bounds ns some =
    let (k, same, top, low, high) = bucket_from-Within 39 ns 0 refl some in
    let b = bucket_from 39 ns 0 in
    let is_k : b ≡ k = omega (arith, same) in
    rw (nonzero) (
      top,
      subst (λ i. 2 ^ i ≤ ns) (sym is_k) low,
      subst (λ i. (b ≡ 39) ⊎ (ns < 2 ^ suc i)) (sym is_k) high,
    )
  where
    nonzero : ltb ns 1 ≡ false
    nonzero = ground (arith, some)

bucket_for-small : (ns : ℕ) → bucket_for ns ≤ 39
unfolding bucket_for
bucket_for-small zero = omega arith
bucket_for-small (suc ns) = (bucket_for-bounds (suc ns) (omega arith)).0

abbrev pub total : List ℕ → ℕ
total [] = 0
total (n ∷ l) = n + total l

total-set :
    (l : List ℕ) (i : ℕ)
    → i < length l
    → total l + 1 < 2 ^ 64
    → total (set l i (plus_one (get_or l i 0))) ≡ total l + 1
total-set [] i lt small = absurd (omega arith)
total-set (n ∷ l) zero lt small = omega arith
total-set (n ∷ l) (suc i) lt small = omega (arith, total-set l i (omega arith) (omega arith))

-- A sample adds one to the count of its row and keeps the sum of the buckets equal to it, below
-- 2 ^ 64 samples; the greatest duration is kept.
pub add_sample-total :
    (row : Row) (ns : ℕ)
    → length row.buckets ≡ 40
    → total row.buckets ≡ row.count
    → row.count + 1 < 2 ^ 64
    → let row' = add_sample row ns in
      (length row'.buckets ≡ 40)
      × (total row'.buckets ≡ row'.count)
      × (row'.count ≡ row.count + 1)
      × (ns ≤ row'.max_ns)
      × (row.max_ns ≤ row'.max_ns)
unfolding add_sample
add_sample-total row ns sized same small = (
  length-set row.buckets (bucket_for ns) _ ∙ sized,
  omega (
    arith,
    same,
    total-set row.buckets (bucket_for ns) (omega (arith, sized, bucket_for-small ns))
        (omega (arith, same, small)),
  ),
  omega (arith, small),
  ground arith,
  ground arith,
)

-- The bucket in which the running count of samples goes beyond the target.
abbrev pub Exceeds : ℕ → ℕ → List ℕ → ℕ → ℕ → Type 0
Exceeds target cum buckets b r =
    (k : ℕ) × (r ≡ 2 ^ (b + k))
    × (cum + total (take k buckets) ≤ target)
    × (target < cum + total (take (suc k) buckets))

percentile_from-Exceeds :
    (target cum : ℕ) (buckets : List ℕ) (b : ℕ)
    → cum ≤ target
    → target < cum + total buckets
    → cum + total buckets < 2 ^ 64
    → Exceeds target cum buckets b (percentile_from target cum buckets b)
unfolding percentile_from
percentile_from-Exceeds target cum [] b below above small = absurd (omega (arith, below, above))
percentile_from-Exceeds target cum (n ∷ l) b below above small =
    let unwrapped : (cum + n) % 2 ^ 64 ≡ cum + n = omega (arith, small) in
    elim (Bool-cases (ltb target (cum + n))) [
      | inl e ↦
          rw (unwrapped, e)
            (0, ap (λ i. 2 ^ i) (omega arith), omega (arith, below), ground (arith, e))
      | inr e ↦
          let (k, same, before, after) =
            percentile_from-Exceeds target (cum + n) l (suc b) (ground (arith, e))
              (omega (arith, above)) (omega (arith, small)) in
          rw (unwrapped, e)
            (
              suc k,
              same ∙ ap (λ i. 2 ^ i) (omega arith),
              omega (arith, before),
              omega (arith, after),
            )
    ]

-- The percentile is the lower end of the bucket in which the running count of samples goes beyond
-- the target. The target is below the number of samples, which is below 2 ^ 64.
pub percentile_ns-Exceeds :
    (row : Row) (target : ℕ)
    → target < total row.buckets
    → total row.buckets < 2 ^ 64
    → Exceeds target 0 row.buckets 0 (percentile_ns row target)
unfolding percentile_ns
percentile_ns-Exceeds row target below small =
    percentile_from-Exceeds target 0 row.buckets 0 (omega arith) (omega (arith, below))
      (omega (arith, small))
