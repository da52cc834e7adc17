-- ===== src/Framegen/Metrics/Examples.antt =====
-- Five samples in a histogram of eight buckets.
use gamescope.Common.{
  List, [], arith, length, max, min, refl, ℕ, ◌*◌, ◌+◌, ◌-◌, ◌/◌, ◌<◌, ◌∷◌, ◌≡◌, ◌≤◌,
}
use gamescope.Framegen.Metrics.{
  Doubles, add_sample, bucket_of, bump, distribution_of, percentile, rank_of, scan_buckets,
}
use gamescope.Framegen.Metrics.Percentile.{count_under, percentile-IsNearestRank}

abbrev microseconds : Doubles
microseconds = record {
  Double = ℕ;
  zero_double = 0;
  largest = 18446744073709551615;
  ms_of = λ ns. ns / 1000;
  count_of = λ n. n;
  add_double = λ a b. a + b;
  sub_double = λ a b. a - b;
  mul_double = λ a b. a * b;
  div_double = λ a b. a / b;
  min_double = min;
  max_double = max;
  sqrt_double = λ a. a;
}

abbrev samples : List ℕ
samples = 100_000 ∷ 300_000 ∷ 260_000 ∷ 990_000 ∷ 9_000_000 ∷ []

-- The median sample lies in the second bucket.
median : percentile microseconds 250_000 8 50 (distribution_of microseconds 250_000 8 samples) ≡ 500
unfolding percentile distribution_of add_sample bump bucket_of scan_buckets rank_of
median = refl

percentile-IsNearestRank_example :
    (i : ℕ) × (rank : ℕ) × (percentile microseconds 250_000 8 95
        (distribution_of microseconds 250_000 8 samples)
      ≡ microseconds.ms_of ((i + 1) * 250_000))
    × (i < 8)
    × (length samples * 95 ≤ rank * 100)
    × (rank * 100 < length samples * 95 + 100)
    × (count_under (i * 250_000) samples < rank)
    × (i + 1 < 8 → rank ≤ count_under ((i + 1) * 250_000) samples)
percentile-IsNearestRank_example =
    percentile-IsNearestRank microseconds 250_000 8 (omega arith) (omega arith) samples 95
      (omega arith) (omega arith) (omega arith) (omega arith)
