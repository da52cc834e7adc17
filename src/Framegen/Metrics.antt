-- ===== src/Framegen/Metrics.antt =====
-- The metrics histogram: MetricsDistribution_t of src/framegen/metrics.hpp. The bucket width and the
-- number of buckets are the template's arguments; double is a parameter.
pub mod Percentile
mod Examples
use gamescope.Common.{
  List, Option, [], add_u64, get_or, if◌then◌else◌, leb, min, mul_u64, none, replicate, set, some,
  ℕ, ◌*◌, ◌+◌, ◌-◌, ◌/◌, ◌==◌, ◌∷◌,
}
use gamescope.Framegen.Policy.{rank}

-- The operations on double that the code applies; ms_of is the division by 1.0e6.
pub record Doubles : Type 1 where
  pub Double : Type 0
  pub zero_double : Double
  pub largest : Double
  pub ms_of : ℕ → Double
  pub count_of : ℕ → Double
  pub add_double : Double → Double → Double
  pub sub_double : Double → Double → Double
  pub mul_double : Double → Double → Double
  pub div_double : Double → Double → Double
  pub min_double : Double → Double → Double
  pub max_double : Double → Double → Double
  pub sqrt_double : Double → Double

-- The bucket that a sample is counted in.
pub bucket_of : ℕ → ℕ → ℕ → ℕ
bucket_of step buckets ns = min (ns / step) (buckets - 1)

-- histogram[ nBucket ]++
pub bump : List ℕ → ℕ → List ℕ
bump histogram bucket = set histogram bucket (add_u64 (get_or histogram bucket 0) 1)

-- The rank of a percentile.
pub rank_of : ℕ → ℕ → ℕ
rank_of n percent = add_u64 (mul_u64 n percent) 99 / 100

-- The loop of percentile, from bucket i on: the first bucket at which enough samples were seen.
pub scan_buckets : ℕ → ℕ → ℕ → List ℕ → Option ℕ
scan_buckets rank seen i [] = none
scan_buckets rank seen i (h ∷ hs) =
    let rest = scan_buckets rank (add_u64 seen h) (i + 1) hs in
    if leb rank (add_u64 seen h) then some i else rest

module _ (D : Doubles) (step buckets : ℕ) where
  open D use {Double, ms_of, min_double, max_double, add_double, mul_double}

  pub record MetricsDistribution : Type 0 where
    pub n : ℕ
    pub sum : Double
    pub sum_squares : Double
    pub smallest : Double
    pub greatest : Double
    pub histogram : List ℕ

  abbrev pub empty_distribution : MetricsDistribution
  empty_distribution = record {
    n = 0;
    sum = D.zero_double;
    sum_squares = D.zero_double;
    smallest = D.largest;
    greatest = D.zero_double;
    histogram = replicate buckets 0;
  }

  pub add_sample : ℕ → MetricsDistribution → MetricsDistribution
  add_sample ns d =
      let ms = ms_of ns in
      record {
        n = add_u64 d.n 1;
        sum = add_double d.sum ms;
        sum_squares = add_double d.sum_squares (mul_double ms ms);
        smallest = min_double d.smallest ms;
        greatest = max_double d.greatest ms;
        histogram = bump d.histogram (bucket_of step buckets ns);
      }

  unfoldable average : MetricsDistribution → Double
  average d = if d.n == 0 then D.zero_double else D.div_double d.sum (D.count_of d.n)

  unfoldable stddev : MetricsDistribution → Double
  stddev d =
      if d.n == 0
      then D.zero_double
      else D.sqrt_double (
          max_double D.zero_double (
            D.sub_double (D.div_double d.sum_squares (D.count_of d.n))
              (mul_double (average d) (average d))))

  pub percentile : ℕ → MetricsDistribution → Double
  percentile percent d =
      if d.n == 0
      then D.zero_double
      else elim (scan_buckets (rank_of d.n percent) 0 0 d.histogram) [
        | some i ↦ ms_of ((i + 1) * step)
        | none ↦ ms_of (step * buckets)
      ]

  -- A distribution that was fed samples, the last one first.
  pub distribution_of : List ℕ → MetricsDistribution
  distribution_of [] = empty_distribution
  distribution_of (ns ∷ samples) = add_sample ns (distribution_of samples)
