-- ===== src/Framegen/Metrics/Percentile.antt =====
-- The percentile of a histogram (src/framegen/metrics.hpp) against the samples it was fed.
use native.Mathlib.Nat.{div-mul-le_self}
use native.Mathlib.Decide.{dec_lt}
use gamescope.Common.{
  List, [], add_u64, ap, arith, false, if◌then◌else◌, leb, length, length-set, ltb, refl, replicate,
  some, suc, true, zero, ℕ, ◌*◌, ◌+◌, ◌/◌, ◌<◌, ◌==◌, ◌∙◌, ◌∷◌, ◌≡◌, ◌≤◌,
}
use gamescope.Framegen.Metrics.{
  Doubles, MetricsDistribution, add_sample, bucket_of, bump, distribution_of, percentile, rank_of,
  scan_buckets,
}
use gamescope.Framegen.Policy.{rank}

-- How many samples lie in the first k buckets.
abbrev pub count_below : ℕ → ℕ → ℕ → List ℕ → ℕ
count_below step buckets k [] = 0
count_below step buckets k (ns ∷ samples) =
    (if ltb (bucket_of step buckets ns) k then 1 else 0) + count_below step buckets k samples

-- How many samples are shorter than a limit.
abbrev pub count_under : ℕ → List ℕ → ℕ
count_under limit [] = 0
count_under limit (ns ∷ samples) = (if ltb ns limit then 1 else 0) + count_under limit samples

-- The sum of the first k counts.
abbrev prefix : ℕ → List ℕ → ℕ
prefix zero hs = 0
prefix (suc k) [] = 0
prefix (suc k) (h ∷ hs) = h + prefix k hs

count-le-length :
    (step buckets k : ℕ) (samples : List ℕ) → count_below step buckets k samples ≤ length samples
count-le-length step buckets k [] = omega arith
count-le-length step buckets k (ns ∷ samples) =
    let rest = count-le-length step buckets k samples in ground arith

-- A count that is raised raises the sums that it is part of.
prefix-bump :
    (k : ℕ) (hs : List ℕ) (b : ℕ)
    → b < length hs
    → prefix (length hs) hs < 1000000000000000000
    → prefix k (bump hs b) ≡ (if ltb b k then 1 else 0) + prefix k hs
unfolding bump
prefix-bump zero hs b lt small = ground arith
prefix-bump (suc k) [] b lt small = absurd (omega arith)
prefix-bump (suc k) (h ∷ hs) zero lt small = ground arith
prefix-bump (suc k) (h ∷ hs) (suc b) lt small =
    let rest = prefix-bump k hs b (omega arith) (omega arith) in ground arith

prefix-zeros : (k n : ℕ) → prefix k (replicate n 0) ≡ 0
prefix-zeros zero n = refl
prefix-zeros (suc k) zero = refl
prefix-zeros (suc k) (suc n) = let rest = prefix-zeros k n in omega arith

length-replicate : (n a : ℕ) → length (replicate n a) ≡ n
length-replicate zero a = refl
length-replicate (suc n) a = ap suc (length-replicate n a)

length-bump : (hs : List ℕ) (b : ℕ) → length (bump hs b) ≡ length hs
unfolding bump
length-bump hs b = length-set hs b _

-- The scan stops at the first place where enough was seen.
scan-finds :
    (rank seen i : ℕ) (hs : List ℕ)
    → seen < rank
    → rank ≤ seen + prefix (length hs) hs
    → seen + prefix (length hs) hs < 1000000000000000000
    → (j : ℕ) × (scan_buckets rank seen i hs ≡ some (i + j))
      × (j < length hs)
      × (seen + prefix j hs < rank)
      × (rank ≤ seen + prefix (suc j) hs)
unfolding scan_buckets
scan-finds rank seen i [] low enough small = absurd (omega arith)
scan-finds rank seen i (h ∷ hs) low enough small = elim (dec_lt (seen + h) rank) [
  | yes more ↦
      let (j, e, inside, before, at) =
        scan-finds rank (seen + h) (i + 1) hs more (omega arith) (omega arith) in
      let exact : add_u64 seen h ≡ seen + h = omega arith in
      let on : leb rank (seen + h) ≡ false = ground arith in
      let place : i + 1 + j ≡ i + suc j = omega arith in
      (suc j, rw (exact, on, ← place) e, omega arith, omega arith, omega arith)
  | no here ↦
      let exact : add_u64 seen h ≡ seen + h = omega arith in
      let stop : leb rank (seen + h) ≡ true = ground arith in
      let place : i ≡ i + 0 = omega arith in
      (0, rw (exact, stop) (ap some place), omega arith, omega arith, omega arith)
]

module _ (D : Doubles) (step buckets : ℕ) (some_width : 1 ≤ step) (some_buckets : 1 ≤ buckets) where
  -- A bucket that is not the last holds the samples between its edges.
  below-under :
      (k : ℕ) (samples : List ℕ)
      → k < buckets
      → count_below step buckets k samples ≡ count_under (k * step) samples
  unfolding bucket_of
  below-under k [] h = refl
  below-under k (ns ∷ samples) h =
      let rest = below-under k samples h in
      let low : ns / step * step ≤ ns = div-mul-le_self ns step in
      let high : ns < ns / step * step + step = omega arith in
      elim (dec_lt (ns / step) k) [
        | yes inside ↦ let edge : ns / step * step + step ≤ k * step = grind arith in ground arith
        | no outside ↦ let edge : k * step ≤ ns / step * step = grind arith in ground arith
      ]

  below-all : (samples : List ℕ) → count_below step buckets buckets samples ≡ length samples
  unfolding bucket_of
  below-all [] = refl
  below-all (ns ∷ samples) = let rest = below-all samples in ground arith

  bucket-lt : (ns : ℕ) → bucket_of step buckets ns < buckets
  unfolding bucket_of
  bucket-lt ns = omega arith

  -- The counts of a histogram are those of its samples.
  histogram_counts :
      (samples : List ℕ)
      → length samples < 100000000000000000
      → let d = distribution_of D step buckets samples in
        (d.n ≡ length samples)
        × (length d.histogram ≡ buckets)
        × ((k : ℕ) → prefix k d.histogram ≡ count_below step buckets k samples)
  unfolding distribution_of add_sample
  histogram_counts [] small = (refl, length-replicate buckets 0, λ k. prefix-zeros k buckets)
  histogram_counts (ns ∷ samples) small =
      let (n, size, counts) = histogram_counts samples (omega arith) in
      let d = distribution_of D step buckets samples in
      let inside : bucket_of step buckets ns < length d.histogram =
        let lt = bucket-lt ns in omega arith in
      let few : prefix (length d.histogram) d.histogram < 1000000000000000000 =
        let all = counts (length d.histogram) in
        let le = count-le-length step buckets (length d.histogram) samples in omega arith in
      (
        omega arith,
        length-bump d.histogram _ ∙ size,
        λ k. prefix-bump k d.histogram (bucket_of step buckets ns) inside few ∙ rw (counts k) refl,
      )

  percentile_at :
      (percent : ℕ) (d : MetricsDistribution D step buckets) (rank i : ℕ)
      → (d.n == 0) ≡ false
      → rank_of d.n percent ≡ rank
      → scan_buckets rank 0 0 d.histogram ≡ some i
      → percentile D step buckets percent d ≡ D.ms_of ((i + 1) * step)
  unfolding percentile
  percentile_at percent d rank i some_n ranked found = rw (some_n, ranked, found) refl

  -- For at least one and fewer than 10^17 samples and a percentage from 1 to 100, with buckets of a positive
  -- width: the percentile is the upper edge of one bucket. Fewer samples than the rank, which is the
  -- percentage of the samples rounded up, are shorter than its lower edge, and as many as the rank are
  -- shorter than its upper edge, unless it is the last bucket.
  pub percentile-IsNearestRank :
      (samples : List ℕ) (percent : ℕ)
      → 1 ≤ length samples
      → length samples < 100000000000000000
      → 1 ≤ percent
      → percent ≤ 100
      → (i : ℕ) × (rank : ℕ) × (percentile D step buckets percent
            (distribution_of D step buckets samples)
          ≡ D.ms_of ((i + 1) * step))
        × (i < buckets)
        × (length samples * percent ≤ rank * 100)
        × (rank * 100 < length samples * percent + 100)
        × (count_under (i * step) samples < rank)
        × (i + 1 < buckets → rank ≤ count_under ((i + 1) * step) samples)
  unfolding rank_of
  percentile-IsNearestRank samples percent fed small low high =
      let d = distribution_of D step buckets samples in
      let (n, size, counts) = histogram_counts samples small in
      let rank = (length samples * percent + 99) / 100 in
      let most : length samples * percent ≤ length samples * 100 = grind arith in
      let least : length samples * 1 ≤ length samples * percent = grind arith in
      let exact : rank_of d.n percent ≡ rank = rw n (omega arith) in
      let total : prefix (length d.histogram) d.histogram ≡ length samples =
        counts (length d.histogram) ∙ rw size (below-all samples) in
      let (i, found, inside, before, at) =
        scan-finds rank 0 0 d.histogram (omega arith) (omega arith) (omega arith) in
      let start : 0 + i ≡ i = omega arith in
      let next : i + 1 ≡ suc i = omega arith in
      let counted = counts i in
      let counted_next = counts (suc i) in
      let some_n : (d.n == 0) ≡ false = ground arith in
      (
        i,
        rank,
        percentile_at percent d rank i some_n exact (found ∙ ap some start),
        omega arith,
        omega arith,
        omega arith,
        (let under = below-under i samples (omega arith) in omega arith),
        λ more. rw next (let under = below-under (suc i) samples (omega arith) in omega arith),
      )
