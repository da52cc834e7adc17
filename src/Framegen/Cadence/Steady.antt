-- ===== src/Framegen/Cadence/Steady.antt =====
-- The cadence predictor (src/framegen/scheduling.hpp) over whole scenes: overflow, and what a
-- steady source does to it.
use gamescope.Common.{
  All, List, ap, arith, if◌then◌else◌, max, mul_u64, replicate, suc, u32_max, zero, ℕ, ≢→==, ◌*◌,
  ◌+◌, ◌/◌, ◌<◌, ◌==◌, ◌∙◌, ◌≡◌, ◌≤◌,
}
use gamescope.Common.Int.{
  IsI64, IsI64-+ℤ, clamp_ℤ, div_ℤ, div_ℤ_parts, max_ℤ, mul_ℤ, neg_ℤ, of_i64, pos, to_i64, ◌+ℤ◌,
  ◌-ℤ◌,
}
use gamescope.Framegen.Cadence.{
  CadencePredictorState, bounded_sample, initial, posterior_of, predicted_cadence_interval_ns,
  residual_of, trend_of, update_cadence_predictor,
}
use gamescope.Framegen.Cadence.Bounds.{
  IsTracked, bounded_sample-le, late_error-eq, predicted-eq, residual-parts, run, run-IsTracked,
}

module _ (limit : ℕ) (ge : 64 ≤ limit) (small : limit < 576460752303423488) where
  initial-IsTracked : IsTracked limit initial
  initial-IsTracked = omega arith

  -- No signed result of an update leaves int64_t, and no unsigned one wraps.
  abbrev pub NoOverflow : CadencePredictorState → ℕ → Type 0
  NoOverflow s x =
      let interval = to_i64 s.interval_ns in
      let prior = predicted_cadence_interval_ns s in
      let residual = residual_of (bounded_sample s.interval_ns x) prior in
      IsI64 (interval +ℤ s.trend_ns)
      × IsI64 (mul_ℤ interval 2)
      × IsI64 residual
      × IsI64 (to_i64 prior +ℤ div_ℤ residual 8)
      × IsI64 (s.trend_ns +ℤ div_ℤ residual 64)
      × (mul_u64 s.interval_ns 2 ≡ s.interval_ns * 2)
      × (mul_u64 s.late_error_ns 7 ≡ s.late_error_ns * 7)

  update-NoOverflow :
      (s : CadencePredictorState) (x : ℕ)
      → IsTracked limit s
      → x ≤ limit
      → 1 ≤ s.interval_ns
      → NoOverflow s x
  unfolding to_i64 mul_ℤ
  update-NoOverflow s x v hx h1 =
      let prior = predicted_cadence_interval_ns s in
      let bounded = bounded_sample s.interval_ns x in
      let residual = residual_of bounded prior in
      let b = bounded_sample-le limit s.interval_ns x v.interval_in hx h1 (omega arith) small in
      let r = residual-parts bounded prior (omega arith) (omega (arith, predicted-eq s h1)) in
      let d = div_ℤ_parts (residual_of bounded prior) in
      (
        IsI64-+ℤ (to_i64 s.interval_ns) s.trend_ns (ground arith) (ground arith),
        ground arith,
        omega (arith, predicted-eq s h1),
        IsI64-+ℤ (to_i64 prior) (div_ℤ residual 8) (ground (arith, d 8, predicted-eq s h1))
            (ground (arith, d 8, predicted-eq s h1)),
        IsI64-+ℤ s.trend_ns (div_ℤ residual 64) (omega (arith, d 64, predicted-eq s h1))
            (omega (arith, d 64, predicted-eq s h1)),
        omega arith,
        omega arith,
      )

  -- For a limit of at least 64 ns and below 2 ^ 59 ns, after any samples of at most the limit the
  -- predictor is bounded, and if it has an interval, its update by a further sample of at most the
  -- limit overflows nowhere.
  pub run-NoOverflow :
      (xs : List ℕ) (x : ℕ)
      → All (λ x. x ≤ limit) xs
      → x ≤ limit
      → 1 ≤ (run initial xs).interval_ns
      → IsTracked limit (run initial xs) × NoOverflow (run initial xs) x
  run-NoOverflow xs x h hx h1 =
      let v = run-IsTracked limit ge small initial xs initial-IsTracked h in
      (v, update-NoOverflow (run initial xs) x v hx h1)

abbrev pub steady_at : ℕ → ℕ → ℕ → CadencePredictorState
steady_at period late samples = record {
  interval_ns = period;
  trend_ns = pos 0;
  late_error_ns = late;
  samples = samples;
}

predicted-steady :
    (p late n : ℕ) → p < 576460752303423488 → predicted_cadence_interval_ns (steady_at p late n) ≡ p
unfolding predicted_cadence_interval_ns to_i64 of_i64 clamp_ℤ max_ℤ div_ℤ mul_ℤ ◌+ℤ◌
predicted-steady p late n h = ground arith

bounded-steady : (p : ℕ) → 1 ≤ p → p < 576460752303423488 → bounded_sample p p ≡ p
unfolding bounded_sample
bounded-steady p h b = ground arith

residual-steady : (p : ℕ) → residual_of p p ≡ pos 0
unfolding residual_of ◌-ℤ◌
residual-steady p = ground arith

posterior-steady : (p : ℕ) → 1 ≤ p → p < 576460752303423488 → posterior_of p (pos 0) ≡ pos p
unfolding posterior_of max_ℤ ◌+ℤ◌ to_i64 div_ℤ
posterior-steady p h b = ground arith

trend-steady : (p : ℕ) → trend_of (pos 0) (pos 0) (pos p) ≡ pos 0
unfolding trend_of max_ℤ neg_ℤ clamp_ℤ div_ℤ ◌+ℤ◌
trend-steady p = ground arith

max-zero : (n : ℕ) → max 0 n ≡ n
max-zero n = omega arith

abbrev next_samples : ℕ → ℕ
next_samples n = if n == u32_max then u32_max else n + 1

-- A sample of the period takes an eighth off the late error of a steady predictor, and keeps period
-- and trend.
update-steady :
    (p late n : ℕ)
    → 1 ≤ p
    → p < 576460752303423488
    → late < 576460752303423488
    → update_cadence_predictor (steady_at p late n) p ≡ steady_at p (late * 7 / 8) (next_samples n)
unfolding update_cadence_predictor of_i64
update-steady p late n h b l = rw (
  ≢→== p 0 (omega arith),
  predicted-steady p late n b,
  bounded-steady p h b,
  residual-steady p,
  posterior-steady p h b,
  trend-steady p,
  late_error-eq late (pos 0) l,
  max-zero (late * 7 / 8),
)

-- A steady predictor (trend 0, period p from 1 and below 2 ^ 59, late error below 2 ^ 59) that then
-- sees p at least as many times as the error has nanoseconds has the period p, the trend 0 and the
-- late error 0.
steady_forgets :
    (p : ℕ) (k late n : ℕ)
    → 1 ≤ p
    → p < 576460752303423488
    → late < 576460752303423488
    → late ≤ k
    → (m : ℕ) × (run (steady_at p late n) (replicate k p) ≡ steady_at p 0 m)
unfolding run
steady_forgets p zero late n h b l lk = (n, ap (λ e. steady_at p e n) (omega arith))
steady_forgets p (suc k) late n h b l lk =
    let (m, e) =
      steady_forgets p k (late * 7 / 8) (next_samples n) h b (omega arith) (omega arith) in
    (m, ap (λ s. run s (replicate k p)) (update-steady p late n h b l) ∙ e)
