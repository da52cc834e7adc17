-- ===== src/Framegen/Cadence/Bounds.antt =====
-- Bounds of the cadence predictor (src/framegen/scheduling.hpp) over runs of samples.
use native.Mathlib.Decide.{dec_lt}
use gamescope.Common.{
  ==_iff, All, List, [], arith, if◌then◌else◌, max, u32_max, ℕ, ≢→==, ◌*◌, ◌+◌, ◌-◌, ◌/◌, ◌<◌, ◌==◌,
  ◌∷◌, ◌≡◌, ◌≤◌,
}
use gamescope.Common.Int.{
  clamp_ℤ, div_ℤ, i64_max, max_ℤ, mul_ℤ, neg_part, neg_ℤ, of_i64, pos, pos_part, to_i64, ℤ, ◌+ℤ◌,
  ◌-ℤ◌,
}
use gamescope.Framegen.Cadence.{
  CadencePredictorState, bounded_sample, late_error_of, posterior_of, predicted_cadence_interval_ns,
  residual_of, trend_of, update_cadence_predictor,
}

-- A trend is at most a sixteenth of the interval, or 1.
abbrev IsGentle : ℕ → ℤ → Type 0
IsGentle interval trend =
    (pos_part trend ≤ max 1 (interval / 16)) × (neg_part trend ≤ max 1 (interval / 16))

pub predicted-eq :
    (s : CadencePredictorState)
    → 1 ≤ s.interval_ns
    → s.interval_ns < 2305843009213693952
    → IsGentle s.interval_ns s.trend_ns
    → (predicted_cadence_interval_ns s + neg_part s.trend_ns
        ≤ s.interval_ns + pos_part s.trend_ns + 1)
      × (s.interval_ns + pos_part s.trend_ns
          ≤ predicted_cadence_interval_ns s + neg_part s.trend_ns)
      × (1 ≤ predicted_cadence_interval_ns s)
unfolding predicted_cadence_interval_ns to_i64 of_i64 clamp_ℤ max_ℤ div_ℤ mul_ℤ ◌+ℤ◌
predicted-eq s h b g = ground arith

-- Samples are at most `limit` (the renderer keeps 250 ms of history).
pub record IsTracked (limit : ℕ) (s : CadencePredictorState) : Type 0 where
  pub interval_in : s.interval_ns ≤ 2 * limit
  pub trend_gentle : IsGentle s.interval_ns s.trend_ns
  pub late_in : s.late_error_ns ≤ limit
  pub samples_in : s.samples ≤ u32_max

pub bounded_sample-le :
    (limit i x : ℕ)
    → i ≤ 2 * limit
    → x ≤ limit
    → 1 ≤ i
    → 1 ≤ limit
    → limit < 576460752303423488
    → (bounded_sample i x ≤ limit)
      × (bounded_sample i x ≤ 2 * i)
      × (i / 2 ≤ bounded_sample i x)
      × (1 ≤ bounded_sample i x)
unfolding bounded_sample
bounded_sample-le limit i x hi hx h1 hl hb = ground arith

pub residual-parts :
    (a b : ℕ)
    → a ≤ i64_max
    → b ≤ i64_max
    → (pos_part (residual_of a b) ≡ a - b) × (neg_part (residual_of a b) ≡ b - a)
unfolding residual_of to_i64 ◌-ℤ◌
residual-parts a b ha hb = ground arith

-- The filtered period as a number: an eighth of the miss is taken over, rounded towards zero.
abbrev pub filtered : ℕ → ℕ → ℕ
filtered prior bounded = max 1 (prior + (bounded - prior) / 8 - (prior - bounded) / 8)

posterior-eq :
    (prior bounded : ℕ)
    → prior ≤ i64_max
    → bounded ≤ i64_max
    → posterior_of prior (residual_of bounded prior) ≡ pos (filtered prior bounded)
unfolding posterior_of residual_of max_ℤ ◌+ℤ◌ ◌-ℤ◌ to_i64 div_ℤ
posterior-eq prior bounded h hb = ground arith

trend-IsGentle : (t r : ℤ) (p : ℕ) → IsGentle p (trend_of t r (pos p))
unfolding trend_of max_ℤ neg_ℤ clamp_ℤ div_ℤ ◌+ℤ◌
trend-IsGentle t r p = ground arith

pub late_error-eq :
    (l : ℕ) (r : ℤ) → l < 576460752303423488 → late_error_of r l ≡ max (pos_part r) (l * 7 / 8)
unfolding late_error_of of_i64
late_error-eq l r hl = ground arith

-- The update of a running predictor, in numbers.
tracked : CadencePredictorState → ℕ → CadencePredictorState
tracked s x =
    let prior = predicted_cadence_interval_ns s in
    let bounded = bounded_sample s.interval_ns x in
    record {
      interval_ns = filtered prior bounded;
      trend_ns = trend_of s.trend_ns (residual_of bounded prior) (pos (filtered prior bounded));
      late_error_ns = max (bounded - prior) (s.late_error_ns * 7 / 8);
      samples = if s.samples == u32_max then u32_max else s.samples + 1;
    }

zero_sample : (s : CadencePredictorState) (x : ℕ) → x ≡ 0 → update_cadence_predictor s x ≡ s
unfolding update_cadence_predictor
zero_sample s x e = rw ((==_iff x 0).1 e)

-- The samples of a scene in order.
unfoldable pub run : CadencePredictorState → List ℕ → CadencePredictorState
run s [] = s
run s (x ∷ xs) = run (update_cadence_predictor s x) xs

module _ (limit : ℕ) (ge : 64 ≤ limit) (small : limit < 576460752303423488) where
  update-tracked :
      (s : CadencePredictorState) (x : ℕ)
      → IsTracked limit s
      → x ≤ limit
      → 1 ≤ x
      → 1 ≤ s.interval_ns
      → update_cadence_predictor s x ≡ tracked s x
  unfolding update_cadence_predictor tracked of_i64
  update-tracked s x v hx x1 h1 =
      rw
        (
          ≢→== x 0 (omega arith),
          ≢→== s.interval_ns 0 (omega arith),
          posterior-eq prior bounded (omega (arith, predicted-eq s h1))
              (omega (arith, bounded_sample-le limit s.interval_ns x)),
        )
        (rw (
          late_error-eq s.late_error_ns (residual_of bounded prior) (omega arith),
          (residual-parts bounded prior (omega (arith, bounded_sample-le limit s.interval_ns x))
              (omega (arith, predicted-eq s h1))).0,
        ))
    where
      prior : ℕ
      prior = predicted_cadence_interval_ns s

      bounded : ℕ
      bounded = bounded_sample s.interval_ns x

  tracked-IsTracked :
      (s : CadencePredictorState) (x : ℕ)
      → IsTracked limit s
      → x ≤ limit
      → 1 ≤ s.interval_ns
      → IsTracked limit (tracked s x)
  unfolding tracked
  tracked-IsTracked s x v hx h1 =
      let prior = predicted_cadence_interval_ns s in
      let bounded = bounded_sample s.interval_ns x in
      record {
        interval_in = ground (arith, predicted-eq s h1, bounded_sample-le limit s.interval_ns x);
        trend_gentle =
            trend-IsGentle s.trend_ns (residual_of bounded prior) (filtered prior bounded);
        late_in = ground (arith, bounded_sample-le limit s.interval_ns x);
        samples_in = ground arith;
      }

  first-IsTracked :
      (s : CadencePredictorState) (x : ℕ)
      → IsTracked limit s
      → x ≤ limit
      → 1 ≤ x
      → s.interval_ns ≡ 0
      → IsTracked limit (update_cadence_predictor s x)
  unfolding update_cadence_predictor
  first-IsTracked s x v hx x1 e =
      rw (≢→== x 0 (omega arith), (==_iff s.interval_ns 0).1 e) (ground arith)

  -- One update by a sample of at most the limit keeps the bounds, for the section's limits.
  update-IsTracked :
      (s : CadencePredictorState) (x : ℕ)
      → IsTracked limit s
      → x ≤ limit
      → IsTracked limit (update_cadence_predictor s x)
  update-IsTracked s x v hx = elim (dec_lt 0 x) [
    | no p ↦ rw (zero_sample s x (omega arith)) v
    | yes p ↦ elim (dec_lt 0 s.interval_ns) [
      | no q ↦ first-IsTracked s x v hx p (omega arith)
      | yes q ↦ rw (update-tracked s x v hx p q) (tracked-IsTracked s x v hx q)
    ]
  ]

  -- From bounded state, any run of samples of at most a limit keeps the predictor's bounds, for a
  -- limit of at least 64 ns and below 2 ^ 59 ns.
  pub run-IsTracked :
      (s : CadencePredictorState) (xs : List ℕ)
      → IsTracked limit s
      → All (λ x. x ≤ limit) xs
      → IsTracked limit (run s xs)
  unfolding run
  run-IsTracked s [] v h = v
  run-IsTracked s (x ∷ xs) v h =
      run-IsTracked (update_cadence_predictor s x) xs (update-IsTracked s x v h.0) h.1
