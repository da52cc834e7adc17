-- ===== src/Framegen/Cadence.antt =====
-- The source-cadence predictor and the fixed-refresh admission test of src/framegen/scheduling.hpp.
-- A step returns the new state. The int64_t arithmetic of the filter is exact; sums that the code
-- guards are exact too, the others wrap.
pub mod Bounds
pub mod Steady
pub mod Admission
mod Examples
use gamescope.Common.{
  ℕ, ◌+◌, ◌-◌, ◌*◌, ◌/◌, max, Bool, true, false, not, ◌||◌, ltb, leb, ◌==◌, if◌then◌else◌, clamp,
  u32_max, u64_max, mul_u64,
}
use gamescope.Common.Int.{
  ℤ, pos, pos_part, ◌+ℤ◌, ◌-ℤ◌, mul_ℤ, div_ℤ, neg_ℤ, max_ℤ, clamp_ℤ, ltb_ℤ, to_i64, of_i64,
}

-- k_uCadencePredictorMinSamples and its neighbours.
abbrev pub cadence_predictor_min_samples : ℕ
cadence_predictor_min_samples = 4

abbrev pub cadence_arrival_guard_min_ns : ℕ
cadence_arrival_guard_min_ns = 250_000

abbrev cadence_arrival_guard_divisor : ℕ
cadence_arrival_guard_divisor = 32

pub record CadencePredictorState : Type 0 where
  pub interval_ns : ℕ
  pub trend_ns : ℤ
  pub late_error_ns : ℕ
  pub samples : ℕ

-- The member initialisers.
abbrev pub initial : CadencePredictorState
initial = record { interval_ns = 0; trend_ns = pos 0; late_error_ns = 0; samples = 0 }

unfoldable pub predicted_cadence_interval_ns : CadencePredictorState → ℕ
predicted_cadence_interval_ns state =
    let interval = to_i64 state.interval_ns in
    let predicted = interval +ℤ state.trend_ns in
    if state.interval_ns == 0
    then 0
    else of_i64 (clamp_ℤ predicted (max_ℤ (pos 1) (div_ℤ interval 2)) (mul_ℤ interval 2))

-- The sample after std::clamp to half and twice the learned interval.
pub bounded_sample : ℕ → ℕ → ℕ
bounded_sample interval sample = clamp sample (max 1 (interval / 2)) (mul_u64 interval 2)

-- The signed miss of the prediction, and the filtered period that follows from it.
pub residual_of : ℕ → ℕ → ℤ
residual_of bounded prior = to_i64 bounded -ℤ to_i64 prior

pub posterior_of : ℕ → ℤ → ℤ
posterior_of prior residual = max_ℤ (pos 1) (to_i64 prior +ℤ div_ℤ residual 8)

pub trend_of : ℤ → ℤ → ℤ → ℤ
trend_of trend residual posterior =
    let max_trend = max_ℤ (pos 1) (div_ℤ posterior 16) in
    clamp_ℤ (trend +ℤ div_ℤ residual 64) (neg_ℤ max_trend) max_trend

pub late_error_of : ℤ → ℕ → ℕ
late_error_of residual late =
    max (if ltb_ℤ (pos 0) residual then of_i64 residual else 0) (mul_u64 late 7 / 8)

pub update_cadence_predictor : CadencePredictorState → ℕ → CadencePredictorState
update_cadence_predictor state sample =
    let prior = predicted_cadence_interval_ns state in
    let residual = residual_of (bounded_sample state.interval_ns sample) prior in
    let posterior = posterior_of prior residual in
    if sample == 0
    then state
    else if state.interval_ns == 0
    then record state { interval_ns = sample; samples = 1 }
    else record {
      interval_ns = of_i64 posterior;
      trend_ns = trend_of state.trend_ns residual posterior;
      late_error_ns = late_error_of residual state.late_error_ns;
      samples = if state.samples == u32_max then u32_max else state.samples + 1;
    }

pub record FixedCadenceAdmission : Type 0 where
  pub generate_backup : Bool
  pub trained : Bool
  pub prediction_overdue : Bool
  pub predicted_ready_ns : ℕ
  pub safety_margin_ns : ℕ
  pub deadline_headroom_ns : ℕ

unfoldable pub saturating_add_ns : ℕ → ℕ → ℕ
saturating_add_ns a b = if ltb (u64_max - b) a then u64_max else a + b

unfoldable pub arrival_guard_ns : ℕ → ℕ
arrival_guard_ns vblank_interval =
    max cadence_arrival_guard_min_ns (vblank_interval / cadence_arrival_guard_divisor)

unfoldable pub fixed_cadence_admission :
    ℕ → CadencePredictorState → ℕ → ℕ → ℕ → FixedCadenceAdmission
unfolding saturating_add_ns
fixed_cadence_admission source_ready state now target_wake vblank_interval =
    let predicted_interval = predicted_cadence_interval_ns state in
    let trained = leb cadence_predictor_min_samples state.samples in
    let safety_margin = saturating_add_ns state.late_error_ns (arrival_guard_ns vblank_interval) in
    let predicted_ready = saturating_add_ns source_ready predicted_interval in
    let protected_ready = saturating_add_ns predicted_ready safety_margin in
    let overdue = leb protected_ready now in
    if source_ready == 0
      || (predicted_interval == 0 || (now == 0 || (target_wake == 0 || vblank_interval == 0)))
    then record {
      generate_backup = true;
      trained = false;
      prediction_overdue = false;
      predicted_ready_ns = 0;
      safety_margin_ns = 0;
      deadline_headroom_ns = 0;
    }
    else record {
      generate_backup = not trained || (overdue || leb target_wake protected_ready);
      trained = trained;
      prediction_overdue = overdue;
      predicted_ready_ns = predicted_ready;
      safety_margin_ns = safety_margin;
      deadline_headroom_ns =
          if ltb protected_ready target_wake then target_wake - protected_ready else 0;
    }
