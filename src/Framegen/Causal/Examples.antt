-- ===== src/Framegen/Causal/Examples.antt =====
-- A slot that the causal planner admits, with the predictor not trained yet.
use gamescope.Common.{arith, false, max, refl, some, true, ◌<◌, ◌≤◌, ◌⊎◌}
use gamescope.Common.Int.{clamp_ℤ, div_ℤ, max_ℤ, mul_ℤ, neg_ℤ, of_i64, pos, to_i64, ◌+ℤ◌}
use gamescope.Framegen.Anchor.{RealAnchorState, display_time, has_value}
use gamescope.Framegen.Cadence.{
  CadencePredictorState, arrival_guard_ns, fixed_cadence_admission, predicted_cadence_interval_ns,
  saturating_add_ns,
}
use gamescope.Framegen.Causal.{
  CausalPlanOptions, chosen_index, is_admitted, judge, judge_source, plan_next_causal_slot,
}
use gamescope.Framegen.Causal.Plan.{Checked, plan, plan_admits_first}
use gamescope.Framegen.Floats.{thousandths}
use gamescope.Framegen.Grid.{DisplayGrid, grid_index_strictly_after, grid_point, target, wake}
use gamescope.Framegen.Temporal.{forward_strength_raw}
use gamescope.Framegen.Timestamp.{remove_present_bias_ns}

abbrev sixty : DisplayGrid
sixty = record { d0 = 1_000_000_000; w0 = 998_000_000; t = 16_666_667 }

abbrev shown : RealAnchorState
shown = record {
  real_frame_id = 7;
  source_ready_ns = 990_000_000;
  provisional_target_ns = 1_000_000_000;
  provisional_bias_ns = pos 0;
  corrected_flip_ns = some 1_000_500_000;
  epoch = 1;
}

abbrev thirty : CadencePredictorState
thirty = record { interval_ns = 33_333_334; trend_ns = pos 0; late_error_ns = 0; samples = 2 }

abbrev wish : CausalPlanOptions thousandths
wish = record {
  now_ns = 1_001_000_000;
  after_target_ns = 0;
  grid_epoch = 1;
  present_bias_ns = pos 0;
  configured_strength = 500;
  forward_strength_cap = 1000;
  source_timestamps_reliable = true;
  dedicated_queue = true;
  shared_queue_proven_empty = false;
}

plan_admits_first_example :
    Checked thousandths sixty shown thirty wish
    × (0 < (plan thousandths sixty shown thirty wish).target_ns)
    × ((target sixty 3 ≤ max (display_time shown) 0)
        ⊎ ((plan thousandths sixty shown thirty wish).target_ns ≤ target sixty 3))
unfolding plan_next_causal_slot judge judge_source is_admitted chosen_index display_time has_value
    target wake grid_point grid_index_strictly_after predicted_cadence_interval_ns
    fixed_cadence_admission arrival_guard_ns saturating_add_ns remove_present_bias_ns
    forward_strength_raw to_i64 of_i64 clamp_ℤ max_ℤ div_ℤ mul_ℤ neg_ℤ ◌+ℤ◌
plan_admits_first_example =
    plan_admits_first thousandths sixty shown thirty wish 3 (omega arith) (omega arith) refl
