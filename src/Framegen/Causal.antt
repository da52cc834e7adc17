-- ===== src/Framegen/Causal.antt =====
-- The causal planner of src/framegen/deadline.hpp: the earliest unused refresh after the real
-- anchor, and each reason to leave it alone.
pub mod Plan
mod Examples
use gamescope.Common.{Bool, false, if◌then◌else◌, leb, max, not, true, ℕ, ◌-◌, ◌==◌, ◌||◌}
use gamescope.Common.Int.{ℤ}
use gamescope.Framegen.Anchor.{RealAnchorState, display_time, has_value}
use gamescope.Framegen.Cadence.{
  CadencePredictorState, fixed_cadence_admission, predicted_cadence_interval_ns,
}
use gamescope.Framegen.Floats.{Floats}
use gamescope.Framegen.Grid.{DisplayGrid, grid_index_strictly_after, target, wake}
use gamescope.Framegen.Temporal.{forward_strength_raw}
use gamescope.Framegen.Timestamp.{remove_present_bias_ns}

pub data DeadlineSkipReason : Type 0 where
  admitted invalid_grid epoch_mismatch no_cadence missed_wake : DeadlineSkipReason
  forward_cap next_real_safely_due shared_source_uncertain : DeadlineSkipReason

module _ (F : Floats) where
  open F use {Double, Float, double_of, div_double, narrow, float_of, less}

  pub record CausalPlanOptions : Type 0 where
    pub now_ns : ℕ
    pub after_target_ns : ℕ
    pub grid_epoch : ℕ
    pub present_bias_ns : ℤ
    pub configured_strength : Float
    pub forward_strength_cap : Float
    pub source_timestamps_reliable : Bool
    pub dedicated_queue : Bool
    pub shared_queue_proven_empty : Bool

  pub record CausalSlotPlan : Type 0 where
    pub target_ns : ℕ
    pub wake_ns : ℕ
    pub phase : Double
    pub raw_strength : Float
    pub admit : Bool
    pub provisional : Bool
    pub skip_reason : DeadlineSkipReason

  -- The plan of the default initialisers, skipped for a reason.
  abbrev unplanned : DeadlineSkipReason → CausalSlotPlan
  unplanned reason = record {
    target_ns = 0;
    wake_ns = 0;
    phase = double_of 0;
    raw_strength = float_of 0;
    admit = false;
    provisional = false;
    skip_reason = reason;
  }

  -- The refresh that the planner considers.
  pub chosen_index : DisplayGrid → RealAnchorState → CausalPlanOptions → ℕ
  chosen_index grid anchor options =
      grid_index_strictly_after grid (max (display_time anchor) options.after_target_ns)

  -- The last three tests, which lead to an admission or a reason.
  pub judge_source :
      DisplayGrid
      → RealAnchorState
      → CadencePredictorState
      → CausalPlanOptions
      → ℕ
      → DeadlineSkipReason
  judge_source grid anchor cadence options wake_ns =
      let admission_wake = remove_present_bias_ns wake_ns options.present_bias_ns in
      let admission =
        fixed_cadence_admission anchor.source_ready_ns cadence options.now_ns admission_wake
          grid.t in
      if options.source_timestamps_reliable
      then (if admission.generate_backup then admitted else next_real_safely_due)
      else if options.dedicated_queue || options.shared_queue_proven_empty
      then admitted
      else shared_source_uncertain

  pub is_admitted : DeadlineSkipReason → Bool
  is_admitted admitted = true
  is_admitted _ = false

  -- The tests on a chosen target, in the code's order.
  pub judge :
      DisplayGrid
      → RealAnchorState
      → CadencePredictorState
      → CausalPlanOptions
      → ℕ
      → Float
      → DeadlineSkipReason
  unfolding judge_source
  judge grid anchor cadence options wake_ns strength =
      if leb wake_ns options.now_ns
      then missed_wake
      else if less options.forward_strength_cap strength
      then forward_cap
      else judge_source grid anchor cadence options wake_ns

  pub plan_next_causal_slot :
      DisplayGrid → RealAnchorState → CadencePredictorState → CausalPlanOptions → CausalSlotPlan
  unfolding chosen_index
  plan_next_causal_slot grid anchor cadence options =
      let anchor_ns = display_time anchor in
      let n = chosen_index grid anchor options in
      let target_ns = target grid n in
      let wake_ns = wake grid n in
      let provisional = not (has_value anchor.corrected_flip_ns) in
      let interval = predicted_cadence_interval_ns cadence in
      let phase = div_double (double_of (target_ns - anchor_ns)) (double_of interval) in
      let strength = forward_strength_raw F (narrow phase) options.configured_strength in
      let reason = judge grid anchor cadence options wake_ns strength in
      if grid.t == 0 || (grid.d0 == 0 || grid.w0 == 0)
      then unplanned invalid_grid
      else if anchor.epoch == 0 || not (anchor.epoch == options.grid_epoch)
      then unplanned epoch_mismatch
      else if interval == 0 || leb target_ns anchor_ns
      then record (unplanned no_cadence) {
        target_ns = target_ns;
        wake_ns = wake_ns;
        provisional = provisional;
      }
      else record {
        target_ns = target_ns;
        wake_ns = wake_ns;
        phase = phase;
        raw_strength = strength;
        admit = is_admitted reason;
        provisional = provisional;
        skip_reason = reason;
      }
