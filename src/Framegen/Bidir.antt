-- ===== src/Framegen/Bidir.antt =====
-- The bidirectional timeline's epoch, cut detection and queue bounds (src/framegen/deadline.hpp).
pub mod Epoch
use gamescope.Common.{
  Bool, add_u64, false, if◌then◌else◌, leb, ltb, max, min, mul_u64, not, true, ℕ, ◌&&◌, ◌-◌, ◌==◌,
  ◌||◌,
}
use gamescope.Framegen.Cadence.{saturating_add_ns}

pub record BidirEpoch : Type 0 where
  pub source_epoch_ns : ℕ
  pub display_epoch_ns : ℕ
  pub epoch : ℕ
  pub valid : Bool

unfoldable pub endpoint_display_time : BidirEpoch → ℕ → ℕ
endpoint_display_time e source_ready =
    let delta = e.source_epoch_ns - source_ready in
    if leb e.source_epoch_ns source_ready
    then saturating_add_ns e.display_epoch_ns (source_ready - e.source_epoch_ns)
    else if ltb e.display_epoch_ns delta
    then 0
    else e.display_epoch_ns - delta

pub record BidirCutTransition : Type 0 where
  pub active : Bool
  pub discard_interpolations : Bool
  pub invalidate_epoch : Bool

pub observe_bidir_scene_cut : Bool → Bool → BidirCutTransition
observe_bidir_scene_cut active scene_cut = record {
  active = scene_cut;
  discard_interpolations = scene_cut;
  invalidate_epoch = scene_cut && not active;
}

establish_bidir_epoch : ℕ → ℕ → ℕ → BidirEpoch
establish_bidir_epoch source_ready live_target grid_epoch = record {
  source_epoch_ns = source_ready;
  display_epoch_ns = live_target;
  epoch = grid_epoch;
  valid = not (source_ready == 0) && (not (live_target == 0) && not (grid_epoch == 0));
}

pub record BidirEpochCorrection : Type 0 where
  pub epoch : BidirEpoch
  pub applied : Bool

pub apply_bidir_endpoint_feedback : BidirEpoch → ℕ → ℕ → BidirEpochCorrection
apply_bidir_endpoint_feedback e endpoint_ready actual_flip =
    let delta = endpoint_ready - e.source_epoch_ns in
    if not e.valid || (ltb endpoint_ready e.source_epoch_ns || actual_flip == 0)
    then record { epoch = e; applied = false }
    else if ltb actual_flip delta
    then record { epoch = e; applied = false }
    else record { epoch = record e { display_epoch_ns = actual_flip - delta }; applied = true }

bidir_pending_hard_capacity : ℕ → ℕ → ℕ
bidir_pending_hard_capacity ring_images multiplier =
    let ring = if ltb 2 ring_images then ring_images - 2 else 0 in
    min ring (mul_u64 2 (add_u64 (max 2 multiplier) 1))

bidir_pending_target : ℕ → ℕ → ℕ
bidir_pending_target hard_capacity gap = min hard_capacity (add_u64 (max 1 gap) 1)

bidir_queue_forces_drain : ℕ → ℕ → ℕ → Bool
bidir_queue_forces_drain depth hard_capacity planned =
    let plan = if planned == 0 then hard_capacity else min planned hard_capacity in
    not (depth == 0) && (leb hard_capacity depth || ltb plan depth)
