-- ===== src/Framegen/Causal/Plan.antt =====
-- The admitted slots of the causal planner (src/framegen/deadline.hpp).
use gamescope.Common.{
  IsU64, arith, false, inl, inr, max, true, u64_max, ℕ, ◌<◌, ◌||◌, ◌≡◌, ◌≤◌, ◌⊎◌,
}
use gamescope.Framegen.Anchor.{RealAnchorState, display_time}
use gamescope.Framegen.Cadence.{
  CadencePredictorState, fixed_cadence_admission, predicted_cadence_interval_ns,
}
use gamescope.Framegen.Causal.{
  CausalPlanOptions, CausalSlotPlan, admitted, chosen_index, is_admitted, judge,
  plan_next_causal_slot,
}
use gamescope.Framegen.Floats.{Floats}
use gamescope.Framegen.Grid.{DisplayGrid, grid_index_strictly_after, target, wake}
use gamescope.Framegen.Grid.Index.{strictly_after-first, target_mono}
use gamescope.Framegen.Timestamp.{remove_present_bias_ns}

module _ (F : Floats) (grid : DisplayGrid) (anchor : RealAnchorState)
    (cadence : CadencePredictorState) (options : CausalPlanOptions F) where
  abbrev pub plan : CausalSlotPlan F
  plan = plan_next_causal_slot F grid anchor cadence options

  -- What the planner has checked of an admitted slot.
  pub record Checked : Type 0 where
    pub grid_known : (1 ≤ grid.t) × (1 ≤ grid.d0) × (1 ≤ grid.w0)
    pub epoch_matches : (1 ≤ anchor.epoch) × (anchor.epoch ≡ options.grid_epoch)
    pub on_grid :
        (plan.target_ns ≡ target grid (chosen_index F grid anchor options))
        × (plan.wake_ns ≡ wake grid (chosen_index F grid anchor options))
    pub cadence_known : 1 ≤ predicted_cadence_interval_ns cadence
    pub after_anchor : display_time anchor < plan.target_ns
    pub in_time : options.now_ns < plan.wake_ns
    pub within_cap : F.less options.forward_strength_cap plan.raw_strength ≡ false
    pub reason : plan.skip_reason ≡ admitted
    pub backup_wanted :
        (options.source_timestamps_reliable ≡ false)
        ⊎ ((fixed_cadence_admission anchor.source_ready_ns cadence options.now_ns
              (remove_present_bias_ns plan.wake_ns options.present_bias_ns)
              grid.t).generate_backup
            ≡ true)
    pub queue_free :
        (options.source_timestamps_reliable ≡ true)
        ⊎ ((options.dedicated_queue || options.shared_queue_proven_empty) ≡ true)

  admit-Checked : plan.admit ≡ true → Checked
  unfolding plan_next_causal_slot judge is_admitted
  admit-Checked h = ground arith

  -- With the grid's base in uint64_t, and the anchor's display time and the last target below its
  -- largest value, an admitted slot passed every test of the planner, its target is later than the
  -- last one, and each refresh m of the grid is no later than these two or no earlier than it.
  pub plan_admits_first :
      (m : ℕ)
      → IsU64 grid.d0
      → max (display_time anchor) options.after_target_ns < u64_max
      → plan.admit ≡ true
      → Checked
        × (options.after_target_ns < plan.target_ns)
        × ((target grid m ≤ max (display_time anchor) options.after_target_ns)
            ⊎ (plan.target_ns ≤ target grid m))
  unfolding chosen_index
  plan_admits_first m base room h = (
    c,
    omega (arith, c.on_grid, first),
    elim first.1 [
      | inl later ↦ inr (omega (arith, c.on_grid, target_mono grid n m c.grid_known.0 base later))
      | inr before ↦ inl before
    ],
  )
    where
      used : ℕ
      used = max (display_time anchor) options.after_target_ns

      n : ℕ
      n = grid_index_strictly_after grid used

      c : Checked
      c = admit-Checked h

      first : (used < target grid n) × ((n ≤ m) ⊎ (target grid m ≤ used))
      first = strictly_after-first grid used c.grid_known.0 base m room
