-- ===== src/Framegen/Ladder/Budget.antt =====
-- Budgets of the deadline ladder and the thresholds of degradation and recovery
-- (src/framegen/scheduling.hpp).
use gamescope.Common.{Bool, IsU64, arith, false, max, true, ℕ, ◌*◌, ◌+◌, ◌-◌, ◌/◌, ◌<◌, ◌≡◌, ◌≤◌}
use gamescope.Framegen.Ladder.{
  DeadlineLadderState, deadline_budget_ns, deadline_miss_count, deadline_recovery_headroom,
  deadline_shortfall_is_phase_only, evaluate_deadline_ladder, evaluate_deadline_miss_hysteresis,
  fixed_refresh_slot_budget_ns, percent_of,
}

-- The two-part percentage is the plain one, with no overflow where n * 85 would have overflowed.
deadline_budget-eq : (n : ℕ) → IsU64 n → deadline_budget_ns n ≡ n * 85 / 100
unfolding deadline_budget_ns
deadline_budget-eq n h = omega arith

-- For inputs in uint64_t, the slot budget is 85 percent of what lead and margin leave of the vblank,
-- and with both it fits the vblank, or they alone exceed it.
slot_budget_bounds :
    (vblank lead margin : ℕ)
    → IsU64 vblank
    → IsU64 lead
    → IsU64 margin
    → (fixed_refresh_slot_budget_ns vblank lead margin ≡ (vblank - (lead + margin)) * 85 / 100)
      × (fixed_refresh_slot_budget_ns vblank lead margin + lead + margin
          ≤ max vblank (lead + margin))
unfolding fixed_refresh_slot_budget_ns
slot_budget_bounds vblank lead margin hv hl hm = ground arith

-- Where a shortfall is reported as one of phase only and the miss test still degrades, the window
-- holds two misses.
phase_only_keeps_rung :
    (recent cost samples remaining slot : ℕ) (missed hitch : Bool)
    → deadline_shortfall_is_phase_only cost samples remaining slot ≡ true
    → (evaluate_deadline_miss_hysteresis recent missed hitch cost samples slot).degrade ≡ true
    → 2
      ≤ deadline_miss_count
          (evaluate_deadline_miss_hysteresis recent missed hitch cost samples slot).recent_misses
unfolding deadline_shortfall_is_phase_only evaluate_deadline_miss_hysteresis
phase_only_keeps_rung recent cost samples remaining slot missed hitch h d = ground arith

-- Where the recovery sees headroom in the slot's budget, the ladder degrades neither the current nor
-- the richer rung at its measured cost and the same vblank, in any state; the vblank is below
-- 217020518514230019 ns, lead and margin are in uint64_t.
pub recovery_does_not_flap :
    (cost samples richer_cost richer_samples vblank lead margin max_steps : ℕ)
    (s t : DeadlineLadderState)
    → vblank < 217020518514230019
    → IsU64 lead
    → IsU64 margin
    → deadline_recovery_headroom cost samples richer_cost richer_samples
        (fixed_refresh_slot_budget_ns vblank lead margin)
      ≡ true
    → ((evaluate_deadline_ladder s max_steps cost samples vblank).try_degrade ≡ false)
      × ((evaluate_deadline_ladder t max_steps richer_cost richer_samples vblank).try_degrade
          ≡ false)
unfolding deadline_recovery_headroom evaluate_deadline_ladder percent_of
recovery_does_not_flap cost samples richer_cost richer_samples vblank lead margin max_steps s t hv
      hl hm h =
    ground (arith, slot_budget_bounds vblank lead margin)
