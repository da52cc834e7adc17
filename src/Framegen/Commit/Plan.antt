-- ===== src/Framegen/Commit/Plan.antt =====
-- The commit plans of src/framegen/deadline.hpp.
use gamescope.Common.{
  Bool, IsU64, arith, max, min, true, u64_max, ℕ, ◌*◌, ◌+◌, ◌-◌, ◌/◌, ◌<◌, ◌↔◌, ◌≡◌, ◌≤◌, ◌⊎◌,
}
use gamescope.Common.Int.{IsI64, pos_part}
use gamescope.Framegen.Cadence.{saturating_add_ns}
use gamescope.Framegen.Chain.{
  MinimumViablePresentLeadState, PresentLeadState, present_lead_warmup_samples,
}
use gamescope.Framegen.Commit.{
  commit_reservation_only_shortfall, deadline_cost_fits, plan_fixed_refresh_commit,
  plan_vrr_midpoint, real_arrival_blocks_early_generated_commit, select_fixed_refresh_present_lead,
}
use gamescope.Framegen.Ladder.{percent_of}
use gamescope.Framegen.Lead.Minimum.{habitual_ns-eq}

-- For a wake in uint64_t, a cost fits exactly if the later of now and the start is before the wake and
-- the cost is at most 85 percent of the time between.
cost_fits_iff :
    (cost wake now start : ℕ)
    → IsU64 wake
    → (deadline_cost_fits cost wake now start ≡ true)
      ↔ ((max now start < wake) × (cost ≤ (wake - max now start) * 85 / 100))
unfolding deadline_cost_fits percent_of
cost_fits_iff cost wake now start h = ground arith

-- For a wake in uint64_t: a shortfall of the reservation only means that the cost fits before the
-- plain wake, but not within 85 percent of what is left to the commit deadline.
reservation_shortfall :
    (cost commit_deadline plain_wake now start : ℕ)
    → IsU64 plain_wake
    → commit_reservation_only_shortfall cost commit_deadline plain_wake now start ≡ true
    → (max now start + cost ≤ plain_wake)
      × ((commit_deadline - max now start) * 85 / 100 < cost ⊎ (commit_deadline ≤ max now start))
unfolding commit_reservation_only_shortfall percent_of
reservation_shortfall cost commit_deadline plain_wake now start h e = ground arith

-- For a target and margin in uint64_t and an average in int64_t: the deadline, lead and margin of an
-- early commit add up to the target, the deadline is positive and earlier than it, lead and margin
-- fit the vblank or the margin alone does not, the lead is overridden or at most the habitual one,
-- and that has its warm-up samples.
early_commit_bounds :
    (target : ℕ) (habitual : PresentLeadState) (minimum : MinimumViablePresentLeadState)
    (margin vblank override : ℕ)
    → IsU64 target
    → IsU64 margin
    → IsI64 habitual.ema_ns
    → (plan_fixed_refresh_commit target habitual minimum margin vblank override).early_commit ≡ true
    → let p = plan_fixed_refresh_commit target habitual minimum margin vblank override in
      (p.commit_deadline_ns + p.present_lead_ns + margin ≡ target)
      × (1 ≤ p.commit_deadline_ns)
      × (p.commit_deadline_ns < target)
      × (p.present_lead_ns + margin ≤ max vblank margin)
      × ((p.overridden_lead ≡ true) ⊎ (p.present_lead_ns ≤ pos_part habitual.ema_ns))
      × (present_lead_warmup_samples ≤ habitual.samples)
unfolding plan_fixed_refresh_commit select_fixed_refresh_present_lead saturating_add_ns
early_commit_bounds target habitual minimum margin vblank override ht hm hi e =
    ground (arith, habitual_ns-eq habitual)

-- For a flip, lead and margin in uint64_t: a valid midpoint is the flip plus half the cadence, cut off
-- at the largest uint64_t, and its wake lies lead and margin before it, after now.
vrr_midpoint_bounds :
    (real_flip cadence lead margin now : ℕ)
    → IsU64 real_flip
    → IsU64 lead
    → IsU64 margin
    → (plan_vrr_midpoint real_flip cadence lead margin now).valid ≡ true
    → let p = plan_vrr_midpoint real_flip cadence lead margin now in
      (p.wake_deadline_ns + lead + margin ≡ p.target_flip_ns)
      × (p.target_flip_ns ≡ min u64_max (real_flip + cadence / 2))
      × (now < p.wake_deadline_ns)
unfolding plan_vrr_midpoint saturating_add_ns
vrr_midpoint_bounds real_flip cadence lead margin now h hl hm e = ground arith

-- With a now that is known, an arrival blocks exactly if the predictor is trained and the arrival is
-- after now and within the commit lead.
arrival_blocks_iff :
    (predicted now commit_lead : ℕ) (trained : Bool)
    → 1 ≤ now
    → (real_arrival_blocks_early_generated_commit predicted now commit_lead trained ≡ true)
      ↔ ((trained ≡ true) × (now < predicted) × (predicted ≤ now + commit_lead))
unfolding real_arrival_blocks_early_generated_commit
arrival_blocks_iff predicted now commit_lead trained h = ground arith
