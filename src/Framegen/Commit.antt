-- ===== src/Framegen/Commit.antt =====
-- When a generated frame is committed (src/framegen/deadline.hpp): whether its cost fits, the
-- commit deadline of a fixed refresh, who may commit early, and the midpoint of a VRR interval.
pub mod Plan
use gamescope.Common.{
  Bool, false, if◌then◌else◌, leb, ltb, max, min, not, true, ℕ, ◌&&◌, ◌-◌, ◌/◌, ◌==◌, ◌||◌,
}
use gamescope.Common.Int.{ltb_ℤ, to_i64}
use gamescope.Framegen.Cadence.{saturating_add_ns}
use gamescope.Framegen.Chain.{
  MinimumViablePresentLeadState, PresentLeadState, present_lead_warmup_samples,
}
use gamescope.Framegen.Ladder.{deadline_percent, percent_of}
use gamescope.Framegen.Lead.{deadline_feedback_sample, habitual_ns, minimum_viable_present_lead_ns}

abbrev minimum_viable_floor_ns : ℕ
minimum_viable_floor_ns = 500_000

pub deadline_cost_fits : ℕ → ℕ → ℕ → ℕ → Bool
deadline_cost_fits cost wake now start_estimate =
    let start = max now start_estimate in
    if leb wake start then false else leb cost (percent_of deadline_percent (wake - start))

pub commit_reservation_only_shortfall : ℕ → ℕ → ℕ → ℕ → ℕ → Bool
unfolding deadline_cost_fits
commit_reservation_only_shortfall cost commit_deadline plain_wake now start_estimate =
    ltb commit_deadline plain_wake
    && (not (deadline_cost_fits cost commit_deadline now start_estimate)
        && deadline_cost_fits cost plain_wake now start_estimate)

pub record FixedRefreshCommitPlan : Type 0 where
  pub commit_deadline_ns : ℕ
  pub present_lead_ns : ℕ
  pub advance_ns : ℕ
  pub early_commit : Bool
  pub learned_lead : Bool
  pub overridden_lead : Bool

abbrev no_commit_plan : FixedRefreshCommitPlan
no_commit_plan = record {
  commit_deadline_ns = 0;
  present_lead_ns = 0;
  advance_ns = 0;
  early_commit = false;
  learned_lead = false;
  overridden_lead = false;
}

pub record FixedRefreshPresentLead : Type 0 where
  pub lead_ns : ℕ
  pub ready : Bool
  pub learned : Bool
  pub overridden : Bool

pub select_fixed_refresh_present_lead :
    PresentLeadState → MinimumViablePresentLeadState → ℕ → ℕ → ℕ → ℕ → FixedRefreshPresentLead
select_fixed_refresh_present_lead habitual minimum margin vblank override floor =
    let latest_safe = if ltb margin vblank then vblank - margin else 0 in
    let average = habitual_ns habitual in
    let mature = leb present_lead_warmup_samples minimum.samples in
    let learned_ns = min (max (minimum_viable_present_lead_ns minimum) floor) average in
    if vblank == 0 || ltb habitual.samples present_lead_warmup_samples
    then record { lead_ns = 0; ready = false; learned = false; overridden = false }
    else if not (override == 0)
    then record {
      lead_ns = min override latest_safe;
      ready = true;
      learned = false;
      overridden = true;
    }
    else record {
      lead_ns = min (if mature then learned_ns else average) latest_safe;
      ready = true;
      learned = mature;
      overridden = false;
    }

minimum_viable_present_lead_needs_backoff : FixedRefreshPresentLead → ℕ → ℕ → ℕ → Bool
minimum_viable_present_lead_needs_backoff selected actual target vblank =
    let sample = deadline_feedback_sample actual target vblank in
    if not selected.learned || selected.overridden
    then false
    else sample.valid && ltb_ℤ (to_i64 (vblank / 2)) sample.signed_error_ns

pub plan_fixed_refresh_commit :
    ℕ → PresentLeadState → MinimumViablePresentLeadState → ℕ → ℕ → ℕ → FixedRefreshCommitPlan
plan_fixed_refresh_commit target habitual minimum margin vblank override =
    let selected =
      select_fixed_refresh_present_lead habitual minimum margin vblank override
        minimum_viable_floor_ns in
    let advance = saturating_add_ns selected.lead_ns margin in
    let early = not (advance == 0 || leb target advance) in
    if target == 0 || not selected.ready then no_commit_plan else record {
      commit_deadline_ns = if early then target - advance else 0;
      present_lead_ns = selected.lead_ns;
      advance_ns = advance;
      early_commit = early;
      learned_lead = selected.learned;
      overridden_lead = selected.overridden;
    }

-- The overload that knows the average alone.
plan_fixed_refresh_commit_average : ℕ → PresentLeadState → ℕ → ℕ → FixedRefreshCommitPlan
plan_fixed_refresh_commit_average target lead margin vblank =
    let lead_ns = min (habitual_ns lead) vblank in
    let advance = saturating_add_ns lead_ns margin in
    let early = not (advance == 0 || leb target advance) in
    if target == 0 || (vblank == 0 || ltb lead.samples present_lead_warmup_samples)
    then no_commit_plan
    else record no_commit_plan {
      commit_deadline_ns = if early then target - advance else 0;
      present_lead_ns = lead_ns;
      advance_ns = advance;
      early_commit = early;
    }

can_start_early_generated_commit : Bool → Bool → Bool → Bool
can_start_early_generated_commit reached real_pending in_flight =
    reached && (not real_pending && not in_flight)

pub real_arrival_blocks_early_generated_commit : ℕ → ℕ → ℕ → Bool → Bool
real_arrival_blocks_early_generated_commit predicted now commit_lead trained =
    if not trained || (predicted == 0 || (now == 0 || commit_lead == 0))
    then false
    else if leb predicted now
    then false
    else leb (predicted - now) commit_lead

-- A texture pointer is a number, and null is 0.
record RealFrameIdentity : Type 0 where
  pub commit_id : ℕ
  pub texture : ℕ

is_new_real_frame_content : RealFrameIdentity → RealFrameIdentity → Bool
is_new_real_frame_content last current =
    if current.texture == 0
    then false
    else if not (last.commit_id == 0) && not (current.commit_id == 0)
    then not (last.commit_id == current.commit_id)
    else not (last.texture == current.texture)

pub record VrrMidpointPlan : Type 0 where
  pub target_flip_ns : ℕ
  pub wake_deadline_ns : ℕ
  pub valid : Bool

pub plan_vrr_midpoint : ℕ → ℕ → ℕ → ℕ → ℕ → VrrMidpointPlan
plan_vrr_midpoint real_flip cadence lead margin now =
    let target = saturating_add_ns real_flip (cadence / 2) in
    let advance = saturating_add_ns lead margin in
    let wake_deadline = target - advance in
    if real_flip == 0 || cadence == 0
    then record { target_flip_ns = 0; wake_deadline_ns = 0; valid = false }
    else if leb target advance
    then record { target_flip_ns = target; wake_deadline_ns = 0; valid = false }
    else record {
      target_flip_ns = target;
      wake_deadline_ns = wake_deadline;
      valid = not (wake_deadline == 0) && ltb now wake_deadline;
    }
