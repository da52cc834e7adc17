-- ===== src/Framegen/Lead.antt =====
-- The commit-to-flip lead learners of src/framegen/deadline.hpp: feedback samples, the habitual
-- lead, and the minimum viable lead of native KMS. A sum or difference that the code guards is
-- exact; the residual of the habitual lead is bounded in Lead/Habitual.
pub mod Habitual
pub mod Minimum
use gamescope.Common.{
  Bool, false, if◌then◌else◌, leb, ltb, max, min, not, true, u32_max, u64_max, ℕ, ◌&&◌, ◌+◌, ◌-◌,
  ◌/◌, ◌==◌, ◌||◌,
}
use gamescope.Common.Int.{i64_max, max_ℤ, of_i64, pos, to_i64, ℤ, ◌-ℤ◌}
use gamescope.Framegen.Anchor.{present_bias_outlier_bound_ns}
use gamescope.Framegen.Chain.{
  MinimumViablePresentLeadState, PresentLeadState, present_lead_warmup_samples,
}
use gamescope.Framegen.Timestamp.{
  signed_ns_delta, signed_ns_magnitude, update_present_timing_ema_residual,
}

abbrev minimum_viable_relax_divisor : ℕ
minimum_viable_relax_divisor = 64

abbrev minimum_viable_backoff_divisor : ℕ
minimum_viable_backoff_divisor = 8

pub record DeadlineFeedbackSample : Type 0 where
  pub signed_error_ns : ℤ
  pub absolute_error_ns : ℕ
  pub hit : Bool
  pub valid : Bool

pub deadline_feedback_sample : ℕ → ℕ → ℕ → DeadlineFeedbackSample
deadline_feedback_sample actual target vblank =
    let error = signed_ns_delta actual target in
    if actual == 0 || (target == 0 || vblank == 0)
    then record { signed_error_ns = pos 0; absolute_error_ns = 0; hit = false; valid = false }
    else record {
      signed_error_ns = error;
      absolute_error_ns = signed_ns_magnitude error;
      hit = leb (signed_ns_magnitude error) (vblank / 2);
      valid = true;
    }

pub record PresentLeadSample : Type 0 where
  pub lead_ns : ℕ
  pub valid : Bool

pub present_lead_sample : PresentLeadState → ℕ → ℕ → ℕ → Bool → PresentLeadSample
present_lead_sample state submit flip vblank hitch =
    let lead = flip - submit in
    let mature = leb present_lead_warmup_samples state.samples in
    if submit == 0 || (leb flip submit || (vblank == 0 || hitch))
    then record { lead_ns = 0; valid = false }
    else record {
      lead_ns = lead;
      valid =
          if mature
          then ltb lead (present_bias_outlier_bound_ns state.ema_ns vblank)
          else leb lead vblank;
    }

-- The overload without a guard.
pub update_present_lead : PresentLeadState → ℕ → ℕ → PresentLeadState
update_present_lead state submit flip =
    let residual = signed_ns_delta flip submit -ℤ state.ema_ns in
    let (ema, samples) = update_present_timing_ema_residual state.ema_ns state.samples residual in
    if submit == 0 || leb flip submit then state else record { ema_ns = ema; samples = samples }

-- The overload of native KMS.
update_present_lead_guarded : PresentLeadState → ℕ → ℕ → ℕ → Bool → PresentLeadState
unfolding update_present_lead
update_present_lead_guarded state submit flip vblank hitch =
    if (present_lead_sample state submit flip vblank hitch).valid
    then update_present_lead state submit flip
    else state

pub minimum_viable_present_lead_ns : MinimumViablePresentLeadState → ℕ
minimum_viable_present_lead_ns state = max state.low_water_ns state.backoff_floor_ns

-- The new low-water mark, and what is left of the floor above it.
relaxed_low_water : MinimumViablePresentLeadState → ℕ → ℕ → ℕ
relaxed_low_water state lead relax =
    if state.samples == 0
    then lead
    else min lead
        (if ltb (u64_max - relax) state.low_water_ns then u64_max else state.low_water_ns + relax)

relaxed_floor : ℕ → ℕ → ℕ → ℕ
relaxed_floor low_water floor relax =
    let relaxed = if ltb relax floor then floor - relax else 0 in
    if floor == 0 then 0 else if ltb low_water relaxed then relaxed else 0

pub update_minimum_viable_present_lead :
    MinimumViablePresentLeadState
    → PresentLeadState
    → ℕ
    → ℕ
    → ℕ
    → Bool
    → MinimumViablePresentLeadState
unfolding relaxed_low_water relaxed_floor
update_minimum_viable_present_lead state habitual submit flip vblank hitch =
    let sample = present_lead_sample habitual submit flip vblank hitch in
    let relax = max 1 (vblank / minimum_viable_relax_divisor) in
    let low_water = relaxed_low_water state sample.lead_ns relax in
    if not sample.valid || leb vblank sample.lead_ns then state else record {
      low_water_ns = low_water;
      backoff_floor_ns = relaxed_floor low_water state.backoff_floor_ns relax;
      samples = if state.samples == u32_max then u32_max else state.samples + 1;
    }

-- static_cast<uint64_t>( std::max<int64_t>( 0, emaNs ) )
pub habitual_ns : PresentLeadState → ℕ
habitual_ns lead = of_i64 (max_ℤ (pos 0) lead.ema_ns)

pub back_off_minimum_viable_present_lead :
    MinimumViablePresentLeadState → PresentLeadState → ℕ → MinimumViablePresentLeadState
unfolding minimum_viable_present_lead_ns habitual_ns
back_off_minimum_viable_present_lead state habitual vblank =
    let highest = habitual_ns habitual in
    let current = minimum_viable_present_lead_ns state in
    let step = max 1 (vblank / minimum_viable_backoff_divisor) in
    let backed_off =
      if ltb (highest - current) step then highest else min highest (current + step) in
    if ltb state.samples present_lead_warmup_samples
      || (ltb habitual.samples present_lead_warmup_samples || vblank == 0)
    then state
    else if leb highest current
    then state
    else record state {
      backoff_floor_ns = if ltb state.low_water_ns backed_off then backed_off else 0;
    }

pub apply_present_lead_override : PresentLeadState → ℕ → PresentLeadState
apply_present_lead_override lead override =
    if not (override == 0) && leb present_lead_warmup_samples lead.samples
    then record lead { ema_ns = to_i64 (min override i64_max) }
    else lead
