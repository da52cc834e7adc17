-- ===== src/Framegen/Anchor.antt =====
-- The real-frame anchor and the presentation bias that its flip feedback trains
-- (src/framegen/deadline.hpp). A std::optional is an Option.
pub mod Feedback
use gamescope.Common.{
  Bool, Option, false, if◌then◌else◌, leb, ltb, none, not, some, true, u32_max, u64_max, ℕ, ◌&&◌,
  ◌*◌, ◌+◌, ◌-◌, ◌/◌, ◌==◌, ◌||◌,
}
use gamescope.Common.Int.{pos, ℤ}
use gamescope.Framegen.Timestamp.{
  remove_present_bias_ns, signed_ns_delta, signed_ns_magnitude, update_present_timing_ema_residual,
}

abbrev present_bias_warmup_samples : ℕ
present_bias_warmup_samples = 4

abbrev present_bias_outlier_vblank_intervals : ℕ
present_bias_outlier_vblank_intervals = 1

pub record RealAnchorState : Type 0 where
  pub real_frame_id : ℕ
  pub source_ready_ns : ℕ
  pub provisional_target_ns : ℕ
  pub provisional_bias_ns : ℤ
  pub corrected_flip_ns : Option ℕ
  pub epoch : ℕ

pub record PresentBiasState : Type 0 where
  pub ema_ns : ℤ
  pub samples : ℕ
  pub consecutive_guard_exceeds : ℕ

abbrev pub untrained_bias : PresentBiasState
untrained_bias = record { ema_ns = pos 0; samples = 0; consecutive_guard_exceeds = 0 }

abbrev value_or {ℓ} : {A : Type ℓ} → Option A → A → A
value_or none d = d
value_or (some a) d = a

unfoldable pub has_value {ℓ} : {A : Type ℓ} → Option A → Bool
has_value none = false
has_value (some a) = true

unfoldable pub display_time : RealAnchorState → ℕ
display_time anchor = value_or anchor.corrected_flip_ns anchor.provisional_target_ns

provisional_start_estimate : RealAnchorState → ℕ
provisional_start_estimate anchor =
    remove_present_bias_ns anchor.provisional_target_ns anchor.provisional_bias_ns

pub present_bias_outlier_bound_ns : ℤ → ℕ → ℕ
present_bias_outlier_bound_ns ema vblank =
    let magnitude = signed_ns_magnitude ema in
    let margin =
      if ltb (u64_max / present_bias_outlier_vblank_intervals) vblank
      then u64_max
      else vblank * present_bias_outlier_vblank_intervals in
    if ltb (u64_max - magnitude) margin then u64_max else magnitude + margin

pub record PresentBiasUpdate : Type 0 where
  pub state : PresentBiasState
  pub residual_ns : ℤ
  pub discard_provisional : Bool

-- The count of feedbacks outside the guard, once the bias is mature.
pub guard_exceeds : PresentBiasState → ℕ → ℕ → ℕ
guard_exceeds state magnitude guard =
    if leb present_bias_warmup_samples state.samples && ltb guard magnitude
    then (if state.consecutive_guard_exceeds == u32_max
        then u32_max
        else state.consecutive_guard_exceeds + 1)
    else 0

-- Whether a mature bias takes no part of the sample.
pub discards_sample : PresentBiasState → ℕ → ℕ → Bool → Bool
discards_sample state magnitude vblank hitch =
    leb present_bias_warmup_samples state.samples
    && (hitch
        || (not (vblank == 0) && leb (present_bias_outlier_bound_ns state.ema_ns vblank) magnitude))

pub update_present_bias : PresentBiasState → ℕ → ℕ → ℕ → ℕ → Bool → PresentBiasUpdate
unfolding guard_exceeds
update_present_bias state target actual guard vblank hitch =
    let residual = signed_ns_delta actual target in
    let magnitude = signed_ns_magnitude residual in
    let mature = leb present_bias_warmup_samples state.samples in
    let exceeds = guard_exceeds state magnitude guard in
    let (ema, samples) = update_present_timing_ema_residual state.ema_ns state.samples residual in
    let discard = discards_sample state magnitude vblank hitch in
    if target == 0 || actual == 0
    then record { state = state; residual_ns = pos 0; discard_provisional = false }
    else record {
      state = record {
        ema_ns = if discard then state.ema_ns else ema;
        samples = if discard then state.samples else samples;
        consecutive_guard_exceeds = exceeds;
      };
      residual_ns = residual;
      discard_provisional = mature && (ltb guard magnitude && leb 2 exceeds);
    }

pub record AnchorCorrection : Type 0 where
  pub anchor : RealAnchorState
  pub present_bias : PresentBiasState
  pub residual_ns : ℤ
  pub matched : Bool
  pub discard_provisional : Bool

pub apply_flip_feedback :
    RealAnchorState → PresentBiasState → ℕ → ℕ → ℕ → ℕ → Bool → AnchorCorrection
unfolding has_value
apply_flip_feedback anchor bias frame_id actual guard vblank hitch =
    let update = update_present_bias bias anchor.provisional_target_ns actual guard vblank hitch in
    let corrected = has_value anchor.corrected_flip_ns in
    if frame_id == 0 || (not (frame_id == anchor.real_frame_id) || actual == 0)
    then record {
      anchor = anchor;
      present_bias = bias;
      residual_ns = pos 0;
      matched = false;
      discard_provisional = false;
    }
    else record {
      anchor = record anchor { corrected_flip_ns = some actual };
      present_bias = if corrected then bias else update.state;
      residual_ns = if corrected then pos 0 else update.residual_ns;
      matched = true;
      discard_provisional = if corrected then false else update.discard_provisional;
    }

discard_pending_provisional_slot : AnchorCorrection → ℕ → Bool → Bool
discard_pending_provisional_slot correction frame_id provisional =
    correction.matched
    && (correction.discard_provisional
        && (provisional && frame_id == correction.anchor.real_frame_id))
