-- ===== src/Framegen/Gap.antt =====
-- Gaps between real frames in vblanks, the generated slots of a gap, and the leaky cadence score:
-- the rest of the first half of src/framegen/scheduling.hpp, and interval_gap_vblanks of
-- src/framegen/temporal.hpp. Sums and products that the code leaves unguarded wrap.
pub mod Slots
use gamescope.Common.{
  Bool, add_u32, add_u64, if◌then◌else◌, leb, ltb, max, min, mul_u64, not, sub_u64, to_u32, ℕ, ◌&&◌,
  ◌-◌, ◌/◌, ◌==◌,
}
use gamescope.Framegen.Shed.{generated}

abbrev pub cadence_confidence_required : ℕ
cadence_confidence_required = 4

abbrev cadence_confidence_gain : ℕ
cadence_confidence_gain = 2

abbrev cadence_confidence_leak : ℕ
cadence_confidence_leak = 1

abbrev jit_keep_up_percent : ℕ
jit_keep_up_percent = 110

abbrev vrr_hybrid_keep_up_percent : ℕ
vrr_hybrid_keep_up_percent = 220

leaves_empty_vblank : ℕ → ℕ → ℕ → Bool
leaves_empty_vblank current previous vblank =
    not (previous == 0) && leb (mul_u64 vblank 3 / 2) (sub_u64 current previous)

pub update_cadence_confidence : ℕ → Bool → ℕ
update_cadence_confidence confidence generatable =
    if generatable
    then min cadence_confidence_required (add_u32 confidence cadence_confidence_gain)
    else if ltb cadence_confidence_leak confidence
    then confidence - cadence_confidence_leak
    else 0

pub reactive_generation_ready : Bool → ℕ → Bool
reactive_generation_ready generatable confidence =
    generatable && leb cadence_confidence_required confidence

-- Division by a zero interval is a precondition of the code.
pub measured_gap_vblanks : ℕ → ℕ → ℕ
measured_gap_vblanks interval vblank = max 1 (to_u32 (add_u64 interval (vblank / 2) / vblank))

pub interval_gap_vblanks : ℕ → ℕ → ℕ
interval_gap_vblanks frametime vblank = max 2 (to_u32 (add_u64 frametime (vblank / 2) / vblank))

expanded_gap_vblanks : ℕ → ℕ → Bool → ℕ
expanded_gap_vblanks measured multiplier expand =
    if expand then max measured (max 2 multiplier) else measured

-- `multiplier >= 2` is a precondition of the code.
pub generated_slots_for_gap : ℕ → ℕ → Bool → ℕ
generated_slots_for_gap gap multiplier dedicated =
    let ceiling = max 1 (multiplier - 1) in
    let generated = if ltb 1 gap then min (gap - 1) ceiling else 0 in
    if dedicated then generated else min generated 1

pub ladder_generated_count : ℕ → ℕ → Bool → Bool → ℕ
ladder_generated_count slots multiplier single_slot dedicated =
    let generated = min slots (max 1 (multiplier - 1)) in
    if single_slot then 1 else if dedicated then generated else min generated 1

keep_up_interval_eligible : ℕ → ℕ → ℕ → Bool
keep_up_interval_eligible cadence vblank percent =
    leb (mul_u64 vblank percent) (mul_u64 cadence 100)

jit_interval_eligible : ℕ → ℕ → Bool
jit_interval_eligible cadence vblank = keep_up_interval_eligible cadence vblank jit_keep_up_percent

vrr_hybrid_interval_eligible : ℕ → ℕ → Bool
vrr_hybrid_interval_eligible cadence vblank =
    keep_up_interval_eligible cadence vblank vrr_hybrid_keep_up_percent
