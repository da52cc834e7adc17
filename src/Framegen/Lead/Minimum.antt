-- ===== src/Framegen/Lead/Minimum.antt =====
-- The minimum viable present lead (src/framegen/deadline.hpp): its updates and its back-off.
use gamescope.Common.{Bool, IsU64, arith, max, ℕ, ◌+◌, ◌-◌, ◌/◌, ◌<◌, ◌≡◌, ◌≤◌, ◌⊎◌}
use gamescope.Common.Int.{IsI64, max_ℤ, of_i64, pos_part}
use gamescope.Framegen.Chain.{MinimumViablePresentLeadState, PresentLeadState}
use gamescope.Framegen.Lead.{
  back_off_minimum_viable_present_lead, habitual_ns, minimum_viable_present_lead_ns,
  present_lead_sample, update_minimum_viable_present_lead,
}

-- The floor is in use only above the low-water mark.
abbrev pub IsFloored : MinimumViablePresentLeadState → Type 0
IsFloored s = (s.backoff_floor_ns ≡ 0) ⊎ (s.low_water_ns < s.backoff_floor_ns)

-- For a vblank in uint64_t that exceeds the low-water mark, an update keeps the floor at 0 or above the
-- mark and the mark below the vblank, raises a trained mark by at most a 64th of the vblank (or 1),
-- never raises the floor, and unless it changes nothing, ends with a mark of at most the lead seen.
minimum_lead_update :
    (s : MinimumViablePresentLeadState) (habitual : PresentLeadState) (submit flip vblank : ℕ)
    (hitch : Bool)
    → IsFloored s
    → IsU64 vblank
    → s.low_water_ns < vblank
    → let t = update_minimum_viable_present_lead s habitual submit flip vblank hitch in
      let relax = max 1 (vblank / 64) in
      IsFloored t
      × (t.low_water_ns < vblank)
      × ((s.samples ≡ 0) ⊎ (t.low_water_ns ≤ s.low_water_ns + relax))
      × (t.backoff_floor_ns ≤ s.backoff_floor_ns)
      × ((t ≡ s) ⊎ (t.low_water_ns ≤ flip - submit))
unfolding update_minimum_viable_present_lead present_lead_sample
minimum_lead_update s habitual submit flip vblank hitch f b h = ground arith

-- For a vblank in uint64_t and an average in int64_t, backing off keeps the floor at 0 or above the
-- mark, never lowers the minimum lead, raises it by at most an eighth of the vblank (or 1) and not
-- past the habitual lead, and leaves the mark alone.
back_off_bounds :
    (s : MinimumViablePresentLeadState) (habitual : PresentLeadState) (vblank : ℕ)
    → IsFloored s
    → IsU64 vblank
    → IsI64 habitual.ema_ns
    → let t = back_off_minimum_viable_present_lead s habitual vblank in
      let before = minimum_viable_present_lead_ns s in
      let later = minimum_viable_present_lead_ns t in
      IsFloored t
      × (before ≤ later)
      × (later ≤ before + max 1 (vblank / 8))
      × (later ≤ max before (pos_part habitual.ema_ns))
      × (t.low_water_ns ≡ s.low_water_ns)
unfolding back_off_minimum_viable_present_lead max_ℤ of_i64
back_off_bounds s habitual vblank f b i = ground arith

pub habitual_ns-eq :
    (lead : PresentLeadState) → IsI64 lead.ema_ns → habitual_ns lead ≡ pos_part lead.ema_ns
unfolding habitual_ns max_ℤ of_i64
habitual_ns-eq lead h = ground arith
