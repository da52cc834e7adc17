-- ===== src/Modegen.antt =====
-- A mode at a fixed rate: generate_fixed_mode of src/modegen.cpp. The generator of CVT modes computes in
-- floating point and is not modelled.
pub mod FixedRate
use gamescope.Common.{Option, if◌then◌else◌, ltb, none, some, to_u32, ℕ, ◌*◌, ◌+◌, ◌/◌, ◌==◌, ◌||◌}

-- The fields of drmModeModeInfo that it reads or writes. The totals are uint16_t, clock and vrefresh
-- uint32_t; the name is left out.
pub record DrmModeInfo : Type 0 where
  pub clock : ℕ
  pub hdisplay : ℕ
  pub htotal : ℕ
  pub vdisplay : ℕ
  pub vtotal : ℕ
  pub vrefresh : ℕ

-- The product of the totals and the rate is an int: none stands for its overflow and for a division by 0.
pub generate_fixed_mode : DrmModeInfo → ℕ → Option DrmModeInfo
generate_fixed_mode base vrefresh =
    let rate = if vrefresh == 0 then 60 else vrefresh in
    let dots = base.htotal * base.vtotal * rate in
    let clock = (dots + 999) / 1000 in
    if ltb 2147483647 (dots + 999) || base.htotal * base.vtotal == 0
    then none
    else some (record base {
      clock = clock;
      vrefresh = to_u32 (1000 * clock) / (base.htotal * base.vtotal);
    })
