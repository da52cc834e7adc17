-- ===== src/Modegen/FixedRate.antt =====
-- The rate that a fixed mode has (src/modegen.cpp).
use gamescope.Common.{
  arith, false, if◌then◌else◌, ltb, quotient_unique, refl, some, to_u32, ℕ, ◌*◌, ◌+◌, ◌/◌, ◌<◌,
  ◌==◌, ◌≡◌, ◌≤◌,
}
use gamescope.Modegen.{DrmModeInfo, generate_fixed_mode}

-- For totals with a product above 999 and a rate for which the product of the three, with 999, is an int:
-- the mode is generated, its clock in kHz is the least that reaches the rate, its rate is the wanted one,
-- or 60 Hz for 0, and its totals are those of the base.
fixed_mode-HasRate :
    (base : DrmModeInfo) (vrefresh : ℕ)
    → let rate = if vrefresh == 0 then 60 else vrefresh in
      999 < base.htotal * base.vtotal
      → base.htotal * base.vtotal * rate + 999 < 2147483648
      → (mode : DrmModeInfo) × (generate_fixed_mode base vrefresh ≡ some mode)
        × (mode.vrefresh ≡ rate)
        × (mode.htotal ≡ base.htotal)
        × (mode.vtotal ≡ base.vtotal)
        × (base.htotal * base.vtotal * rate ≤ mode.clock * 1000)
        × (mode.clock * 1000 < base.htotal * base.vtotal * rate + 1000)
unfolding generate_fixed_mode
fixed_mode-HasRate base vrefresh large fits =
    let rate = if vrefresh == 0 then 60 else vrefresh in
    let dots = base.htotal * base.vtotal in
    let clock = (dots * rate + 999) / 1000 in
    let no_overflow : ltb 2147483647 (dots * rate + 999) ≡ false = ground arith in
    let some_dots : (dots == 0) ≡ false = ground arith in
    let turned : rate * dots ≡ dots * rate = grind arith in
    let found : to_u32 (1000 * clock) / dots ≡ rate =
      quotient_unique (to_u32 (1000 * clock)) dots rate (omega arith) (omega arith) in
    (
      record base { clock = clock; vrefresh = rate },
      rw (no_overflow, some_dots, found) refl,
      refl,
      refl,
      refl,
      omega arith,
      omega arith,
    )
