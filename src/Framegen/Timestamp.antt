-- ===== src/Framegen/Timestamp.antt =====
-- Signed and biased timestamps of src/framegen/deadline.hpp. Every sum is guarded by the code and
-- is exact here; Timestamp/Saturation shows what the guards amount to.
pub mod Saturation
use gamescope.Common.{if◌then◌else◌, leb, ltb, min, u32_max, u64_max, ℕ, ◌&&◌, ◌+◌, ◌-◌, ◌==◌}
use gamescope.Common.Int.{
  div_ℤ, i64_max, leb_ℤ, ltb_ℤ, neg_ℤ, negsuc, of_i64, pos, to_i64, ℤ, ◌+ℤ◌, ◌-ℤ◌,
}

abbrev pub i64_highest : ℤ
i64_highest = pos i64_max

abbrev pub i64_lowest : ℤ
i64_lowest = negsuc i64_max

pub signed_ns_magnitude : ℤ → ℕ
signed_ns_magnitude value =
    if leb_ℤ (pos 0) value then of_i64 value else of_i64 (neg_ℤ (value +ℤ pos 1)) + 1

pub signed_ns_delta : ℕ → ℕ → ℤ
signed_ns_delta actual target =
    if leb target actual
    then to_i64 (min (actual - target) i64_max)
    else neg_ℤ (to_i64 (min (target - actual) i64_max))

pub saturating_add_signed_ns : ℤ → ℤ → ℤ
saturating_add_signed_ns value delta =
    if ltb_ℤ (pos 0) delta && ltb_ℤ (i64_highest -ℤ delta) value
    then i64_highest
    else if ltb_ℤ delta (pos 0) && ltb_ℤ value (i64_lowest -ℤ delta)
    then i64_lowest
    else value +ℤ delta

-- The template over a state with the fields emaNs and samples: the new values of the two.
unfoldable pub update_present_timing_ema_residual : ℤ → ℕ → ℤ → ℤ × ℕ
unfolding saturating_add_signed_ns
update_present_timing_ema_residual ema samples residual = (
  if samples == 0 then residual else saturating_add_signed_ns ema (div_ℤ residual 8),
  if samples == u32_max then samples else samples + 1,
)

pub apply_present_bias_ns : ℕ → ℤ → ℕ
unfolding signed_ns_magnitude
apply_present_bias_ns raw bias =
    let negative = signed_ns_magnitude bias in
    if leb_ℤ (pos 0) bias
    then (if ltb (u64_max - raw) (of_i64 bias) then u64_max else raw + of_i64 bias)
    else if ltb raw negative
    then 0
    else raw - negative

unfoldable pub remove_present_bias_ns : ℕ → ℤ → ℕ
unfolding signed_ns_magnitude
remove_present_bias_ns biased bias =
    let negative = signed_ns_magnitude bias in
    if leb_ℤ (pos 0) bias
    then (if ltb biased (of_i64 bias) then 0 else biased - of_i64 bias)
    else if ltb (u64_max - biased) negative
    then u64_max
    else biased + negative
