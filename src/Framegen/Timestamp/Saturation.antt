-- ===== src/Framegen/Timestamp/Saturation.antt =====
-- The guarded timestamp arithmetic of src/framegen/deadline.hpp against exact arithmetic.
use gamescope.Common.{IsU64, arith, min, u64_max, ℕ, ◌+◌, ◌-◌, ◌≡◌, ◌≤◌}
use gamescope.Common.Int.{
  IsI64, clamp_ℤ, i64_max, neg_part, neg_ℤ, of_i64, pos_part, to_i64, ℤ, ◌+ℤ◌, ◌-ℤ◌,
}
use gamescope.Framegen.Timestamp.{
  apply_present_bias_ns, i64_highest, i64_lowest, remove_present_bias_ns, saturating_add_signed_ns,
  signed_ns_delta, signed_ns_magnitude,
}

pub magnitude-parts : (v : ℤ) → IsI64 v → signed_ns_magnitude v ≡ pos_part v + neg_part v
unfolding signed_ns_magnitude of_i64 neg_ℤ ◌+ℤ◌
magnitude-parts v h = ground arith

-- A difference of two timestamps keeps its sign, and its size up to the largest int64_t.
pub delta-parts :
    (actual target : ℕ)
    → (pos_part (signed_ns_delta actual target) ≡ min (actual - target) i64_max)
      × (neg_part (signed_ns_delta actual target) ≡ min (target - actual) i64_max)
unfolding signed_ns_delta to_i64 neg_ℤ
delta-parts actual target = ground arith

-- For operands in int64_t, the guarded signed sum is the exact sum, cut off at the ends of int64_t.
saturating_add-clamp :
    (v d : ℤ)
    → IsI64 v
    → IsI64 d
    → saturating_add_signed_ns v d ≡ clamp_ℤ (v +ℤ d) i64_lowest i64_highest
unfolding saturating_add_signed_ns clamp_ℤ ◌+ℤ◌ ◌-ℤ◌
saturating_add-clamp v d hv hd = ground arith

-- Where the raw time is in uint64_t, the bias in int64_t, and the sum neither falls below 0 nor leaves
-- uint64_t, applying the bias adds it exactly, and removing it again gives the raw time.
bias_round_trip :
    (raw : ℕ) (bias : ℤ)
    → IsU64 raw
    → IsI64 bias
    → neg_part bias ≤ raw
    → raw + pos_part bias ≤ u64_max
    → (apply_present_bias_ns raw bias + neg_part bias ≡ raw + pos_part bias)
      × (remove_present_bias_ns (apply_present_bias_ns raw bias) bias ≡ raw)
unfolding apply_present_bias_ns remove_present_bias_ns of_i64 neg_ℤ ◌+ℤ◌
bias_round_trip raw bias hr hb low high = ground arith

-- Applying and removing a bias stays in uint64_t and keeps the order of two times.
bias_bounds :
    (raw later : ℕ) (bias : ℤ)
    → IsU64 raw
    → IsU64 later
    → IsI64 bias
    → raw ≤ later
    → (apply_present_bias_ns raw bias ≤ u64_max)
      × (apply_present_bias_ns raw bias ≤ apply_present_bias_ns later bias)
      × (remove_present_bias_ns raw bias ≤ u64_max)
      × (remove_present_bias_ns raw bias ≤ remove_present_bias_ns later bias)
unfolding apply_present_bias_ns remove_present_bias_ns of_i64 neg_ℤ ◌+ℤ◌
bias_bounds raw later bias hr hl hb le = ground arith
