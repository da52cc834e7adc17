-- ===== src/Framegen/Temporal.antt =====
-- src/framegen/temporal.hpp: intervals, phases and strengths of generated slots. Floating point is
-- the parameter `F` (Framegen/Floats); interval_gap_vblanks stands in Framegen/Gap.
use gamescope.Common.{
  Bool, arith, if◌then◌else◌, leb, ltb, mul_u64, not, true, ℕ, ◌&&◌, ◌*◌, ◌-◌, ◌<◌, ◌==◌, ◌↔◌, ◌≡◌,
  ◌≤◌,
}
use gamescope.Framegen.Floats.{Floats}

present_interval_ns : ℕ → ℕ → ℕ
present_interval_ns current previous = if ltb previous current then current - previous else 0

motion_intervals_comparable : ℕ → ℕ → Bool
motion_intervals_comparable current history =
    not (current == 0)
    && (not (history == 0) && (leb current (mul_u64 history 4) && leb history (mul_u64 current 4)))

-- For intervals below 2 ^ 62, two are comparable exactly if both are positive and each is at most four
-- times the other, and the order does not matter.
comparable_iff :
    (current history : ℕ)
    → current < 4611686018427387904
    → history < 4611686018427387904
    → ((motion_intervals_comparable current history ≡ true)
        ↔ ((1 ≤ current) × (1 ≤ history) × (current ≤ history * 4) × (history ≤ current * 4)))
      × (motion_intervals_comparable current history ≡ motion_intervals_comparable history current)
unfolding motion_intervals_comparable
comparable_iff current history hc hh = ground arith

module _ (F : Floats) where
  open F use {
    Double, Float, double_of, div_double, add_double, narrow, float_of, mul, div, less,
    neutral_strength,
  }

  motion_history_time_scale : ℕ → ℕ → Float
  motion_history_time_scale current history =
      narrow (div_double (double_of current) (double_of history))

  motion_acceleration_time_factor : ℕ → ℕ → Float
  motion_acceleration_time_factor current history =
      let c = double_of current in narrow (div_double c (add_double c (double_of history)))

  record SlotRequest : Type 0 where
    pub phase : Float
    pub strength : Float
    pub slot_index : ℕ
    pub target_flip_ns : ℕ
    pub wake_deadline_ns : ℕ

  unfoldable pub forward_strength_raw : Float → Float → Float
  forward_strength_raw phase configured = mul phase (div configured neutral_strength)

  clamp_forward_strength : Float → Float → Float
  clamp_forward_strength raw highest =
      if less raw (float_of 0) then float_of 0 else if less highest raw then highest else raw

  classic_slot_request : ℕ → ℕ → Float → Float → SlotRequest
  classic_slot_request slot_index gap configured highest =
      let phase = div (float_of slot_index) (float_of gap) in
      record {
        phase = phase;
        strength = clamp_forward_strength (forward_strength_raw phase configured) highest;
        slot_index = slot_index;
        target_flip_ns = 0;
        wake_deadline_ns = 0;
      }

  record TimedPrediction : Type 0 where
    pub phase : Float
    pub raw_strength : Float

  timed_prediction : ℕ → ℕ → Float → TimedPrediction
  timed_prediction target_delta frametime configured =
      let phase = narrow (div_double (double_of target_delta) (double_of frametime)) in
      record { phase = phase; raw_strength = forward_strength_raw phase configured }
