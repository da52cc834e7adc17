-- ===== src/Vblank/Schedule/Filter.antt =====
-- The draw-time filter of CalcNextWakeupTime (src/vblankmanager.cpp) and the bounds of its offset.
use gamescope.Common.{
  Bool-cases, arith, false, if◌then◌else◌, inl, inr, ltb, max, min, refl, true, ℕ, ◌*◌, ◌+◌, ◌/◌,
  ◌<◌, ◌≡◌, ◌≤◌,
}
use gamescope.Common.Int.{to_i64, ◌-ℤ◌}
use gamescope.Vblank.Schedule.{
  DisplayInputs, DrawHistory, draw_buffer_red_zone, draw_time, draw_time_min_compositing,
  get_refresh, new_rolling_draw_time, red_zone, starting_draw_time, wakeup_offset,
}

-- Times of up to 2^53 nanoseconds, over a hundred days.
abbrev pub time_limit : ℕ
time_limit = 9007199254740992

rolling-value :
    (zone drawn rolling : ℕ)
    → zone < time_limit
    → drawn < time_limit
    → rolling < time_limit
    → new_rolling_draw_time zone drawn rolling
      ≡ (if ltb (rolling + zone / 2) drawn then drawn else (980 * rolling + 20 * drawn) / 1000)
unfolding new_rolling_draw_time to_i64 ◌-ℤ◌
rolling-value zone drawn rolling hz hd hr = ground arith

-- The new rolling draw time lies between the draw time and the old one, is the draw time when that
-- exceeds the old one by more than half the red zone, and else moves towards it by a fiftieth.
rolling_draw_time_filters :
    (zone drawn rolling : ℕ)
    → zone < time_limit
    → drawn < time_limit
    → rolling < time_limit
    → let new = new_rolling_draw_time zone drawn rolling in
      (min drawn rolling ≤ new)
      × (new ≤ max drawn rolling)
      × (rolling + zone / 2 < drawn → new ≡ drawn)
      × (drawn ≤ rolling + zone / 2 → new * 1000 ≤ 980 * rolling + 20 * drawn)
      × (drawn ≤ rolling + zone / 2 → 980 * rolling + 20 * drawn < new * 1000 + 1000)
rolling_draw_time_filters zone drawn rolling hz hd hr =
    let v = rolling-value zone drawn rolling hz hd hr in
    (ground arith, ground arith, λ h. ground arith, λ h. ground arith, λ h. ground arith)

-- The red zone of an external display is that of an internal one, whatever positive rate it has.
red_zone_unscaled :
    (inputs : DisplayInputs)
    → 1 ≤ get_refresh inputs
    → get_refresh inputs < 100_000_000
    → red_zone inputs ≡ draw_buffer_red_zone
unfolding red_zone
red_zone_unscaled inputs positive small = ground arith

-- With the compositing minimum.
abbrev pub drawn_of : DrawHistory → ℕ
drawn_of history =
    if history.currently_compositing
    then max history.last_draw_time draw_time_min_compositing
    else history.last_draw_time

drawn-value : (history : DrawHistory) → draw_time history history.last_draw_time ≡ drawn_of history
unfolding draw_time
drawn-value history = refl

-- Without VRR, for a refresh that is longer than the red zone and times below 2^53: the wake-up is
-- at least the red zone and at most a refresh before the vertical blank, it leaves the stored rolling
-- draw time next to the red zone, and that time is at most the longer of the draw time and the old one.
pub wakeup_offset_bounds :
    (inputs : DisplayInputs) (interval : ℕ) (history : DrawHistory)
    → inputs.vrr_active ≡ false
    → 1 ≤ get_refresh inputs
    → get_refresh inputs < 100_000_000
    → draw_buffer_red_zone ≤ interval
    → interval < 4294967296
    → history.last_draw_time < time_limit
    → history.rolling_max_draw_time < time_limit
    → let (offset, rolling) = wakeup_offset inputs interval history in
      (draw_buffer_red_zone ≤ offset)
      × (offset ≤ interval)
      × (offset ≡ rolling + draw_buffer_red_zone)
      × (rolling ≤ max (drawn_of history) history.rolling_max_draw_time)
unfolding wakeup_offset
wakeup_offset_bounds inputs interval history fixed positive small long short hd hr =
    let zone = red_zone_unscaled inputs positive small in
    let drawn = drawn-value history in
    let (low, high, spike, decay, near) =
      rolling_draw_time_filters draw_buffer_red_zone (drawn_of history)
        history.rolling_max_draw_time (omega arith) (ground arith) hr in
    rw (zone, drawn, fixed) (ground arith, ground arith, ground arith, ground arith)

-- In VRR mode the offset is the flushing time, with the compositing minimum where that applies.
pub vrr_offset_value :
    (inputs : DisplayInputs) (interval : ℕ) (history : DrawHistory)
    → inputs.vrr_active ≡ true
    → wakeup_offset inputs interval history
      ≡ ((if history.currently_compositing then 2_700_000 else 300_000), starting_draw_time)
unfolding wakeup_offset draw_time
vrr_offset_value inputs interval history vrr = elim (Bool-cases history.currently_compositing) [
  | inl on ↦ rw (vrr, on) refl
  | inr off ↦ rw (vrr, off) refl
]
