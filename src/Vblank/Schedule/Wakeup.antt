-- ===== src/Vblank/Schedule/Wakeup.antt =====
-- The whole of CalcNextWakeupTime (src/vblankmanager.cpp): the schedule it returns.
use native.Mathlib.Decide.{dec_lt}
use gamescope.Common.{
  Bool, Bool-cases, add_u64, arith, if◌then◌else◌, inl, inr, refl, some, suc, ℕ, ◌*◌, ◌+◌, ◌/◌, ◌<◌,
  ◌≡◌, ◌≤◌, ◌⊎◌,
}
use gamescope.Vblank.Refresh.{mhz_to_refresh_cycle, mhz_to_refresh_cycle-rounds}
use gamescope.Vblank.Schedule.{
  DisplayInputs, DrawHistory, VblankScheduleTime, calc_next_wakeup_time, draw_buffer_red_zone,
  get_refresh, wakeup_offset,
}
use gamescope.Vblank.Schedule.Filter.{time_limit, vrr_offset_value, wakeup_offset_bounds}
use gamescope.Vblank.Schedule.Target.{first_point_bounded, next_vblank-IsFirstPoint}

-- The rates for which a refresh is at least the red zone.
refresh_is_long :
    (mhz cycle : ℕ)
    → mhz ≤ 606_060
    → 1_000_000_000_000 + mhz / 2 ≤ cycle * mhz + mhz
    → draw_buffer_red_zone ≤ cycle
refresh_is_long mhz cycle low e = elim (dec_lt cycle 1_650_000) [
  | yes short ↦
      let product : cycle * mhz + mhz ≤ 1_650_000 * mhz = grind arith in absurd (omega arith)
  | no long ↦ omega arith
]

-- The offset of a wake-up, in either mode, is bounded by the refresh or by 2.7 ms.
offset_fits :
    (inputs : DisplayInputs) (interval : ℕ) (history : DrawHistory)
    → 1 ≤ get_refresh inputs
    → get_refresh inputs < 100_000_000
    → draw_buffer_red_zone ≤ interval
    → interval < 4294967296
    → history.last_draw_time < time_limit
    → history.rolling_max_draw_time < time_limit
    → (wakeup_offset inputs interval history).0 ≤ 2_700_000 + interval
offset_fits inputs interval history positive small long short hd hr =
    elim (Bool-cases inputs.vrr_active) [
      | inl vrr ↦ rw (vrr_offset_value inputs interval history vrr) (ground arith)
      | inr fixed ↦
          let (low, high, split, less) =
            wakeup_offset_bounds inputs interval history fixed positive small long short hd hr in
          omega arith
    ]

-- For a rate from 466 to 606,060 mHz, a clock and a last vertical blank from 2.7 ms to below 2^62 ns,
-- and draw times below 2^53: CalcNextWakeupTime returns, with and without VRR. The target is a later
-- vertical blank on the grid of the last one, the wake-up is the offset before the target and not before
-- now, and no earlier vertical blank after the last one would do. A pre-emptive call changes no draw
-- time, another stores the new rolling draw time.
pub next_wakeup-IsOnGrid :
    (inputs : DisplayInputs) (preemptive : Bool) (history : DrawHistory)
    → 466 ≤ get_refresh inputs
    → get_refresh inputs ≤ 606_060
    → inputs.now < 4611686018427387904
    → 2_700_000 ≤ history.last_vblank
    → history.last_vblank < 4611686018427387904
    → history.last_draw_time < time_limit
    → history.rolling_max_draw_time < time_limit
    → (interval : ℕ) × (k : ℕ) × (schedule : VblankScheduleTime) × let (offset, rolling) =
          wakeup_offset inputs interval history in
        (mhz_to_refresh_cycle (get_refresh inputs) ≡ some interval)
        × (calc_next_wakeup_time inputs preemptive history
            ≡ some (
              schedule,
              if preemptive then history else record history { rolling_max_draw_time = rolling },
            ))
        × (schedule.target_vblank ≡ history.last_vblank + suc k * interval)
        × (schedule.target_vblank ≡ schedule.scheduled_wakeup_point + offset)
        × (inputs.now ≤ schedule.scheduled_wakeup_point)
        × ((k ≡ 0) ⊎ (schedule.scheduled_wakeup_point < inputs.now + interval))
unfolding calc_next_wakeup_time
next_wakeup-IsOnGrid inputs preemptive history low high now early late hd hr =
    let (interval, known, positive, word, under, over) =
      mhz_to_refresh_cycle-rounds (get_refresh inputs) (omega arith) (omega arith) in
    let long = refresh_is_long (get_refresh inputs) interval high over in
    let fits = offset_fits inputs interval history (omega arith) (omega arith) long word hd hr in
    let offset = (wakeup_offset inputs interval history).0 in
    let (k, point, e, (at, reached, first)) =
      next_vblank-IsFirstPoint inputs interval history.last_vblank offset known positive
        (omega arith) (omega arith) (omega arith) in
    let turn : suc k * interval ≡ interval + k * interval = grind arith in
    let bounded = first_point_bounded interval inputs.now _ k point (at, reached, first) in
    let target : add_u64 point offset ≡ point + offset = omega arith in
    (
      interval,
      k,
      record { target_vblank = point + offset; scheduled_wakeup_point = point },
      (known, rw (known, e, target) refl, omega arith, refl, reached, first),
    )
