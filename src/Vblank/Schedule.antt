-- ===== src/Vblank/Schedule.antt =====
-- When the vertical-blank timer is to wake: CalcNextWakeupTime and GetNextVBlank of
-- src/vblankmanager.cpp. uint64_t arithmetic wraps; none stands for a division by 0 and for a loop
-- that does not end. The debug output is left out.
pub mod Target
pub mod Filter
pub mod Wakeup
use gamescope.Common.{
  Bool, Option, add_u64, if◌then◌else◌, ltb, max, min, mul_u64, none, some, sub_u64, suc, zero, ℕ,
  ◌+◌, ◌/◌, ◌==◌, ◌>>=◌,
}
use gamescope.Common.Int.{ltb_ℤ, to_i64, ◌-ℤ◌}
use gamescope.Vblank.Refresh.{mhz_to_refresh_cycle}

-- What the timer reads from outside: the type of the screen, the nested and the output refresh in
-- millihertz, whether the connector is in VRR mode, and get_time_in_nanos().
pub record DisplayInputs : Type 0 where
  pub internal : Bool
  pub nested_refresh : ℕ
  pub output_refresh : ℕ
  pub vrr_active : Bool
  pub now : ℕ

pub record VblankScheduleTime : Type 0 where
  pub target_vblank : ℕ
  pub scheduled_wakeup_point : ℕ

-- The members that the feedback of steamcompmgr and of the timer itself changes.
pub record DrawHistory : Type 0 where
  pub last_vblank : ℕ
  pub currently_compositing : Bool
  pub last_draw_time : ℕ
  pub rolling_max_draw_time : ℕ

-- The red zone, the least draw time and the rate of decay are members that nothing assigns.
abbrev pub starting_draw_time : ℕ
starting_draw_time = 3_000_000

abbrev pub draw_buffer_red_zone : ℕ
draw_buffer_red_zone = 1_650_000

abbrev pub draw_time_min_compositing : ℕ
draw_time_min_compositing = 2_400_000

abbrev rate_of_decay : ℕ
rate_of_decay = 980

abbrev rate_of_decay_max : ℕ
rate_of_decay_max = 1_000

abbrev vrr_flushing_time : ℕ
vrr_flushing_time = 300_000

unfoldable pub get_refresh : DisplayInputs → ℕ
get_refresh inputs =
    if inputs.nested_refresh == 0 then inputs.output_refresh else inputs.nested_refresh

-- The loop of GetNextVBlank on fuel.
unfoldable pub advance_to_now : ℕ → ℕ → ℕ → ℕ → Option ℕ
advance_to_now zero interval now point = none
advance_to_now (suc fuel) interval now point =
    let rest = advance_to_now fuel interval now (add_u64 point interval) in
    if ltb point now then rest else some point

-- As many turns as fit before now, and one more to leave the loop.
unfoldable pub get_next_vblank : DisplayInputs → ℕ → ℕ → Option ℕ
get_next_vblank inputs last_vblank offset = do
  interval ← mhz_to_refresh_cycle (get_refresh inputs)
  advance_to_now (inputs.now / interval + 2) interval inputs.now
      (sub_u64 (add_u64 last_vblank interval) offset)

unfoldable pub red_zone : DisplayInputs → ℕ
red_zone inputs =
    if inputs.internal
    then draw_buffer_red_zone
    else min draw_buffer_red_zone
        (mul_u64 (mul_u64 draw_buffer_red_zone 60_000) (get_refresh inputs) / 60_000)

-- ulDrawTime, from the time it starts from.
unfoldable pub draw_time : DrawHistory → ℕ → ℕ
draw_time history start =
    if history.currently_compositing then max start draw_time_min_compositing else start

unfoldable pub new_rolling_draw_time : ℕ → ℕ → ℕ → ℕ
new_rolling_draw_time zone drawn rolling =
    if ltb_ℤ (to_i64 rolling) (to_i64 drawn -ℤ to_i64 (zone / 2))
    then drawn
    else add_u64 (mul_u64 rate_of_decay rolling)
        (mul_u64 (sub_u64 rate_of_decay_max rate_of_decay) drawn)
      / rate_of_decay_max

-- The offset of the wake-up before the vertical blank, and the rolling draw time.
unfoldable pub wakeup_offset : DisplayInputs → ℕ → DrawHistory → ℕ × ℕ
wakeup_offset inputs interval history =
    let zone = red_zone inputs in
    let drawn = draw_time history history.last_draw_time in
    let clamped =
      min (new_rolling_draw_time zone drawn history.rolling_max_draw_time)
        (sub_u64 interval zone) in
    if inputs.vrr_active
    then (add_u64 (draw_time history 0) vrr_flushing_time, starting_draw_time)
    else (add_u64 clamped zone, clamped)

unfoldable pub calc_next_wakeup_time :
    DisplayInputs → Bool → DrawHistory → Option (VblankScheduleTime × DrawHistory)
calc_next_wakeup_time inputs preemptive history = do
  interval ← mhz_to_refresh_cycle (get_refresh inputs)
  let (offset, rolling) = wakeup_offset inputs interval history
  wakeup ← get_next_vblank inputs history.last_vblank offset
  some (
    record { target_vblank = add_u64 wakeup offset; scheduled_wakeup_point = wakeup },
    if preemptive then history else record history { rolling_max_draw_time = rolling },
  )
