-- ===== src/Vblank/Examples.antt =====
-- A 60 Hz display whose last vertical blank was a second after the start of the clock.
use gamescope.Common.{
  List, [], arith, false, if◌then◌else◌, max, none, refl, replicate, some, suc, true, ℕ, ◌*◌, ◌++◌,
  ◌+◌, ◌<◌, ◌>>=◌, ◌∷◌, ◌≡◌, ◌≤◌, ◌⊎◌,
}
use gamescope.Common.Int.{to_i64, ◌-ℤ◌}
use gamescope.Vblank.Refresh.{mhz_to_refresh_cycle, refresh_cycle_round_trip, refresh_cycle_to_mhz}
use gamescope.Vblank.Schedule.{
  DisplayInputs, DrawHistory, VblankScheduleTime, advance_to_now, calc_next_wakeup_time,
  draw_buffer_red_zone, draw_time, get_next_vblank, get_refresh, new_rolling_draw_time, red_zone,
  wakeup_offset,
}
use gamescope.Vblank.Schedule.Filter.{drawn_of, wakeup_offset_bounds}
use gamescope.Vblank.Schedule.Wakeup.{next_wakeup-IsOnGrid}
use gamescope.Vblank.Timer.{
  TimerEvent, VblankTime, VblankTimer, arm, arm_next_vblank, compositing, new_vblank_timer,
  on_event, on_poll_in, poll, process_vblank, run_events, set_timer, short_read, timer_expired,
  would_block,
}
use gamescope.Vblank.Timer.Delivery.{marked_then_woken, marked_vblank_is_delivered}
use gamescope.Vblank.Timer.Lifecycle.{IsAlarm, reachable-IsAlarm}
use gamescope.Vblank.Timer.Nudge.{turn_and_read, unusable_read_recovers}

abbrev at_60_hz : DisplayInputs
at_60_hz = record {
  internal = false;
  nested_refresh = 0;
  output_refresh = 60_000;
  vrr_active = false;
  now = 1_030_000_000;
}

abbrev a_little_later : DisplayInputs
a_little_later = record at_60_hz { now = 1_030_500_000 }

abbrev second : ℕ
second = 1_000_000_000

abbrev drawing : DrawHistory
drawing = record {
  last_vblank = second;
  currently_compositing = true;
  last_draw_time = 2_000_000;
  rolling_max_draw_time = 3_000_000;
}

abbrev idle : VblankTimer
idle = record {
  history = drawing;
  armed = false;
  running = true;
  pending_vblank = none;
  timer_schedule = record { target_vblank = 0; scheduled_wakeup_point = 0 };
  timer = 0;
  nudge_pipe = false;
}

abbrev nudged : VblankTimer
nudged = record idle { nudge_pipe = true }

abbrev synced : VblankScheduleTime
synced = record { target_vblank = 1_035_000_000; scheduled_wakeup_point = 1_030_000_000 }

refresh_is_60 : get_refresh at_60_hz ≡ 60_000
unfolding get_refresh
refresh_is_60 = refl

cycle_60 : mhz_to_refresh_cycle 60_000 ≡ some 16_666_667
unfolding mhz_to_refresh_cycle refresh_cycle_to_mhz
cycle_60 = refl

-- The wake-up that the code computes: 4.638 ms before the third vertical blank.
wakeup_60 :
    calc_next_wakeup_time at_60_hz false drawing
    ≡ some (
      record { target_vblank = 1_050_000_001; scheduled_wakeup_point = 1_045_362_001 },
      record drawing { rolling_max_draw_time = 2_988_000 },
    )
unfolding calc_next_wakeup_time wakeup_offset get_next_vblank advance_to_now red_zone draw_time
    new_rolling_draw_time to_i64 ◌-ℤ◌ get_refresh mhz_to_refresh_cycle refresh_cycle_to_mhz
wakeup_60 = refl

low_rate : 466 ≤ get_refresh at_60_hz
low_rate = rw refresh_is_60 (omega arith)

high_rate : get_refresh at_60_hz ≤ 606_060
high_rate = rw refresh_is_60 (omega arith)

marked_vblank_is_delivered_example :
    (interval : ℕ) × (k : ℕ) × (time : VblankTime) × (u : VblankTimer) × (run_events
        (marked_then_woken at_60_hz second (a_little_later ∷ []) a_little_later)
        idle
      ≡ some u)
    × ((process_vblank u).0 ≡ some time)
    × ((process_vblank (process_vblank u).1).0 ≡ none)
    × (u.armed ≡ false)
    × (mhz_to_refresh_cycle (get_refresh at_60_hz) ≡ some interval)
    × (time.schedule.target_vblank ≡ second + suc k * interval)
    × (time.wakeup_time ≡ time.schedule.scheduled_wakeup_point)
    × (at_60_hz.now ≤ time.wakeup_time)
    × (time.wakeup_time ≤ time.schedule.target_vblank)
marked_vblank_is_delivered_example =
    marked_vblank_is_delivered at_60_hz a_little_later second (a_little_later ∷ []) idle refl
      low_rate high_rate (omega arith) (omega arith) (omega arith) (omega arith) (omega arith)

next_wakeup-IsOnGrid_example :
    (interval : ℕ) × (k : ℕ) × (schedule : VblankScheduleTime) × let (offset, rolling) =
        wakeup_offset at_60_hz interval drawing in
      (mhz_to_refresh_cycle (get_refresh at_60_hz) ≡ some interval)
      × (calc_next_wakeup_time at_60_hz false drawing
          ≡ some (
            schedule,
            if false then drawing else record drawing { rolling_max_draw_time = rolling },
          ))
      × (schedule.target_vblank ≡ drawing.last_vblank + suc k * interval)
      × (schedule.target_vblank ≡ schedule.scheduled_wakeup_point + offset)
      × (at_60_hz.now ≤ schedule.scheduled_wakeup_point)
      × ((k ≡ 0) ⊎ (schedule.scheduled_wakeup_point < at_60_hz.now + interval))
next_wakeup-IsOnGrid_example =
    next_wakeup-IsOnGrid at_60_hz false drawing low_rate high_rate (omega arith) (omega arith)
      (omega arith) (omega arith) (omega arith)

wakeup_offset_bounds_example :
    let (offset, rolling) = wakeup_offset at_60_hz 16_666_667 drawing in
    (draw_buffer_red_zone ≤ offset)
    × (offset ≤ 16_666_667)
    × (offset ≡ rolling + draw_buffer_red_zone)
    × (rolling ≤ max (drawn_of drawing) drawing.rolling_max_draw_time)
wakeup_offset_bounds_example =
    wakeup_offset_bounds at_60_hz 16_666_667 drawing refl (rw refresh_is_60 (omega arith))
      (rw refresh_is_60 (omega arith)) (omega arith) (omega arith) (omega arith) (omega arith)

abbrev some_events : List (DisplayInputs × TimerEvent)
some_events = (at_60_hz, arm true) ∷ (at_60_hz, compositing true) ∷ (a_little_later, poll []) ∷ []

abbrev after_events : VblankTimer
after_events = record {
  history = record {
    last_vblank = second;
    currently_compositing = true;
    last_draw_time = 3_000_000;
    rolling_max_draw_time = 3_000_000;
  };
  armed = false;
  running = true;
  pending_vblank = some (record {
    schedule = record { target_vblank = 1_050_000_001; scheduled_wakeup_point = 1_045_350_001 };
    wakeup_time = 1_045_350_001;
  });
  timer_schedule = record { target_vblank = 1_050_000_001; scheduled_wakeup_point = 1_045_350_001 };
  timer = 0;
  nudge_pipe = false;
}

events_run : (new_vblank_timer false true second >>= run_events some_events) ≡ some after_events
unfolding new_vblank_timer run_events on_event arm_next_vblank set_timer on_poll_in timer_expired
    calc_next_wakeup_time wakeup_offset get_next_vblank advance_to_now red_zone draw_time
    new_rolling_draw_time to_i64 ◌-ℤ◌ get_refresh mhz_to_refresh_cycle refresh_cycle_to_mhz
events_run = refl

reachable-IsAlarm_example : IsAlarm after_events
reachable-IsAlarm_example = reachable-IsAlarm some_events second true after_events events_run

unusable_read_recovers_example :
    (on_poll_in at_60_hz (replicate 2 would_block ++ short_read ∷ []) nudged
      >>= turn_and_read at_60_hz (some synced) 1_030_400_000 a_little_later)
    ≡ some (record nudged {
      armed = false;
      pending_vblank = some (record { schedule = synced; wakeup_time = 1_030_400_000 });
    })
unusable_read_recovers_example =
    unusable_read_recovers at_60_hz 2 short_read [] nudged synced 1_030_400_000 a_little_later refl
      refl tt (omega arith) (omega arith) (omega arith)

refresh_cycle_round_trip_example :
    (cycle : ℕ) × (mhz_to_refresh_cycle 59_940 ≡ some cycle)
    × (refresh_cycle_to_mhz cycle ≡ some 59_940)
refresh_cycle_round_trip_example = refresh_cycle_round_trip 59_940 (omega arith) (omega arith)
