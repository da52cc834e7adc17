-- ===== src/Vblank/Timer.antt =====
-- CVBlankTimer of src/vblankmanager.cpp and src/vblankmanager.hpp: the state, its operations under
-- the schedule mutex, and runs of them. A step that returns none does not return: it traps on a
-- division by 0, aborts, or reads for ever. Logging and tracing are left out.
pub mod Lifecycle
pub mod Delivery
pub mod Nudge
use gamescope.Common.{
  Bool, List, Option, [], add_u64, false, if◌then◌else◌, ltb, none, not, some, sub_u64, true, ℕ,
  ◌&&◌, ◌>>=◌, ◌||◌, ◌∷◌,
}
use gamescope.Vblank.Refresh.{mhz_to_refresh_cycle}
use gamescope.Vblank.Schedule.{
  DisplayInputs, DrawHistory, VblankScheduleTime, calc_next_wakeup_time, get_refresh,
  starting_draw_time,
}

pub record VblankTime : Type 0 where
  pub schedule : VblankScheduleTime
  pub wakeup_time : ℕ

-- `timer` is the deadline of the timerfd, 0 when it is disarmed; `nudge_pipe` says that the pipe is
-- open, which is when the timerfd is not used.
pub record VblankTimer : Type 0 where
  pub history : DrawHistory
  pub armed : Bool
  pub running : Bool
  pub pending_vblank : Option VblankTime
  pub timer_schedule : VblankScheduleTime
  pub timer : ℕ
  pub nudge_pipe : Bool

abbrev no_schedule : VblankScheduleTime
no_schedule = record { target_vblank = 0; scheduled_wakeup_point = 0 }

-- The constructor, for a backend that needs frame sync or not, and the outcome of pipe2.
unfoldable pub new_vblank_timer : Bool → Bool → ℕ → Option VblankTimer
new_vblank_timer needs_frame_sync pipe_made now =
    let t : VblankTimer = record {
      history = record {
        last_vblank = now;
        currently_compositing = false;
        last_draw_time = starting_draw_time;
        rolling_max_draw_time = starting_draw_time;
      };
      armed = false;
      running = true;
      pending_vblank = none;
      timer_schedule = no_schedule;
      timer = 0;
      nudge_pipe = needs_frame_sync;
    } in
    if needs_frame_sync && not pipe_made then none else some t

-- The destructor.
unfoldable destroy_vblank_timer : VblankTimer → VblankTimer
destroy_vblank_timer t = record t { running = false; armed = true; nudge_pipe = false }

-- m_TimerFDSchedule and the timerfd, for a new schedule.
unfoldable pub set_timer : VblankScheduleTime × DrawHistory → VblankTimer → VblankTimer
set_timer (schedule, history) t = record t {
  history = history;
  armed = true;
  timer_schedule = schedule;
  timer = schedule.scheduled_wakeup_point;
}

unfoldable pub arm_next_vblank : DisplayInputs → Bool → VblankTimer → Option VblankTimer
arm_next_vblank inputs preemptive t =
    if preemptive && t.armed
    then some t
    else if t.nudge_pipe
    then some (record t { armed = true })
    else (do wakeup ← calc_next_wakeup_time inputs preemptive t.history; some (set_timer wakeup t))

pub process_vblank : VblankTimer → Option VblankTime × VblankTimer
process_vblank t = (t.pending_vblank, record t { pending_vblank = none })

pub mark_vblank : DisplayInputs → ℕ → Bool → VblankTimer → Option VblankTimer
mark_vblank inputs nanos rearm t =
    let marked = record t { history = record t.history { last_vblank = nanos } } in
    if rearm then arm_next_vblank inputs false marked else some marked

update_was_compositing : Bool → VblankTimer → VblankTimer
update_was_compositing compositing t = record t {
  history = record t.history { currently_compositing = compositing };
}

update_last_draw_time : ℕ → VblankTimer → VblankTimer
update_last_draw_time nanos t = record t { history = record t.history { last_draw_time = nanos } }

-- What one read of the nudge pipe gives: EAGAIN, another error, too few bytes, or a time.
pub data ReadResult : Type 0 where
  would_block : ReadResult
  read_failed : ReadResult
  short_read : ReadResult
  received : VblankTime → ReadResult

-- OnPollIn without the timerfd, for the results of the reads in order.
pub read_nudges : DisplayInputs → List ReadResult → VblankTimer → Option VblankTimer
read_nudges inputs [] t = none
read_nudges inputs (would_block ∷ reads) t = read_nudges inputs reads t
read_nudges inputs (read_failed ∷ reads) t = arm_next_vblank inputs true t
read_nudges inputs (short_read ∷ reads) t = arm_next_vblank inputs true t
read_nudges inputs (received time ∷ reads) t =
    if ltb 1_000_000 (sub_u64 inputs.now time.wakeup_time)
    then arm_next_vblank inputs true t
    else some (record t { pending_vblank = some time })

unfoldable pub timer_expired : VblankTimer → VblankTimer
timer_expired t =
    if t.armed
    then record t {
      armed = false;
      pending_vblank = some (record {
        schedule = t.timer_schedule;
        wakeup_time = t.timer_schedule.scheduled_wakeup_point;
      });
      timer = 0;
    }
    else t

unfoldable pub on_poll_in : DisplayInputs → List ReadResult → VblankTimer → Option VblankTimer
on_poll_in inputs reads t =
    if t.nudge_pipe then read_nudges inputs reads t else some (timer_expired t)

-- One turn of NudgeThread: the schedule of FrameSync where a connector is there, the time after it,
-- and whether the write succeeds. It waits unarmed, and returns when the timer does not run; else it
-- gives what it sent.
pub nudge_thread_turn :
    DisplayInputs
    → Option VblankScheduleTime
    → ℕ
    → Bool
    → VblankTimer
    → Option (Option VblankTime × VblankTimer)
nudge_thread_turn inputs frame_sync wakeup written t =
    if not t.armed || not t.running then some (none, t) else (do
      schedule ← elim frame_sync [
        | some s ↦ some s
        | none ↦ do
          slept ← mhz_to_refresh_cycle (get_refresh inputs)
          some (record {
            target_vblank = add_u64 inputs.now 3_000_000;
            scheduled_wakeup_point = inputs.now;
          })
      ]
      some (
        if written then some (record { schedule = schedule; wakeup_time = wakeup }) else none,
        record t { armed = false },
      ))

-- The operations that other threads and the event loop call, in any order.
pub data TimerEvent : Type 0 where
  arm : Bool → TimerEvent
  vblank_seen : ℕ → Bool → TimerEvent
  poll : List ReadResult → TimerEvent
  process : TimerEvent
  compositing : Bool → TimerEvent
  drew : ℕ → TimerEvent

unfoldable pub on_event : DisplayInputs → TimerEvent → VblankTimer → Option VblankTimer
unfolding update_was_compositing update_last_draw_time
on_event inputs (arm preemptive) t = arm_next_vblank inputs preemptive t
on_event inputs (vblank_seen nanos rearm) t = mark_vblank inputs nanos rearm t
on_event inputs (poll reads) t = on_poll_in inputs reads t
on_event inputs process t = some (process_vblank t).1
on_event inputs (compositing b) t = some (update_was_compositing b t)
on_event inputs (drew nanos) t = some (update_last_draw_time nanos t)

unfoldable pub run_events : List (DisplayInputs × TimerEvent) → VblankTimer → Option VblankTimer
run_events [] t = some t
run_events ((inputs, event) ∷ events) t = do next ← on_event inputs event t; run_events events next
