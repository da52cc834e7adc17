-- ===== src/Vblank/Timer/Lifecycle.antt =====
-- What holds of CVBlankTimer on the timerfd path (src/vblankmanager.cpp) after any operations.
use gamescope.Common.{
  Bool, Bool-cases, IfSome, IfSome->>=, List, Option, [], false, if◌then◌else◌, inl, inr, none,
  refl, some, true, ℕ, ◌&&◌, ◌>>=◌, ◌∷◌, ◌≡◌,
}
use gamescope.Vblank.Schedule.{
  DisplayInputs, DrawHistory, VblankScheduleTime, calc_next_wakeup_time,
}
use gamescope.Vblank.Timer.{
  TimerEvent, VblankTime, VblankTimer, arm, arm_next_vblank, compositing, drew, mark_vblank,
  new_vblank_timer, on_event, on_poll_in, poll, process, process_vblank, run_events, set_timer,
  timer_expired, vblank_seen,
}

-- The timer of a schedule that waits: the deadline is set exactly while the timer is armed.
abbrev pub deadline_of : VblankTimer → ℕ
deadline_of t = if t.armed then t.timer_schedule.scheduled_wakeup_point else 0

-- A time that was delivered says that it woke when it was to.
abbrev pub IsOnTime : Option VblankTime → Type 0
IsOnTime none = Unit
IsOnTime (some time) = time.wakeup_time ≡ time.schedule.scheduled_wakeup_point

pub record IsAlarm (t : VblankTimer) : Type 0 where
  pub uses_timer : t.nudge_pipe ≡ false
  pub deadline : t.timer ≡ deadline_of t
  pub on_time : IsOnTime t.pending_vblank

new-IsAlarm : (pipe_made : Bool) (now : ℕ) → IfSome IsAlarm (new_vblank_timer false pipe_made now)
unfolding new_vblank_timer
new-IsAlarm pipe_made now = record { uses_timer = refl; deadline = refl; on_time = tt }

module _ (inputs : DisplayInputs) where
  set-IsAlarm :
      (t : VblankTimer) (wakeup : Option (VblankScheduleTime × DrawHistory))
      → IsAlarm t
      → IfSome IsAlarm (wakeup >>= λ p. some (set_timer p t))
  unfolding set_timer
  set-IsAlarm t none inv = tt
  set-IsAlarm t (some p) inv = record {
    uses_timer = inv.uses_timer;
    deadline = refl;
    on_time = inv.on_time;
  }

  arm-IsAlarm :
      (preemptive : Bool) (t : VblankTimer)
      → IsAlarm t
      → IfSome IsAlarm (arm_next_vblank inputs preemptive t)
  unfolding arm_next_vblank
  arm-IsAlarm preemptive t inv = elim (Bool-cases (preemptive && t.armed)) [
    | inl busy ↦ simp busy inv
    | inr free ↦
        simp (free, inv.uses_timer)
          (set-IsAlarm t (calc_next_wakeup_time inputs preemptive t.history) inv)
  ]

  expired-IsAlarm : (t : VblankTimer) → IsAlarm t → IsAlarm (timer_expired t)
  unfolding timer_expired
  expired-IsAlarm t inv = elim (Bool-cases t.armed) [
    | inl on ↦ simp on (record { uses_timer = inv.uses_timer; deadline = refl; on_time = refl })
    | inr off ↦ simp off inv
  ]

  event-IsAlarm :
      (event : TimerEvent) (t : VblankTimer) → IsAlarm t → IfSome IsAlarm (on_event inputs event t)
  unfolding on_event mark_vblank on_poll_in process_vblank
  event-IsAlarm (arm preemptive) t inv = arm-IsAlarm preemptive t inv
  event-IsAlarm (vblank_seen nanos true) t inv =
      arm-IsAlarm false (record t { history = record t.history { last_vblank = nanos } })
        (record { uses_timer = inv.uses_timer; deadline = inv.deadline; on_time = inv.on_time })
  event-IsAlarm (vblank_seen nanos false) t inv = record {
    uses_timer = inv.uses_timer;
    deadline = inv.deadline;
    on_time = inv.on_time;
  }
  event-IsAlarm (poll reads) t inv = simp inv.uses_timer (expired-IsAlarm t inv)
  event-IsAlarm process t inv = record {
    uses_timer = inv.uses_timer;
    deadline = inv.deadline;
    on_time = tt;
  }
  event-IsAlarm (compositing b) t inv = record {
    uses_timer = inv.uses_timer;
    deadline = inv.deadline;
    on_time = inv.on_time;
  }
  event-IsAlarm (drew nanos) t inv = record {
    uses_timer = inv.uses_timer;
    deadline = inv.deadline;
    on_time = inv.on_time;
  }

run-IsAlarm :
    (events : List (DisplayInputs × TimerEvent)) (t : VblankTimer)
    → IsAlarm t
    → IfSome IsAlarm (run_events events t)
unfolding run_events
run-IsAlarm [] t inv = inv
run-IsAlarm ((inputs, event) ∷ events) t inv =
    IfSome->>= IsAlarm (on_event inputs event t) (run_events events)
      (event-IsAlarm inputs event t inv) (run-IsAlarm events)

-- However the timer of a backend without frame sync is used after its construction: its deadline is
-- the wake-up point of its schedule while it is armed and not set while it is not, and a time that
-- waits to be processed woke at the point of its schedule.
pub reachable-IsAlarm :
    (events : List (DisplayInputs × TimerEvent)) (now : ℕ) (pipe_made : Bool) (t : VblankTimer)
    → (new_vblank_timer false pipe_made now >>= run_events events) ≡ some t
    → IsAlarm t
reachable-IsAlarm events now pipe_made t h =
    let fresh = new_vblank_timer false pipe_made now in
    let holds : IfSome IsAlarm (fresh >>= run_events events) =
      IfSome->>= IsAlarm fresh (run_events events) (new-IsAlarm pipe_made now)
        (run-IsAlarm events) in
    rw h at holds
