-- ===== src/Vblank/Timer/Delivery.antt =====
-- From a vertical blank that is marked to the next that is delivered, on the timerfd path of
-- src/vblankmanager.cpp.
use gamescope.Common.{
  List, Option-cases, [], arith, false, inl, inr, map, none, refl, some, suc, true, ℕ, ◌*◌, ◌++◌,
  ◌+◌, ◌<◌, ◌>>=◌, ◌∙◌, ◌∷◌, ◌≡◌, ◌≤◌,
}
use gamescope.Vblank.Refresh.{mhz_to_refresh_cycle}
use gamescope.Vblank.Schedule.{
  DisplayInputs, DrawHistory, VblankScheduleTime, calc_next_wakeup_time, get_refresh, wakeup_offset,
}
use gamescope.Vblank.Schedule.Filter.{time_limit}
use gamescope.Vblank.Schedule.Wakeup.{next_wakeup-IsOnGrid}
use gamescope.Vblank.Timer.{
  TimerEvent, VblankTime, VblankTimer, arm, arm_next_vblank, mark_vblank, on_event, on_poll_in,
  poll, process_vblank, run_events, set_timer, timer_expired, vblank_seen,
}

run-append :
    (xs ys : List (DisplayInputs × TimerEvent)) (t : VblankTimer)
    → run_events (xs ++ ys) t ≡ (run_events xs t >>= run_events ys)
unfolding run_events
run-append [] ys t = refl
run-append ((inputs, event) ∷ xs) ys t = elim (Option-cases (on_event inputs event t)) [
  | inl stuck ↦ rw stuck refl
  | inr (u, e) ↦ rw e (run-append xs ys u)
]

-- Pre-emptive re-arms, with what each reads.
abbrev pub rearms : List DisplayInputs → List (DisplayInputs × TimerEvent)
rearms inputs = map (λ i. (i, arm true)) inputs

armed_stays :
    (inputs : List DisplayInputs) (t : VblankTimer)
    → t.armed ≡ true
    → run_events (rearms inputs) t ≡ some t
unfolding run_events on_event arm_next_vblank
armed_stays [] t h = refl
armed_stays (i ∷ inputs) t h = simp h (armed_stays inputs t h)

mark-set :
    (inputs : DisplayInputs) (nanos : ℕ) (t : VblankTimer)
    (wakeup : VblankScheduleTime × DrawHistory)
    → t.nudge_pipe ≡ false
    → calc_next_wakeup_time inputs false (record t.history { last_vblank = nanos }) ≡ some wakeup
    → mark_vblank inputs nanos true t
      ≡ some (set_timer wakeup (record t { history = record t.history { last_vblank = nanos } }))
unfolding mark_vblank arm_next_vblank
mark-set inputs nanos t wakeup timerfd e = simp (timerfd, e) refl

-- What a marked vertical blank, re-arms and a wake-up make of a timer.
abbrev pub marked_then_woken :
    DisplayInputs → ℕ → List DisplayInputs → DisplayInputs → List (DisplayInputs × TimerEvent)
marked_then_woken inputs nanos others later =
    (inputs, vblank_seen nanos true) ∷ (rearms others ++ (later, poll []) ∷ [])

polled :
    (later : DisplayInputs) (t : VblankTimer)
    → t.nudge_pipe ≡ false
    → run_events ((later, poll []) ∷ []) t ≡ some (timer_expired t)
unfolding run_events on_event on_poll_in
polled later t timerfd = simp timerfd refl

woken :
    (others : List DisplayInputs) (later : DisplayInputs) (t : VblankTimer)
    → t.armed ≡ true
    → t.nudge_pipe ≡ false
    → run_events (rearms others ++ (later, poll []) ∷ []) t ≡ some (timer_expired t)
woken others later t on timerfd =
    let stays = armed_stays others t on in
    run-append (rearms others) ((later, poll []) ∷ []) t ∙ rw stays (polled later t timerfd)

-- On the timerfd path, for a rate from 466 to 606,060 mHz, times from 2.7 ms to below 2^62 ns and draw
-- times below 2^53: after a vertical blank is marked with a re-arm, any pre-emptive re-arms and
-- one wake-up, the timer is disarmed and gives one time to process, once. Its target is a later
-- vertical blank on the grid of the marked one, and its wake-up is the scheduled one, which is not
-- before the time of the mark and not after the target.
pub marked_vblank_is_delivered :
    (inputs later : DisplayInputs) (nanos : ℕ) (others : List DisplayInputs) (t : VblankTimer)
    → t.nudge_pipe ≡ false
    → 466 ≤ get_refresh inputs
    → get_refresh inputs ≤ 606_060
    → inputs.now < 4611686018427387904
    → 2_700_000 ≤ nanos
    → nanos < 4611686018427387904
    → t.history.last_draw_time < time_limit
    → t.history.rolling_max_draw_time < time_limit
    → (interval : ℕ) × (k : ℕ) × (time : VblankTime) × (u : VblankTimer) × (run_events
          (marked_then_woken inputs nanos others later)
          t
        ≡ some u)
      × ((process_vblank u).0 ≡ some time)
      × ((process_vblank (process_vblank u).1).0 ≡ none)
      × (u.armed ≡ false)
      × (mhz_to_refresh_cycle (get_refresh inputs) ≡ some interval)
      × (time.schedule.target_vblank ≡ nanos + suc k * interval)
      × (time.wakeup_time ≡ time.schedule.scheduled_wakeup_point)
      × (inputs.now ≤ time.wakeup_time)
      × (time.wakeup_time ≤ time.schedule.target_vblank)
unfolding process_vblank run_events on_event timer_expired set_timer
marked_vblank_is_delivered inputs later nanos others t timerfd low high now early late hd hr =
    let (interval, k, schedule, (known, e, target, offset, reached, first)) =
      next_wakeup-IsOnGrid inputs false (record t.history { last_vblank = nanos }) low high now
        early late hd hr in
    let fresh : VblankTimer = record t { history = record t.history { last_vblank = nanos } } in
    let history : DrawHistory = record t.history {
      last_vblank = nanos;
      rolling_max_draw_time =
          (wakeup_offset inputs interval (record t.history { last_vblank = nanos })).1;
    } in
    let armed = set_timer (schedule, history) fresh in
    (
      interval,
      k,
      record { schedule = schedule; wakeup_time = schedule.scheduled_wakeup_point },
      timer_expired armed,
      rw (mark-set inputs nanos t (schedule, history) timerfd e)
          (woken others later armed refl timerfd),
      refl,
      refl,
      refl,
      known,
      target,
      refl,
      reached,
      omega arith,
    )
