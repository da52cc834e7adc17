-- ===== src/Pipewire/Examples.antt =====
-- One buffer that is added, and given to the compositor.
use gamescope.Common.{false, refl, some, true, ◌≡◌}
use gamescope.Pipewire.{
  PipewireState, add_buffer, no_buffers, on_pipewire_event, paint, put, state_changed,
  stream_handle_add_buffer,
}
use gamescope.Pipewire.Safety.{IsReachable, Succeeds, reachable_never_fails, start, step_to}

abbrev added : PipewireState
added = stream_handle_add_buffer 7 true no_buffers

abbrev streaming_on : PipewireState
streaming_on = record added { streaming = true }

added-IsReachable : IsReachable added
unfolding on_pipewire_event no_buffers
added-IsReachable = step_to (add_buffer 7 true) start ((refl, refl), refl)

streaming-IsReachable : IsReachable streaming_on
unfolding on_pipewire_event
streaming-IsReachable = step_to (state_changed true) added-IsReachable (tt, refl)

can_give : streaming_on.queued 7 ≡ true
unfolding stream_handle_add_buffer
can_give = refl

abbrev holding_one : PipewireState
holding_one = record streaming_on {
  heap = put 7 (some (record { has_pw_buffer = true; copying = true })) streaming_on.heap;
  queued = put 7 false streaming_on.queued;
  held = some 7;
}

reachable_never_fails_example : Succeeds (on_pipewire_event (paint (some 7) true) streaming_on)
reachable_never_fails_example =
    reachable_never_fails streaming_on (paint (some 7) true) streaming-IsReachable can_give
