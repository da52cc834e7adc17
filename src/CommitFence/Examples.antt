-- ===== src/CommitFence/Examples.antt =====
-- A commit that is ready without a fence, whose first fence is replaced, and whose second one signals.
use gamescope.Common.{List, [], false, length, none, refl, some, true, ◌∷◌, ◌≡◌}
use gamescope.CommitFence.{
  CommitEvent, Signalled, close_fence, close_open, destroy_commit, fence_set, hang_up, known_ready,
  new_commit, on_commit_event, on_poll_hang_up, on_poll_in, poll_in, run_commit_events, set_fence,
  signal, signal_closed,
}

abbrev replaced : List CommitEvent
replaced =
    poll_in 9_000
    ∷ hang_up
    ∷ poll_in 8_000
    ∷ fence_set (some 12) true
    ∷ fence_set (some 11) false
    ∷ known_ready none false 7_000
    ∷ []

abbrev waiting : Signalled
waiting = record { commit = new_commit 7 1 0 true false; last_frame_time = none }

-- The commit is reported twice although both fences were closed: once as known to be ready.
replaced_run : length (destroy_commit (run_commit_events replaced waiting)).commit.commits_done ≡ 2
unfolding run_commit_events on_commit_event on_poll_in on_poll_hang_up set_fence close_fence
    close_open signal_closed signal destroy_commit
replaced_run = refl
