-- ===== src/DoneCommits/Examples.antt =====
-- Two windows, of which one has two commits, on a 60 Hz display limited to 25 frames per second.
use gamescope.Common.{
  All, Bool, List, [], arith, false, none, refl, some, true, ℕ, ◌*◌, ◌++◌, ◌+◌, ◌/◌, ◌<◌, ◌∷◌, ◌≡◌,
  ◌≤◌, ◌⊎◌,
}
use gamescope.CommitFence.{CommitDoneEntry}
use gamescope.Common.Int.{pos}
use gamescope.DoneCommits.{
  DoneInputs, DoneWindow, QueuedCommit, Repaint, engine_after, find_commit, handle_done_commit,
  handle_in_windows, mark_done,
}
use gamescope.DoneCommits.Latch.{HasId, handle_done_commit-IsFound}
use gamescope.DoneCommits.Pass.{
  Screen, entry_vblank, handle_done_commits_xdg, handle_done_commits_xwayland, with_times,
}
use gamescope.DoneCommits.Pass.Fifo.{fifo_of, one_fifo_frame}
use gamescope.DoneCommits.Pass.Lost.{entries_after_early_are_lost}
use gamescope.DoneCommits.Pass.Settled.{due_commits_are_latched}
use gamescope.DoneCommits.Rate.{is_vrr, limited_rate, refresh_hz, should_vblank_window}
use gamescope.DoneCommits.Windows.{AreWindows, IsSettledIn}
use gamescope.Vblank.Refresh.{convert_mhz_to_hz}

abbrev inputs : DoneInputs
inputs = record {
  is_vrr_active = some false;
  pause_base_plane = false;
  focuses = [];
  next_refresh_time = 1_016_000_000;
  now = 1_000_000_000;
  vblank = true;
  vblank_idx = 4;
  nested_refresh = 0;
  output_refresh = 60_000;
  target_fps = 25;
  limited_app_refresh_cycle = 33_333_333;
}

abbrev pending : ℕ → QueuedCommit
pending id = record {
  commit_id = id;
  feedback_engine = none;
  done = false;
  earliest_present_time = 0;
  present_margin = 0;
}

abbrev game : DoneWindow
game = record {
  seq = 1;
  pid = pos 900;
  engine_name = 0;
  opacity = 4_294_967_295;
  has_target_vr_overlay = false;
  needs_forwarding = false;
  is_steam_streaming_client = false;
  is_steam_streaming_client_video = false;
  outdated_interactive_focus = false;
  received_done_commit = false;
  last_commit_first_latch_time = 0;
  commit_queue = pending 10 ∷ pending 11 ∷ [];
}

abbrev overlay : DoneWindow
overlay = record game { seq = 2; commit_queue = pending 12 ∷ [] }

abbrev idle : Repaint
idle = record {
  has_repaint = false;
  has_repaint_non_base_plane = false;
  update_forwarded_vr_overlays = false;
  held_base_commit = none;
  focus_window_engine = 0;
  focus_window_pid = pos 0;
  focus_serial = 0;
}

abbrev screen : Screen
screen = record { windows = game ∷ overlay ∷ []; repaint = idle; lowest_schedule = none }

abbrev done : ℕ → ℕ → ℕ → Bool → CommitDoneEntry
done seq id desired fifo = record {
  win_seq = seq;
  commit_id = id;
  desired_present_time = desired;
  earliest_present_time = 0;
  earliest_latch_time = 0;
  fifo = fifo;
}

screen-AreWindows : AreWindows screen.windows
screen-AreWindows = (
  (((omega arith, tt), (tt, tt)), ((tt, tt), tt)),
  ((((λ e. absurd (omega arith)), tt)), (tt, tt)),
)

due_commits_are_latched_example :
    IsSettledIn 2 12
      (handle_done_commits_xwayland inputs
        (done 1 11 2_000_000_000 false ∷ done 2 12 0 false ∷ done 1 10 0 true ∷ [])
        screen).1.windows
due_commits_are_latched_example =
    due_commits_are_latched inputs (done 1 11 2_000_000_000 false ∷ []) (done 2 12 0 false)
      (done 1 10 0 true ∷ []) screen screen-AreWindows refl (omega arith)

entries_after_early_are_lost_example :
    handle_done_commits_xdg inputs
      ([] ++ (done 1 11 2_000_000_000 false ∷ done 2 12 0 false ∷ []))
      screen
    ≡ handle_done_commits_xdg inputs ([] ++ (done 1 11 2_000_000_000 false ∷ [])) screen
entries_after_early_are_lost_example =
    entries_after_early_are_lost inputs [] (done 1 11 2_000_000_000 false) (done 2 12 0 false ∷ [])
      screen (refl, omega arith)

handle_done_commit-IsFound_example :
    let ((after, painted), latched) = handle_done_commit inputs 11 30 20 game idle in
    ((latched ≡ false)
      × (after.commit_queue ≡ game.commit_queue)
      × All (λ c. HasId 11 c → ⊥) game.commit_queue)
    ⊎ ((older : List QueuedCommit) × (c : QueuedCommit) × (rest : List QueuedCommit)
        × (game.commit_queue ≡ older ++ (c ∷ rest))
        × All (λ d. HasId 11 d → ⊥) older
        × HasId 11 c
        × (latched ≡ true)
        × (after.commit_queue ≡ mark_done 30 20 c ∷ rest))
handle_done_commit-IsFound_example = handle_done_commit-IsFound inputs 11 30 20 game idle

not_vrr : is_vrr inputs ≡ false
unfolding is_vrr
not_vrr = refl

sixty : refresh_hz inputs ≡ 60
unfolding refresh_hz convert_mhz_to_hz
sixty = refl

limited_rate_example :
    let divisor = refresh_hz inputs / 25 in
    (k : ℕ) × (k < divisor)
    × (should_vblank_window inputs true (7 + k) none 0 none ≡ (true, none))
    × ((j : ℕ)
        → j < divisor
        → (should_vblank_window inputs true (7 + j) none 0 none).0 ≡ true
        → j ≡ k)
    × (25 * divisor ≤ refresh_hz inputs)
    × (refresh_hz inputs < 2 * (25 * divisor))
limited_rate_example =
    limited_rate inputs 7 0 none none not_vrr (omega arith) (omega (arith, sixty))

sends_at_four : (entry_vblank inputs 1 screen).0 ≡ true
unfolding entry_vblank is_vrr should_vblank_window refresh_hz convert_mhz_to_hz
sends_at_four = refl

found_first :
    (handle_in_windows inputs (with_times inputs (done 1 10 0 true)) screen.windows idle).1 ≡ true
unfolding handle_in_windows handle_done_commit find_commit with_times engine_after mark_done
found_first = refl

one_fifo_frame_example :
    fifo_of 1
      (handle_done_commits_xwayland inputs (done 1 10 0 true ∷ done 1 11 0 true ∷ []) screen).0
    ≡ fifo_of 1 (done 1 11 0 true ∷ [])
one_fifo_frame_example =
    one_fifo_frame inputs (done 1 10 0 true) (done 1 11 0 true ∷ []) screen refl sends_at_four
      (omega arith) found_first
