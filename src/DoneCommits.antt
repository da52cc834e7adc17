-- ===== src/DoneCommits.antt =====
-- The commits whose fences have signalled: handle_done_commit, handle_done_commits_xwayland,
-- handle_done_commits_xdg and steamcompmgr_should_vblank_window of src/steamcompmgr.cpp. A window is told
-- apart by its seq; names of engines are numbers.
pub mod Latch
pub mod Pass
pub mod Rate
pub mod Windows
mod Examples
use gamescope.Common.{
  Bool, List, Option, [], add_u64, false, if◌then◌else◌, none, not, some, sub_u64, true, ℕ, ◌&&◌,
  ◌==◌, ◌||◌, ◌∷◌,
}
use gamescope.CommitFence.{CommitDoneEntry}
use gamescope.Common.Int.{ℤ}

-- A commit_t in the queue of its window, with the engine name of its feedback.
pub record QueuedCommit : Type 0 where
  pub commit_id : ℕ
  pub feedback_engine : Option ℕ
  pub done : Bool
  pub earliest_present_time : ℕ
  pub present_margin : ℕ

pub record DoneWindow : Type 0 where
  pub seq : ℕ
  pub pid : ℤ
  pub engine_name : ℕ
  pub opacity : ℕ
  pub has_target_vr_overlay : Bool
  pub needs_forwarding : Bool
  pub is_steam_streaming_client : Bool
  pub is_steam_streaming_client_video : Bool
  pub outdated_interactive_focus : Bool
  pub received_done_commit : Bool
  pub last_commit_first_latch_time : ℕ
  pub commit_queue : List QueuedCommit

-- A global_focus_t: the seqs of its windows, and isSteamStreamingClient of its focus window, false
-- without one.
pub record GlobalFocus : Type 0 where
  pub focus_window : Option ℕ
  pub focus_is_streaming_client : Bool
  pub override_window : Option ℕ
  pub overlay_window : Option ℕ
  pub external_overlay_window : Option ℕ
  pub notification_window : Option ℕ

-- What a new commit makes the compositor do.
pub record Repaint : Type 0 where
  pub has_repaint : Bool
  pub has_repaint_non_base_plane : Bool
  pub update_forwarded_vr_overlays : Bool
  pub held_base_commit : Option QueuedCommit
  pub focus_window_engine : ℕ
  pub focus_window_pid : ℤ
  pub focus_serial : ℕ

-- `is_vrr_active` is none without a current connector.
pub record DoneInputs : Type 0 where
  pub is_vrr_active : Option Bool
  pub pause_base_plane : Bool
  pub focuses : List GlobalFocus
  pub next_refresh_time : ℕ
  pub now : ℕ
  pub vblank : Bool
  pub vblank_idx : ℕ
  pub nested_refresh : ℕ
  pub output_refresh : ℕ
  pub target_fps : ℕ
  pub limited_app_refresh_cycle : ℕ

is_window : Option ℕ → DoneWindow → Bool
is_window none w = false
is_window (some seq) w = w.seq == seq

-- The engine name after a commit that the search passes.
pub engine_after : QueuedCommit → ℕ → ℕ
engine_after c engine = elim c.feedback_engine [ none ↦ engine | some name ↦ name ]

pub mark_done : ℕ → ℕ → QueuedCommit → QueuedCommit
mark_done present latch c = record c {
  done = true;
  earliest_present_time = present;
  present_margin = sub_u64 present latch;
}

-- The search in a queue: the engine name it leaves, and the commit, done, with those after it.
pub find_commit : ℕ → ℕ → ℕ → ℕ → List QueuedCommit → ℕ × Option (QueuedCommit × List QueuedCommit)
find_commit id present latch engine [] = (engine, none)
find_commit id present latch engine (c ∷ cs) =
    let rest = find_commit id present latch (engine_after c engine) cs in
    if c.commit_id == id
    then (engine_after c engine, some (mark_done present latch c, cs))
    else rest

-- A connector without VRR.
is_fixed_rate : DoneInputs → Bool
is_fixed_rate i = elim i.is_vrr_active [ none ↦ false | some active ↦ not active ]

-- The repaints for one focus, as the tests of the loop over g_VirtualConnectorFocuses.
repaint_overlays : DoneInputs → DoneWindow → GlobalFocus → Repaint → Repaint
repaint_overlays i w f r =
    let visible = not (w.opacity == 0) in
    record r {
      has_repaint_non_base_plane =
          r.has_repaint_non_base_plane
          || ((is_window f.overlay_window w && visible)
              || ((is_window f.notification_window w && visible)
                  || (((is_window f.external_overlay_window w && visible) && is_fixed_rate i)
                      || is_window f.override_window w)));
    }

repaint_base : DoneInputs → QueuedCommit → Repaint → Repaint
repaint_base i c r = record r {
  held_base_commit = if i.pause_base_plane then r.held_base_commit else some c;
  has_repaint = true;
}

repaint_focus : DoneInputs → DoneWindow → QueuedCommit → GlobalFocus → Repaint → Repaint
repaint_focus i w c f r =
    if is_window f.focus_window w && not w.is_steam_streaming_client
    then record (repaint_base i c r) {
      focus_window_engine = w.engine_name;
      focus_window_pid = w.pid;
    }
    else r

repaint_video : DoneInputs → DoneWindow → QueuedCommit → GlobalFocus → Repaint → Repaint
repaint_video i w c f r =
    if w.is_steam_streaming_client_video && f.focus_is_streaming_client
    then repaint_base i c r
    else r

pub repaint_for : DoneInputs → DoneWindow → QueuedCommit → List GlobalFocus → Repaint → Repaint
repaint_for i w c [] r = r
repaint_for i w c (f ∷ fs) r =
    repaint_for i w c fs (repaint_video i w c f (repaint_focus i w c f (repaint_overlays i w f r)))

-- What follows when the commit is found, with the window that has its engine name.
pub latch_commit :
    DoneInputs → DoneWindow → QueuedCommit → List QueuedCommit → Repaint → DoneWindow × Repaint
latch_commit i w c rest r =
    let painted = repaint_for i w c i.focuses (record r {
      update_forwarded_vr_overlays = r.update_forwarded_vr_overlays || w.has_target_vr_overlay;
    }) in
    (
      record w {
        needs_forwarding = w.needs_forwarding || w.has_target_vr_overlay;
        outdated_interactive_focus = false;
        received_done_commit = true;
        commit_queue = c ∷ rest;
      },
      if w.outdated_interactive_focus
          then record painted { focus_serial = add_u64 painted.focus_serial 1 }
          else painted,
    )

pub handle_done_commit :
    DoneInputs → ℕ → ℕ → ℕ → DoneWindow → Repaint → (DoneWindow × Repaint) × Bool
handle_done_commit i id present latch w r =
    let (engine, found) = find_commit id present latch w.engine_name w.commit_queue in
    elim found [
      | none ↦ ((record w { engine_name = engine }, r), false)
      | some (c, rest) ↦ (latch_commit i (record w { engine_name = engine }) c rest r, true)
    ]

-- The loop over the windows, up to the first of the seq that has the commit.
pub handle_in_windows :
    DoneInputs → CommitDoneEntry → List DoneWindow → Repaint → (List DoneWindow × Repaint) × Bool
handle_in_windows i e [] r = (([], r), false)
handle_in_windows i e (w ∷ ws) r =
    let ((w', r'), found) =
      handle_done_commit i e.commit_id e.earliest_present_time e.earliest_latch_time w r in
    let ((skipped, skipped_r), skipped_found) = handle_in_windows i e ws r in
    let ((missed, missed_r), missed_found) = handle_in_windows i e ws r' in
    if not (w.seq == e.win_seq)
    then ((w ∷ skipped, skipped_r), skipped_found)
    else if found
    then ((w' ∷ ws, r'), true)
    else ((w' ∷ missed, missed_r), missed_found)
