-- ===== src/DoneCommits/Pass.antt =====
-- A pass over listCommitsDone, for XWAYLAND and for XDG windows.
pub mod Fifo
pub mod Lost
pub mod Settled
use gamescope.Common.{
  Bool, List, Option, [], false, if◌then◌else◌, ltb, none, not, some, true, ℕ, ◌&&◌, ◌==◌, ◌||◌,
  ◌∷◌,
}
use gamescope.CommitFence.{CommitDoneEntry}
use gamescope.DoneCommits.{DoneInputs, DoneWindow, Repaint, handle_in_windows}
use gamescope.DoneCommits.Rate.{is_vrr, should_vblank_window}

-- What a pass keeps of its windows and outside.
pub record Screen : Type 0 where
  pub windows : List DoneWindow
  pub repaint : Repaint
  pub lowest_schedule : Option ℕ

-- steamcompmgr_should_vblank_window, asked in turn for the windows of a seq while the answer is yes.
pub ask_windows : DoneInputs → ℕ → List DoneWindow → Bool → Option ℕ → Bool × Option ℕ
ask_windows i seq [] vblank lowest = (vblank, lowest)
ask_windows i seq (w ∷ ws) vblank lowest =
    let (sends, lowest') =
      should_vblank_window i true i.vblank_idx (some w.last_commit_first_latch_time) i.now lowest in
    let asked = ask_windows i seq ws sends lowest' in
    let passed = ask_windows i seq ws vblank lowest in
    if vblank && (w.seq == seq) then asked else passed

-- entry_vblank of the pass for XWAYLAND windows.
unfoldable pub entry_vblank : DoneInputs → ℕ → Screen → Bool × Option ℕ
entry_vblank i seq s =
    if is_vrr i
    then ask_windows i seq s.windows i.vblank s.lowest_schedule
    else if i.vblank
    then should_vblank_window i true i.vblank_idx none 0 s.lowest_schedule
    else (false, s.lowest_schedule)

unfoldable pub with_times : DoneInputs → CommitDoneEntry → CommitDoneEntry
with_times i e =
    if e.earliest_present_time == 0
    then record e { earliest_present_time = i.next_refresh_time; earliest_latch_time = i.now }
    else e

pub is_in : ℕ → List ℕ → Bool
is_in n [] = false
is_in n (m ∷ ms) = (m == n) || is_in n ms

-- An entry whose time has come: the screen, and the seqs in FIFO mode that had a frame.
pub present_entry : DoneInputs → CommitDoneEntry → List ℕ → Screen → Screen × List ℕ
present_entry i e fifo_seqs s =
    let ((ws, r), found) = handle_in_windows i e s.windows s.repaint in
    (
      record s { windows = ws; repaint = r },
      if found && e.fifo then e.win_seq ∷ fifo_seqs else fifo_seqs,
    )

-- The loop of handle_done_commits_xwayland: the entries it keeps, and the screen.
pub pass_xwayland :
    DoneInputs → List CommitDoneEntry → List ℕ → Screen → List CommitDoneEntry × Screen
pass_xwayland i [] fifo_seqs s = ([], s)
pass_xwayland i (e ∷ es) fifo_seqs s =
    let (vblank, lowest) = entry_vblank i e.win_seq s in
    let asked = record s { lowest_schedule = lowest } in
    let timed = with_times i e in
    let (presented, seqs) = present_entry i timed fifo_seqs asked in
    let waits = pass_xwayland i es fifo_seqs asked in
    let goes = pass_xwayland i es seqs presented in
    if e.fifo && (not vblank || is_in e.win_seq fifo_seqs)
    then (e ∷ waits.0, waits.1)
    else if ltb i.next_refresh_time e.desired_present_time
    then (timed ∷ waits.0, waits.1)
    else goes

-- The loop of handle_done_commits_xdg, which ends at an entry whose time has not come.
pub pass_xdg :
    DoneInputs → Bool → List CommitDoneEntry → List ℕ → Screen → List CommitDoneEntry × Screen
pass_xdg i vblank [] fifo_seqs s = ([], s)
pass_xdg i vblank (e ∷ es) fifo_seqs s =
    let timed = with_times i e in
    let (presented, seqs) = present_entry i timed fifo_seqs s in
    let waits = pass_xdg i vblank es fifo_seqs s in
    let goes = pass_xdg i vblank es seqs presented in
    if e.fifo && (not vblank || is_in e.win_seq fifo_seqs)
    then (e ∷ waits.0, waits.1)
    else if ltb i.next_refresh_time e.desired_present_time
    then (timed ∷ [], s)
    else goes

-- The list that each pass leaves in place of listCommitsDone, and the screen.
pub handle_done_commits_xwayland :
    DoneInputs → List CommitDoneEntry → Screen → List CommitDoneEntry × Screen
handle_done_commits_xwayland i es s = pass_xwayland i es [] s

pub handle_done_commits_xdg :
    DoneInputs → List CommitDoneEntry → Screen → List CommitDoneEntry × Screen
handle_done_commits_xdg i es s =
    let (sends, lowest) =
      if i.vblank
      then should_vblank_window i true i.vblank_idx none 0 s.lowest_schedule
      else (false, s.lowest_schedule) in
    pass_xdg i sends es [] (record s { lowest_schedule = lowest })
