-- ===== src/CommitFence.antt =====
-- The fence of a commit: commit_t of src/commit.cpp and src/commit.h, as far as it is a waitable. The
-- calls that it makes outside are recorded: descriptors that are closed, waitables that are removed,
-- and commits that are done. The locks order the operations; textures and feedback are left out.
pub mod Lifetime
mod Examples
use gamescope.Common.{
  Bool, List, Option, [], false, if◌then◌else◌, none, some, sub_u64, true, ℕ, ◌+◌, ◌||◌, ◌∷◌,
}

-- An entry of listCommitsDone.
pub record CommitDoneEntry : Type 0 where
  pub win_seq : ℕ
  pub commit_id : ℕ
  pub desired_present_time : ℕ
  pub earliest_present_time : ℕ
  pub earliest_latch_time : ℕ
  pub fifo : Bool

-- `fence` is m_nCommitFence, none for a negative one. The lists have the last call first; mango_updates
-- has the frame times given to mangoapp_update.
pub record Commit : Type 0 where
  pub win_seq : ℕ
  pub commit_id : ℕ
  pub desired_present_time : ℕ
  pub fifo : Bool
  pub is_steam : Bool
  pub present_time : ℕ
  pub fence : Option ℕ
  pub mango_nudge : Bool
  pub closed : List ℕ
  pub removals : ℕ
  pub commits_done : List CommitDoneEntry
  pub mango_updates : List ℕ
  pub nudges : ℕ

-- A new commit, with the identity that the constructor counts up and the members that import_commit
-- fills in.
abbrev pub new_commit : ℕ → ℕ → ℕ → Bool → Bool → Commit
new_commit commit_id win_seq desired_present_time fifo is_steam = record {
  win_seq = win_seq;
  commit_id = commit_id;
  desired_present_time = desired_present_time;
  fifo = fifo;
  is_steam = is_steam;
  present_time = 0;
  fence = none;
  mango_nudge = false;
  closed = [];
  removals = 0;
  commits_done = [];
  mango_updates = [];
  nudges = 0;
}

-- The static lastFrameTime of Signal, none before its first use.
pub record Signalled : Type 0 where
  pub commit : Commit
  pub last_frame_time : Option ℕ

-- CloseFenceInternal, for the fence of the commit.
pub close_open : Option ℕ → Commit → Bool × Commit
close_open none c = (false, c)
close_open (some fd) c =
    (true, record c { fence = none; closed = fd ∷ c.closed; removals = c.removals + 1 })

pub close_fence : Commit → Bool × Commit
close_fence c = close_open c.fence c

pub set_fence : Option ℕ → Bool → Commit → Commit
set_fence fence mango_nudge c = record (close_fence c).1 {
  fence = fence;
  mango_nudge = mango_nudge;
}

pub signal : ℕ → Signalled → Signalled
signal now s =
    let c = s.commit in
    let last : ℕ = elim s.last_frame_time [ none ↦ now | some t ↦ t ] in
    let entry : CommitDoneEntry = record {
      win_seq = c.win_seq;
      commit_id = c.commit_id;
      desired_present_time = c.desired_present_time;
      earliest_present_time = 0;
      earliest_latch_time = 0;
      fifo = c.fifo;
    } in
    record {
      commit = record c {
        present_time = now;
        commits_done = entry ∷ c.commits_done;
        mango_updates =
            if c.mango_nudge then sub_u64 now last ∷ c.mango_updates else c.mango_updates;
      };
      last_frame_time = if c.mango_nudge then some now else s.last_frame_time;
    }

-- OnPollIn after CloseFenceInternal; nudge_steamcompmgr is the count of nudges.
pub signal_closed : ℕ → Signalled → Bool → Commit → Signalled
signal_closed now s false c = record s { commit = c }
signal_closed now s true c =
    let t = signal now (record s { commit = c }) in
    record t { commit = record t.commit { nudges = t.commit.nudges + 1 } }

unfoldable pub on_poll_in : ℕ → Signalled → Signalled
on_poll_in now s = let (had_fence, c) = close_fence s.commit in signal_closed now s had_fence c

pub on_poll_hang_up : Signalled → Signalled
on_poll_hang_up s = record s { commit = (close_fence s.commit).1 }

-- The part of the destructor that is about the fence.
pub destroy_commit : Signalled → Signalled
destroy_commit s = record s { commit = (close_fence s.commit).1 }

unfoldable is_perf_overlay_fifo : Commit → Bool
is_perf_overlay_fifo c = c.fifo || c.is_steam

-- What may happen to a commit, in any order. `known_ready` is the SetFence and the direct Signal of
-- update_wayland_res (src/steamcompmgr.cpp) for a commit that is known to be ready, at a time; a
-- descriptor is none where it is negative.
pub data CommitEvent : Type 0 where
  fence_set : Option ℕ → Bool → CommitEvent
  known_ready : Option ℕ → Bool → ℕ → CommitEvent
  poll_in : ℕ → CommitEvent
  hang_up : CommitEvent

pub on_commit_event : CommitEvent → Signalled → Signalled
on_commit_event (fence_set fence mango) s = record s { commit = set_fence fence mango s.commit }
on_commit_event (known_ready fence mango now) s =
    signal now (record s { commit = set_fence fence mango s.commit })
on_commit_event (poll_in now) s = on_poll_in now s
on_commit_event hang_up s = on_poll_hang_up s

-- The last event first.
pub run_commit_events : List CommitEvent → Signalled → Signalled
run_commit_events [] s = s
run_commit_events (e ∷ es) s = on_commit_event e (run_commit_events es s)
