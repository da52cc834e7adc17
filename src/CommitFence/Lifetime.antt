-- ===== src/CommitFence/Lifetime.antt =====
-- Every fence of a commit is closed once, and signals at most one commit (src/commit.cpp).
use gamescope.Common.{List, Option, [], length, none, some, ℕ, ◌++◌, ◌+◌, ◌∷◌, ◌≡◌, ◌≤◌}
use gamescope.CommitFence.{Commit, CommitEvent, fence_set, hang_up, known_ready, poll_in}

abbrev pub open_fence : Option ℕ → List ℕ
open_fence none = []
open_fence (some fd) = fd ∷ []

-- The descriptors that were given to a commit, the last one first.
abbrev pub fences_of : List CommitEvent → List ℕ
fences_of [] = []
fences_of (fence_set fence mango ∷ es) = open_fence fence ++ fences_of es
fences_of (known_ready fence mango now ∷ es) = open_fence fence ++ fences_of es
fences_of (poll_in now ∷ es) = fences_of es
fences_of (hang_up ∷ es) = fences_of es

-- How often the commit was known to be ready.
abbrev pub times_ready : List CommitEvent → ℕ
times_ready [] = 0
times_ready (fence_set fence mango ∷ es) = times_ready es
times_ready (known_ready fence mango now ∷ es) = times_ready es + 1
times_ready (poll_in now ∷ es) = times_ready es
times_ready (hang_up ∷ es) = times_ready es

-- The fence that is open and those that were closed are all that were given; each one that was closed was
-- removed from the waiter, and each report of the commit, but for those of a commit known to be ready,
-- closed one and nudged the compositor.
pub record IsFenced (start : Commit) (fences : List ℕ) (ready : ℕ) (c : Commit) : Type 0 where
  pub fences_kept : open_fence c.fence ++ c.closed ≡ fences ++ start.closed
  pub removed : c.removals + length start.closed ≡ length c.closed + start.removals
  pub signalled :
      length c.commits_done + length start.closed
      ≤ length c.closed + (ready + length start.commits_done)
  pub nudged : c.nudges + (ready + length start.commits_done) ≡ length c.commits_done + start.nudges
