-- ===== src/DoneCommits/Pass/Lost.antt =====
-- The end of the pass for XDG windows (src/steamcompmgr.cpp).
use gamescope.Common.{
  Bool, Bool-cases, List, [], ap, arith, false, inl, inr, ltb, not, refl, sym, true, ℕ, ◌&&◌, ◌++◌,
  ◌<◌, ◌||◌, ◌∙◌, ◌∷◌, ◌≡◌,
}
use gamescope.CommitFence.{CommitDoneEntry}
use gamescope.DoneCommits.{DoneInputs}
use gamescope.DoneCommits.Pass.{Screen, handle_done_commits_xdg, is_in, pass_xdg, with_times}

-- An entry at which the loop ends: not in FIFO mode, with a desired time after the next refresh.
abbrev pub IsEarly : DoneInputs → CommitDoneEntry → Type 0
IsEarly i e = (e.fifo ≡ false) × (i.next_refresh_time < e.desired_present_time)

early_ends :
    (i : DoneInputs) (vblank : Bool) (e : CommitDoneEntry) (later : List CommitDoneEntry)
    (seqs : List ℕ) (s : Screen)
    → IsEarly i e
    → pass_xdg i vblank (e ∷ later) seqs s ≡ (with_times i e ∷ [], s)
unfolding pass_xdg
early_ends i vblank e later seqs s (free, early) =
    let test : ltb i.next_refresh_time e.desired_present_time ≡ true = ground arith in
    rw (free, test, pass_xdg) refl

lost_in_pass :
    (i : DoneInputs) (vblank : Bool) (before : List CommitDoneEntry) (e : CommitDoneEntry)
    (later : List CommitDoneEntry) (seqs : List ℕ) (s : Screen)
    → IsEarly i e
    → pass_xdg i vblank (before ++ (e ∷ later)) seqs s
      ≡ pass_xdg i vblank (before ++ (e ∷ [])) seqs s
unfolding pass_xdg
lost_in_pass i vblank [] e later seqs s early =
    early_ends i vblank e later seqs s early ∙ sym (early_ends i vblank e [] seqs s early)
lost_in_pass i vblank (d ∷ before) e later seqs s early =
    let ih = λ (ts : List ℕ) (t : Screen). lost_in_pass i vblank before e later ts t early in
    elim (Bool-cases (d.fifo && (not vblank || is_in d.win_seq seqs))) [
      | inl held ↦ rw (held, pass_xdg) (ap (λ p. (d ∷ p.0, p.1)) (ih seqs s))
      | inr free ↦ elim (Bool-cases (ltb i.next_refresh_time d.desired_present_time)) [
        | inl first ↦ rw (free, first, pass_xdg) refl
        | inr due ↦ rw (free, due, pass_xdg) (ih _ _)
      ]
    ]

-- handle_done_commits_xdg loses the entries after one that is not in FIFO mode and whose desired time is
-- after the next refresh: whatever they are, the entries that remain and the windows are the same as
-- without them.
pub entries_after_early_are_lost :
    (i : DoneInputs) (before : List CommitDoneEntry) (e : CommitDoneEntry)
    (later : List CommitDoneEntry) (s : Screen)
    → IsEarly i e
    → handle_done_commits_xdg i (before ++ (e ∷ later)) s
      ≡ handle_done_commits_xdg i (before ++ (e ∷ [])) s
unfolding handle_done_commits_xdg
entries_after_early_are_lost i before e later s early = lost_in_pass i _ before e later [] _ early
