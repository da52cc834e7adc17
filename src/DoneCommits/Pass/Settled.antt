-- ===== src/DoneCommits/Pass/Settled.antt =====
-- What a pass does with the entries whose time has come (src/steamcompmgr.cpp).
use gamescope.Common.{
  Bool-cases, List, [], arith, false, inl, inr, ltb, not, refl, subst, sym, ℕ, ◌&&◌, ◌++◌, ◌==◌,
  ◌||◌, ◌∷◌, ◌≡◌, ◌≤◌, ◌⊎◌,
}
use gamescope.CommitFence.{CommitDoneEntry}
use gamescope.DoneCommits.{DoneInputs, Repaint, handle_in_windows}
use gamescope.DoneCommits.Pass.{
  Screen, entry_vblank, handle_done_commits_xwayland, is_in, pass_xwayland, present_entry,
  with_times,
}
use gamescope.DoneCommits.Windows.{
  AreWindows, IsSettledIn, windows-IsSettledIn, windows_keep-AreWindows, windows_keep-IsSettledIn,
}

-- The screen after the entry's window is asked, and the screen and the seqs after the entry is presented.
abbrev asked : DoneInputs → CommitDoneEntry → Screen → Screen
asked i e s = record s { lowest_schedule = (entry_vblank i e.win_seq s).1 }

abbrev presented : DoneInputs → CommitDoneEntry → List ℕ → Screen → Screen × List ℕ
presented i e seqs s = present_entry i (with_times i e) seqs (asked i e s)

-- One entry of a pass: the rest of the loop goes on with the windows as they are or with the commit
-- handled, and with the commit handled when the entry is not in FIFO mode and its time has come.
abbrev IsNext : DoneInputs → CommitDoneEntry → Screen → Screen → Type 0
IsNext i e s t =
    (t.windows ≡ s.windows)
    ⊎ ((r : Repaint) × (t.windows ≡ (handle_in_windows i (with_times i e) s.windows r).0.0))

pass-IsNext :
    (i : DoneInputs) (e : CommitDoneEntry) (es : List CommitDoneEntry) (seqs : List ℕ) (s : Screen)
    → (seqs' : List ℕ) × (t : Screen) × ((pass_xwayland i (e ∷ es) seqs s).1
        ≡ (pass_xwayland i es seqs' t).1)
      × IsNext i e s t
unfolding pass_xwayland present_entry
pass-IsNext i e es seqs s =
    elim (Bool-cases (e.fifo && (not (entry_vblank i e.win_seq s).0 || is_in e.win_seq seqs))) [
      | inl held ↦ (seqs, asked i e s, rw (held, pass_xwayland) refl, inl refl)
      | inr free ↦ elim (Bool-cases (ltb i.next_refresh_time e.desired_present_time)) [
        | inl early ↦ (seqs, asked i e s, rw (free, early, pass_xwayland) refl, inl refl)
        | inr due ↦ (
          (presented i e seqs s).1,
          (presented i e seqs s).0,
          rw (free, due, pass_xwayland) refl,
          inr (s.repaint, refl),
        )
      ]
    ]

pass_due :
    (i : DoneInputs) (e : CommitDoneEntry) (es : List CommitDoneEntry) (seqs : List ℕ) (s : Screen)
    → e.fifo ≡ false
    → e.desired_present_time ≤ i.next_refresh_time
    → (seqs' : List ℕ) × (t : Screen) × (r : Repaint) × ((pass_xwayland i (e ∷ es) seqs s).1
        ≡ (pass_xwayland i es seqs' t).1)
      × (t.windows ≡ (handle_in_windows i (with_times i e) s.windows r).0.0)
unfolding pass_xwayland present_entry
pass_due i e es seqs s free due =
    let not_early : ltb i.next_refresh_time e.desired_present_time ≡ false = ground arith in
    (
      (presented i e seqs s).1,
      (presented i e seqs s).0,
      s.repaint,
      rw (free, not_early, pass_xwayland) refl,
      refl,
    )

next_keeps-AreWindows :
    (i : DoneInputs) (e : CommitDoneEntry) (s t : Screen)
    → IsNext i e s t
    → AreWindows s.windows
    → AreWindows t.windows
next_keeps-AreWindows i e s t (inl same) h = subst AreWindows (sym same) h
next_keeps-AreWindows i e s t (inr (r, same)) h =
    subst AreWindows (sym same) (windows_keep-AreWindows i (with_times i e) s.windows r h)

next_keeps-IsSettledIn :
    (i : DoneInputs) (e : CommitDoneEntry) (s t : Screen) (seq id : ℕ)
    → IsNext i e s t
    → IsSettledIn seq id s.windows
    → IsSettledIn seq id t.windows
next_keeps-IsSettledIn i e s t seq id (inl same) h = subst (IsSettledIn seq id) (sym same) h
next_keeps-IsSettledIn i e s t seq id (inr (r, same)) h =
    subst (IsSettledIn seq id) (sym same)
      (windows_keep-IsSettledIn i (with_times i e) seq id s.windows r h)

pass_keeps-IsSettledIn :
    (i : DoneInputs) (es : List CommitDoneEntry) (seqs : List ℕ) (s : Screen) (seq id : ℕ)
    → IsSettledIn seq id s.windows
    → IsSettledIn seq id (pass_xwayland i es seqs s).1.windows
unfolding pass_xwayland
pass_keeps-IsSettledIn i [] seqs s seq id h = h
pass_keeps-IsSettledIn i (e ∷ es) seqs s seq id h =
    let (seqs', t, same, next) = pass-IsNext i e es seqs s in
    subst (λ u. IsSettledIn seq id u.windows) (sym same)
      (pass_keeps-IsSettledIn i es seqs' t seq id (next_keeps-IsSettledIn i e s t seq id next h))

times_keep :
    (i : DoneInputs) (e : CommitDoneEntry)
    → ((with_times i e).win_seq ≡ e.win_seq) × ((with_times i e).commit_id ≡ e.commit_id)
unfolding with_times
times_keep i e = elim (Bool-cases (e.earliest_present_time == 0)) [
  | inl unset ↦ rw unset (refl, refl)
  | inr timed ↦ rw timed (refl, refl)
]

pass-IsSettledIn :
    (i : DoneInputs) (before : List CommitDoneEntry) (e : CommitDoneEntry)
    (later : List CommitDoneEntry) (seqs : List ℕ) (s : Screen)
    → AreWindows s.windows
    → e.fifo ≡ false
    → e.desired_present_time ≤ i.next_refresh_time
    → IsSettledIn e.win_seq e.commit_id (pass_xwayland i (before ++ (e ∷ later)) seqs s).1.windows
pass-IsSettledIn i [] e later seqs s h free due =
    let (seqs', t, r, same, handled) = pass_due i e later seqs s free due in
    let (same_seq, same_id) = times_keep i e in
    let settled = windows-IsSettledIn i (with_times i e) s.windows r h in
    let here : IsSettledIn e.win_seq e.commit_id t.windows =
      subst (λ q. IsSettledIn q e.commit_id t.windows) same_seq
        (subst (λ d. IsSettledIn (with_times i e).win_seq d t.windows) same_id
          (subst (IsSettledIn (with_times i e).win_seq (with_times i e).commit_id) (sym handled)
            settled)) in
    subst (λ u. IsSettledIn e.win_seq e.commit_id u.windows) (sym same)
      (pass_keeps-IsSettledIn i later seqs' t e.win_seq e.commit_id here)
pass-IsSettledIn i (d ∷ before) e later seqs s h free due =
    let (seqs', t, same, next) = pass-IsNext i d (before ++ (e ∷ later)) seqs s in
    subst (λ u. IsSettledIn e.win_seq e.commit_id u.windows) (sym same)
      (pass-IsSettledIn i before e later seqs' t (next_keeps-AreWindows i d s t next h) free due)

-- For windows with distinct seqs and ordered queues: after handle_done_commits_xwayland, the window of
-- every entry that is not in FIFO mode and whose desired time is not after the next refresh has no commit
-- with the id of the entry that is not done, wherever the entry stands in the list.
pub due_commits_are_latched :
    (i : DoneInputs) (before : List CommitDoneEntry) (e : CommitDoneEntry)
    (later : List CommitDoneEntry) (s : Screen)
    → AreWindows s.windows
    → e.fifo ≡ false
    → e.desired_present_time ≤ i.next_refresh_time
    → IsSettledIn e.win_seq e.commit_id
        (handle_done_commits_xwayland i (before ++ (e ∷ later)) s).1.windows
unfolding handle_done_commits_xwayland
due_commits_are_latched i before e later s h free due =
    pass-IsSettledIn i before e later [] s h free due
