-- ===== src/DoneCommits/Pass/Fifo.antt =====
-- The entries in FIFO mode (src/steamcompmgr.cpp).
use gamescope.Common.{
  ==_iff, Bool, Bool-cases, List, Option, [], ap, arith, false, if-false, if-true, if◌then◌else◌,
  inl, inr, ltb, not, refl, subst, sym, true, ℕ, ◌&&◌, ◌==◌, ◌||◌, ◌∙◌, ◌∷◌, ◌≡◌, ◌≤◌, ◌⊎◌,
}
use gamescope.CommitFence.{CommitDoneEntry}
use gamescope.DoneCommits.{DoneInputs, DoneWindow, handle_in_windows}
use gamescope.DoneCommits.Pass.{
  Screen, ask_windows, entry_vblank, handle_done_commits_xwayland, is_in, pass_xwayland,
  present_entry, with_times,
}
use gamescope.DoneCommits.Rate.{is_vrr}

-- The entries of a window that are in FIFO mode.
abbrev pub fifo_of : ℕ → List CommitDoneEntry → List CommitDoneEntry
fifo_of seq [] = []
fifo_of seq (e ∷ es) = if e.fifo && (e.win_seq == seq) then e ∷ fifo_of seq es else fifo_of seq es

asked_without_vblank :
    (i : DoneInputs) (seq : ℕ) (ws : List DoneWindow) (lowest : Option ℕ)
    → ask_windows i seq ws false lowest ≡ (false, lowest)
unfolding ask_windows
asked_without_vblank i seq [] lowest = refl
asked_without_vblank i seq (w ∷ ws) lowest = asked_without_vblank i seq ws lowest

no_vblank :
    (i : DoneInputs) (seq : ℕ) (s : Screen) → i.vblank ≡ false → (entry_vblank i seq s).0 ≡ false
unfolding entry_vblank
no_vblank i seq s off = elim (Bool-cases (is_vrr i)) [
  | inl vrr ↦
      simp (vrr, off) (ap (λ p. p.0) (asked_without_vblank i seq s.windows s.lowest_schedule))
  | inr fixed ↦ simp (fixed, off) refl
]

-- A window gets no FIFO frame: there is no vertical blank, or it had its frame.
abbrev IsBlocked : DoneInputs → ℕ → List ℕ → Type 0
IsBlocked i seq seqs = (i.vblank ≡ false) ⊎ (is_in seq seqs ≡ true)

blocked_entry :
    (i : DoneInputs) (e : CommitDoneEntry) (seqs : List ℕ) (s : Screen)
    → IsBlocked i e.win_seq seqs
    → e.fifo ≡ true
    → (e.fifo && (not (entry_vblank i e.win_seq s).0 || is_in e.win_seq seqs)) ≡ true
blocked_entry i e seqs s (inl off) fifo = rw (fifo, no_vblank i e.win_seq s off) refl
blocked_entry i e seqs s (inr had) fifo = rw (fifo, had) (ground arith)

in_more :
    (b : Bool) (seq other : ℕ) (seqs : List ℕ)
    → is_in seq seqs ≡ true
    → is_in seq (if b then other ∷ seqs else seqs) ≡ true
unfolding is_in
in_more true seq other seqs h = rw h (ground arith)
in_more false seq other seqs h = h

still-IsBlocked :
    (i : DoneInputs) (e : CommitDoneEntry) (seq : ℕ) (seqs : List ℕ) (s : Screen)
    → IsBlocked i seq seqs
    → IsBlocked i seq (present_entry i e seqs s).1
unfolding present_entry
still-IsBlocked i e seq seqs s (inl off) = inl off
still-IsBlocked i e seq seqs s (inr had) = inr (in_more _ seq e.win_seq seqs had)

times_kept :
    (i : DoneInputs) (e : CommitDoneEntry)
    → ((with_times i e).win_seq ≡ e.win_seq) × ((with_times i e).fifo ≡ e.fifo)
unfolding with_times
times_kept i e = elim (Bool-cases (e.earliest_present_time == 0)) [
  | inl unset ↦ rw unset (refl, refl)
  | inr timed ↦ rw timed (refl, refl)
]

times_keep_fifo :
    (i : DoneInputs) (e : CommitDoneEntry) (seq : ℕ)
    → ((with_times i e).fifo && ((with_times i e).win_seq == seq)) ≡ (e.fifo && (e.win_seq == seq))
times_keep_fifo i e seq =
    let (same_seq, same_fifo) = times_kept i e in rw (same_seq, same_fifo) refl

both_true : (p q : Bool) → (p && q) ≡ true → (p ≡ true) × (q ≡ true)
both_true true true e = (refl, refl)
both_true true false e = ground arith
both_true false q e = ground arith

blocked_waits :
    (i : DoneInputs) (es : List CommitDoneEntry) (seq : ℕ) (seqs : List ℕ) (s : Screen)
    → IsBlocked i seq seqs
    → fifo_of seq (pass_xwayland i es seqs s).0 ≡ fifo_of seq es
unfolding pass_xwayland
blocked_waits i [] seq seqs s blocked = refl
blocked_waits i (e ∷ es) seq seqs s blocked = elim (Bool-cases (e.fifo && (e.win_seq == seq))) [
  | inl ours ↦
      let (fifo, same) = both_true e.fifo (e.win_seq == seq) ours in
      let held =
        blocked_entry i e seqs s
          (subst (λ n. IsBlocked i n seqs) (sym ((==_iff e.win_seq seq).0 same)) blocked) fifo in
      rw (held, pass_xwayland)
        (if-true _ _ ours
          ∙ ap (◌∷◌ e) (blocked_waits i es seq seqs _ blocked)
          ∙ sym (if-true _ _ ours))
  | inr foreign ↦
      let skipped = if-false (e ∷ fifo_of seq es) (fifo_of seq es) foreign in
      elim (Bool-cases (e.fifo && (not (entry_vblank i e.win_seq s).0 || is_in e.win_seq seqs))) [
        | inl held ↦
            rw (held, pass_xwayland)
              (if-false _ _ foreign ∙ blocked_waits i es seq seqs _ blocked ∙ sym skipped)
        | inr free ↦ elim (Bool-cases (ltb i.next_refresh_time e.desired_present_time)) [
          | inl early ↦
              rw (free, early, pass_xwayland)
                (if-false _ _ (times_keep_fifo i e seq ∙ foreign)
                  ∙ blocked_waits i es seq seqs _ blocked
                  ∙ sym skipped)
          | inr due ↦
              rw (free, due, pass_xwayland)
                (blocked_waits i es seq _ _ (still-IsBlocked i (with_times i e) seq seqs _ blocked)
                  ∙ sym skipped)
        ]
      ]
]

-- Without a vertical blank, handle_done_commits_xwayland keeps every entry in FIFO mode, as it is and in
-- the order of the list.
fifo_waits_for_vblank :
    (i : DoneInputs) (es : List CommitDoneEntry) (seq : ℕ) (s : Screen)
    → i.vblank ≡ false
    → fifo_of seq (handle_done_commits_xwayland i es s).0 ≡ fifo_of seq es
unfolding handle_done_commits_xwayland
fifo_waits_for_vblank i es seq s off = blocked_waits i es seq [] s (inl off)

presented_is_in :
    (i : DoneInputs) (e : CommitDoneEntry) (seqs : List ℕ) (s : Screen)
    → e.fifo ≡ true
    → (handle_in_windows i e s.windows s.repaint).1 ≡ true
    → is_in e.win_seq (present_entry i e seqs s).1 ≡ true
unfolding present_entry is_in
presented_is_in i e seqs s fifo found = simp (fifo, found) (ground arith)

-- When a vertical blank comes for the window of the first entry, the entry is in FIFO mode, its time has
-- come and its commit is found, then handle_done_commits_xwayland removes that entry, and keeps every
-- other entry of that window in FIFO mode for later, in the order of the list.
pub one_fifo_frame :
    (i : DoneInputs) (e : CommitDoneEntry) (es : List CommitDoneEntry) (s : Screen)
    → e.fifo ≡ true
    → (entry_vblank i e.win_seq s).0 ≡ true
    → e.desired_present_time ≤ i.next_refresh_time
    → (handle_in_windows i (with_times i e) s.windows s.repaint).1 ≡ true
    → fifo_of e.win_seq (handle_done_commits_xwayland i (e ∷ es) s).0 ≡ fifo_of e.win_seq es
unfolding handle_done_commits_xwayland pass_xwayland is_in
one_fifo_frame i e es s fifo sends due found =
    let on_time : ltb i.next_refresh_time e.desired_present_time ≡ false = ground arith in
    let asked = record s { lowest_schedule = (entry_vblank i e.win_seq s).1 } in
    let (same_seq, same_fifo) = times_kept i e in
    let had = presented_is_in i (with_times i e) [] asked (same_fifo ∙ fifo) found in
    let free : (e.fifo && (not (entry_vblank i e.win_seq s).0 || false)) ≡ false =
      rw (fifo, sends) refl in
    rw (free, on_time, pass_xwayland)
      (blocked_waits i es e.win_seq _ _ (
        inr
          (subst (λ n. is_in n (present_entry i (with_times i e) [] asked).1 ≡ true) same_seq had)))
