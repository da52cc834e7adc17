-- ===== src/DoneCommits/Windows.antt =====
-- One done commit in a list of windows (src/steamcompmgr.cpp).
use gamescope.Common.{
  ==_iff, All, All-map, Bool-cases, List, [], arith, inl, inr, sym, ℕ, ◌==◌, ◌∙◌, ◌∷◌, ◌≡◌,
}
use gamescope.CommitFence.{CommitDoneEntry}
use gamescope.DoneCommits.{DoneInputs, DoneWindow, Repaint, handle_done_commit, handle_in_windows}
use gamescope.DoneCommits.Latch.{
  IsOrdered, IsSettled, handle_done_commit-seq, handled-IsOrdered, handled-IsSettled,
  handled_keeps-IsSettled,
}

abbrev pub IsDistinct : List DoneWindow → Type 0
IsDistinct [] = Unit
IsDistinct (w ∷ ws) = All (λ v. w.seq ≡ v.seq → ⊥) ws × IsDistinct ws

-- Windows with distinct seqs, and ordered queues.
abbrev pub AreWindows : List DoneWindow → Type 0
AreWindows ws = All (λ w. IsOrdered w.commit_queue) ws × IsDistinct ws

-- The window of a seq has no commit with an id that is not done.
abbrev pub IsSettledIn : ℕ → ℕ → List DoneWindow → Type 0
IsSettledIn seq id = All (λ w. w.seq ≡ seq → IsSettled id w.commit_queue)

module _ (i : DoneInputs) (e : CommitDoneEntry) where
  abbrev handled : DoneWindow → Repaint → DoneWindow
  handled w r =
      (handle_done_commit i e.commit_id e.earliest_present_time e.earliest_latch_time w r).0.0

  handled-seq : (w : DoneWindow) (r : Repaint) → (handled w r).seq ≡ w.seq
  handled-seq w r =
      handle_done_commit-seq i e.commit_id e.earliest_present_time e.earliest_latch_time w r

  windows_keep :
      (P : DoneWindow → Type 0)
      → ((w : DoneWindow) (r : Repaint) → P w → P (handled w r))
      → (ws : List DoneWindow) (r : Repaint) → All P ws
      → All P (handle_in_windows i e ws r).0.0
  unfolding handle_in_windows
  windows_keep P step [] r h = tt
  windows_keep P step (w ∷ ws) r h = elim (Bool-cases (w.seq == e.win_seq)) [
    | inr other ↦ rw (other, handle_in_windows) (h.0, windows_keep P step ws r h.1)
    | inl same ↦
        elim (Bool-cases
          (handle_done_commit i e.commit_id e.earliest_present_time e.earliest_latch_time w r).1) [
            | inl found ↦ rw (same, found, handle_in_windows) (step w r h.0, h.1)
            | inr missed ↦
                rw (same, missed, handle_in_windows) (step w r h.0, windows_keep P step ws _ h.1)
          ]
  ]

  windows_keep-IsDistinct :
      (ws : List DoneWindow) (r : Repaint)
      → IsDistinct ws
      → IsDistinct (handle_in_windows i e ws r).0.0
  unfolding handle_in_windows
  windows_keep-IsDistinct [] r h = tt
  windows_keep-IsDistinct (w ∷ ws) r h =
      let apart = λ (s : Repaint).
        windows_keep (λ v. w.seq ≡ v.seq → ⊥) (λ v t k eq. k (eq ∙ handled-seq v t)) ws s h.0 in
      let far =
        All-map {P = λ (v : DoneWindow). w.seq ≡ v.seq → ⊥}
          {Q = λ (v : DoneWindow). (handled w r).seq ≡ v.seq → ⊥}
          (λ v k eq. k (sym (handled-seq w r) ∙ eq)) ws h.0 in
      elim (Bool-cases (w.seq == e.win_seq)) [
        | inr other ↦ rw (other, handle_in_windows) (apart r, windows_keep-IsDistinct ws r h.1)
        | inl same ↦
            elim (Bool-cases
              (handle_done_commit i e.commit_id e.earliest_present_time e.earliest_latch_time w
                r).1) [
                  | inl found ↦ rw (same, found, handle_in_windows) (far, h.1)
                  | inr missed ↦
                      rw (same, missed, handle_in_windows)
                        (
                          windows_keep (λ v. (handled w r).seq ≡ v.seq → ⊥)
                              (λ v t k eq. k (eq ∙ handled-seq v t)) ws _ far,
                          windows_keep-IsDistinct ws _ h.1,
                        )
                ]
      ]

  pub windows_keep-AreWindows :
      (ws : List DoneWindow) (r : Repaint)
      → AreWindows ws
      → AreWindows (handle_in_windows i e ws r).0.0
  windows_keep-AreWindows ws r h = (
    windows_keep (λ w. IsOrdered w.commit_queue)
        (λ w t. handled-IsOrdered i e.commit_id e.earliest_present_time e.earliest_latch_time w t)
        ws r h.0,
    windows_keep-IsDistinct ws r h.1,
  )

  pub windows_keep-IsSettledIn :
      (seq id : ℕ) (ws : List DoneWindow) (r : Repaint)
      → IsSettledIn seq id ws
      → IsSettledIn seq id (handle_in_windows i e ws r).0.0
  windows_keep-IsSettledIn seq id ws r h =
      windows_keep (λ w. w.seq ≡ seq → IsSettled id w.commit_queue)
        (λ w t k eq.
          handled_keeps-IsSettled i e.commit_id e.earliest_present_time e.earliest_latch_time w t id
            (k (sym (handled-seq w t) ∙ eq)))
        ws r h

  pub windows-IsSettledIn :
      (ws : List DoneWindow) (r : Repaint)
      → AreWindows ws
      → IsSettledIn e.win_seq e.commit_id (handle_in_windows i e ws r).0.0
  unfolding handle_in_windows
  windows-IsSettledIn [] r h = tt
  windows-IsSettledIn (w ∷ ws) r ((ordered, all_ordered), (apart, distinct)) =
      let settled =
        handled-IsSettled i e.commit_id e.earliest_present_time e.earliest_latch_time w r ordered in
      elim (Bool-cases (w.seq == e.win_seq)) [
        | inr other ↦
            rw (other, handle_in_windows)
              ((λ eq. absurd (ground arith)), windows-IsSettledIn ws r (all_ordered, distinct))
        | inl same ↦
            elim (Bool-cases
              (handle_done_commit i e.commit_id e.earliest_present_time e.earliest_latch_time w
                r).1) [
                  | inl found ↦
                      rw (same, found, handle_in_windows)
                        (
                          (λ eq. settled),
                          All-map (λ v k eq. absurd (k ((==_iff w.seq e.win_seq).0 same ∙ sym eq)))
                              ws apart,
                        )
                  | inr missed ↦
                      rw (same, missed, handle_in_windows)
                        ((λ eq. settled), windows-IsSettledIn ws _ (all_ordered, distinct))
                ]
      ]
