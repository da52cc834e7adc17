-- ===== src/DoneCommits/Latch.antt =====
-- One done commit, in the queue of its window and in a list of windows (src/steamcompmgr.cpp).
use gamescope.Common.{
  ==_iff, All, All-map, Bool-cases, List, Option, [], ap, arith, false, inl, inr, none, refl, some,
  subst, sym, true, ℕ, ◌++◌, ◌<◌, ◌==◌, ◌∷◌, ◌≡◌, ◌⊎◌,
}
use gamescope.DoneCommits.{
  DoneInputs, DoneWindow, QueuedCommit, Repaint, engine_after, find_commit, handle_done_commit,
  latch_commit, mark_done,
}

abbrev pub HasId : ℕ → QueuedCommit → Type 0
HasId id c = c.commit_id ≡ id

-- The outcome of a search in a queue.
abbrev pub IsFound :
    ℕ → ℕ → ℕ → List QueuedCommit → Option (QueuedCommit × List QueuedCommit) → Type 0
IsFound id present latch cs found =
    ((found ≡ none) × All (λ c. HasId id c → ⊥) cs)
    ⊎ ((older : List QueuedCommit) × (c : QueuedCommit) × (rest : List QueuedCommit) × (cs
          ≡ older ++ (c ∷ rest))
        × All (λ d. HasId id d → ⊥) older
        × HasId id c
        × (found ≡ some (mark_done present latch c, rest)))

find_commit-IsFound :
    (id present latch engine : ℕ) (cs : List QueuedCommit)
    → IsFound id present latch cs (find_commit id present latch engine cs).1
unfolding find_commit
find_commit-IsFound id present latch engine [] = inl (refl, tt)
find_commit-IsFound id present latch engine (c ∷ cs) = elim (Bool-cases (c.commit_id == id)) [
  | inl same ↦
      inr ([], c, cs, refl, tt, (==_iff c.commit_id id).0 same, rw (same, find_commit) refl)
  | inr other ↦ elim (find_commit-IsFound id present latch (engine_after c engine) cs) [
    | inl (missing, none_has) ↦
        inl (rw (other, find_commit) missing, ((λ h. absurd (ground arith)), none_has))
    | inr (older, d, rest, e, before, has, found) ↦ inr (
      c ∷ older,
      d,
      rest,
      ap (◌∷◌ c) e,
      ((λ h. absurd (ground arith)), before),
      has,
      rw (other, find_commit) found,
    )
  ]
]

abbrev pub IsSettled : ℕ → List QueuedCommit → Type 0
IsSettled id = All (λ c. HasId id c → c.done ≡ true)

-- Commit ids come from a counter, and queues hold them in its order.
abbrev pub IsOrdered : List QueuedCommit → Type 0
IsOrdered [] = Unit
IsOrdered (c ∷ cs) = All (λ d. c.commit_id < d.commit_id) cs × IsOrdered cs

All-suffix {ℓ κ} :
    {A : Type ℓ} (P : A → Type κ) (older rest : List A) → All P (older ++ rest) → All P rest
All-suffix P [] rest h = h
All-suffix P (a ∷ older) rest h = All-suffix P older rest h.1

IsOrdered-suffix : (older rest : List QueuedCommit) → IsOrdered (older ++ rest) → IsOrdered rest
IsOrdered-suffix [] rest h = h
IsOrdered-suffix (c ∷ older) rest h = IsOrdered-suffix older rest h.1

-- The queue after a commit is handled.
abbrev queue_after :
    List QueuedCommit → Option (QueuedCommit × List QueuedCommit) → List QueuedCommit
queue_after cs none = cs
queue_after cs (some (c, rest)) = c ∷ rest

-- A done commit of a window: either the queue has none with its id and stays as it is, or it begins
-- with that commit, done and with its times, followed by the commits that came after it; those before
-- it are gone.
pub handle_done_commit-IsFound :
    (i : DoneInputs) (id present latch : ℕ) (w : DoneWindow) (r : Repaint)
    → let ((after, painted), latched) = handle_done_commit i id present latch w r in
      ((latched ≡ false)
        × (after.commit_queue ≡ w.commit_queue)
        × All (λ c. HasId id c → ⊥) w.commit_queue)
      ⊎ ((older : List QueuedCommit) × (c : QueuedCommit) × (rest : List QueuedCommit)
          × (w.commit_queue ≡ older ++ (c ∷ rest))
          × All (λ d. HasId id d → ⊥) older
          × HasId id c
          × (latched ≡ true)
          × (after.commit_queue ≡ mark_done present latch c ∷ rest))
unfolding handle_done_commit latch_commit
handle_done_commit-IsFound i id present latch w r =
    elim (find_commit-IsFound id present latch w.engine_name w.commit_queue) [
      | inl (missing, none_has) ↦ inl (rw (missing, handle_done_commit) (refl, refl, none_has))
      | inr (older, c, rest, e, before, has, found) ↦ inr (
        older,
        c,
        rest,
        e,
        before,
        has,
        rw (found, handle_done_commit) refl,
        rw (found, handle_done_commit) refl,
      )
    ]

pub handle_done_commit-seq :
    (i : DoneInputs) (id present latch : ℕ) (w : DoneWindow) (r : Repaint)
    → (handle_done_commit i id present latch w r).0.0.seq ≡ w.seq
unfolding handle_done_commit latch_commit
handle_done_commit-seq i id present latch w r =
    elim (find_commit-IsFound id present latch w.engine_name w.commit_queue) [
      | inl (missing, none_has) ↦ rw (missing, handle_done_commit) refl
      | inr (older, c, rest, e, before, has, found) ↦ rw (found, handle_done_commit) refl
    ]

module _ (i : DoneInputs) (id present latch : ℕ) (w : DoneWindow) (r : Repaint) where
  abbrev after_done : DoneWindow
  after_done = (handle_done_commit i id present latch w r).0.0

  pub handled-IsOrdered : IsOrdered w.commit_queue → IsOrdered after_done.commit_queue
  unfolding mark_done
  handled-IsOrdered h = elim (handle_done_commit-IsFound i id present latch w r) [
    | inl (missing, same, none_has) ↦ subst IsOrdered (sym same) h
    | inr (older, c, rest, e, before, has, found, q) ↦
        subst IsOrdered (sym q) (IsOrdered-suffix older (c ∷ rest) (subst IsOrdered e h))
  ]

  pub handled_keeps-IsSettled :
      (other : ℕ) → IsSettled other w.commit_queue → IsSettled other after_done.commit_queue
  unfolding mark_done
  handled_keeps-IsSettled other h = elim (handle_done_commit-IsFound i id present latch w r) [
    | inl (missing, same, none_has) ↦ subst (IsSettled other) (sym same) h
    | inr (older, c, rest, e, before, has, found, q) ↦
        let left =
          All-suffix (λ d. HasId other d → d.done ≡ true) older (c ∷ rest)
            (subst (IsSettled other) e h) in
        subst (IsSettled other) (sym q) ((λ k. refl), left.1)
  ]

  pub handled-IsSettled : IsOrdered w.commit_queue → IsSettled id after_done.commit_queue
  unfolding mark_done
  handled-IsSettled h = elim (handle_done_commit-IsFound i id present latch w r) [
    | inl (missing, same, none_has) ↦
        subst (IsSettled id) (sym same) (All-map (λ c k e. absurd (k e)) w.commit_queue none_has)
    | inr (older, c, rest, e, before, has, found, q) ↦
        let sorted = IsOrdered-suffix older (c ∷ rest) (subst IsOrdered e h) in
        subst (IsSettled id) (sym q)
          ((λ k. refl), All-map (λ d below k. absurd (omega arith)) rest sorted.0)
  ]
