-- ===== src/Vblank/Timer/Nudge.antt =====
-- The nudge thread and the reads of its pipe (src/vblankmanager.cpp), errors included.
use gamescope.Common.{
  Bool-cases, IsU64, List, Option, [], ap, arith, false, if-false, if-true, inl, inr, ltb, lt→ltb,
  refl, replicate, some, sub_u64, suc, true, zero, ℕ, ◌++◌, ◌+◌, ◌<◌, ◌>>=◌, ◌∙◌, ◌∷◌, ◌≡◌, ◌≤◌,
}
use gamescope.Vblank.Schedule.{DisplayInputs, VblankScheduleTime}
use gamescope.Vblank.Timer.{
  ReadResult, VblankTimer, arm_next_vblank, nudge_thread_turn, on_poll_in, read_failed, read_nudges,
  received, short_read, would_block,
}

-- A read that ends with a re-arm: an error other than EAGAIN, too few bytes, or a wake-up that is over a
-- millisecond old.
abbrev pub IsUnusable : DisplayInputs → ReadResult → Type 0
IsUnusable inputs would_block = ⊥
IsUnusable inputs read_failed = Unit
IsUnusable inputs short_read = Unit
IsUnusable inputs (received time) = 1_000_000 < sub_u64 inputs.now time.wakeup_time

-- Reads that would block are tried again.
blocked :
    (inputs : DisplayInputs) (n : ℕ) (reads : List ReadResult) (t : VblankTimer)
    → read_nudges inputs (replicate n would_block ++ reads) t ≡ read_nudges inputs reads t
unfolding read_nudges
blocked inputs zero reads t = refl
blocked inputs (suc n) reads t = blocked inputs n reads t

unusable :
    (inputs : DisplayInputs) (r : ReadResult) (reads : List ReadResult) (t : VblankTimer)
    → IsUnusable inputs r
    → read_nudges inputs (r ∷ reads) t ≡ arm_next_vblank inputs true t
unfolding read_nudges
unusable inputs would_block reads t h = absurd h
unusable inputs read_failed reads t h = refl
unusable inputs short_read reads t h = refl
unusable inputs (received time) reads t h = let old = lt→ltb _ _ h in rw old refl

rearmed :
    (inputs : DisplayInputs) (t : VblankTimer)
    → t.nudge_pipe ≡ true
    → arm_next_vblank inputs true t ≡ some (record t { armed = true })
unfolding arm_next_vblank
rearmed inputs t piped = elim (Bool-cases t.armed) [
  | inl on ↦ if-true _ _ on ∙ ap (λ b. some (record t { armed = b })) on
  | inr off ↦ if-false _ _ off ∙ if-true _ _ piped
]

-- With the nudge pipe: after any number of reads that would block, an unusable read arms the timer and
-- changes nothing else, so no time waits that did not wait before.
unusable_read_rearms :
    (inputs : DisplayInputs) (n : ℕ) (r : ReadResult) (reads : List ReadResult) (t : VblankTimer)
    → t.nudge_pipe ≡ true
    → IsUnusable inputs r
    → on_poll_in inputs (replicate n would_block ++ r ∷ reads) t ≡ some (record t { armed = true })
unfolding on_poll_in
unusable_read_rearms inputs n r reads t piped bad =
    if-true _ _ piped
    ∙ blocked inputs n (r ∷ reads) t
    ∙ unusable inputs r reads t bad
    ∙ rearmed inputs t piped

-- A turn of the thread and the read of what it sent.
abbrev pub turn_and_read :
    DisplayInputs → Option VblankScheduleTime → ℕ → DisplayInputs → VblankTimer → Option VblankTimer
turn_and_read inputs frame_sync wakeup later t = do
  (sent, u) ← nudge_thread_turn inputs frame_sync wakeup true t
  time ← sent
  on_poll_in later (received time ∷ []) u

-- With the nudge pipe and a connector: an unusable read is followed by a turn of the thread of a running
-- timer that sends the schedule of FrameSync, and its time is the one that waits when it is read within a
-- millisecond; the timer is disarmed then.
pub unusable_read_recovers :
    (inputs : DisplayInputs) (n : ℕ) (r : ReadResult) (reads : List ReadResult) (t : VblankTimer)
    (schedule : VblankScheduleTime) (wakeup : ℕ) (later : DisplayInputs)
    → t.nudge_pipe ≡ true
    → t.running ≡ true
    → IsUnusable inputs r
    → wakeup ≤ later.now
    → later.now ≤ wakeup + 1_000_000
    → IsU64 later.now
    → (on_poll_in inputs (replicate n would_block ++ r ∷ reads) t
        >>= turn_and_read inputs (some schedule) wakeup later)
      ≡ some (record t {
        armed = false;
        pending_vblank = some (record { schedule = schedule; wakeup_time = wakeup });
      })
unfolding nudge_thread_turn on_poll_in read_nudges
unusable_read_recovers inputs n r reads t schedule wakeup later piped running bad after soon word =
    let fresh : ltb 1_000_000 (sub_u64 later.now wakeup) ≡ false = ground arith in
    ap (◌>>= turn_and_read inputs (some schedule) wakeup later)
      (unusable_read_rearms inputs n r reads t piped bad)
    ∙ rw (running, piped, fresh) refl
