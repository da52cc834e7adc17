-- ===== src/Framegen/Ladder/Recovery.antt =====
-- The recovery controller of src/framegen/scheduling.hpp over histories of events.
use gamescope.Common.{
  Bool, List, [], arith, false, if◌then◌else◌, not, suc, true, u32_max, ℕ, ◌&&◌, ◌+◌, ◌==◌, ◌∷◌,
  ◌≡◌, ◌≤◌, ◌⊎◌,
}
use gamescope.Framegen.Ladder.{
  LadderRecoveryEvaluation, RecoveryState, commit_ladder_recovery, deadline_recovery_headroom,
  evaluate_ladder_recovery, note_ladder_recovery_degradation, note_ladder_recovery_failure,
  recovery_base_backoff_decisions, recovery_max_backoff_decisions, recovery_probation_decisions,
  reset_ladder_recovery_streak, scene_reset,
}

-- What the renderer reports of one decision, besides the state.
pub record Observation : Type 0 where
  pub degrade_steps : ℕ
  pub hold_frames : ℕ
  pub cost_ns : ℕ
  pub samples : ℕ
  pub richer_cost_ns : ℕ
  pub richer_samples : ℕ
  pub budget_ns : ℕ

pub data Event : Type 0 where
  observed : Observation → Event
  failed reset degraded climbed : Event

abbrev pub evaluate : RecoveryState → Observation → LadderRecoveryEvaluation
evaluate s o =
    evaluate_ladder_recovery s o.degrade_steps o.hold_frames o.cost_ns o.samples o.richer_cost_ns
      o.richer_samples o.budget_ns

unfoldable pub step : RecoveryState → Event → RecoveryState
step s (observed o) = (evaluate s o).state
step s failed = note_ladder_recovery_failure s
step s reset = reset_ladder_recovery_streak s
step s degraded = note_ladder_recovery_degradation s
step s climbed = commit_ladder_recovery s

-- The state after a history of a scene, newest event first.
unfoldable pub after : List Event → RecoveryState
after [] = scene_reset
after (e ∷ h) = step (after h) e

-- The wait within a base and a maximum, the probation within its window, counters in uint32_t.
pub record IsSane (s : RecoveryState) : Type 0 where
  pub backoff_low : recovery_base_backoff_decisions ≤ s.backoff_decisions
  pub backoff_high : s.backoff_decisions ≤ recovery_max_backoff_decisions
  pub probation_in : s.probation_remaining ≤ recovery_probation_decisions
  pub clock_in : s.decisions_since_climb ≤ u32_max
  pub streak_in : s.streak ≤ u32_max

step-IsSane : (s : RecoveryState) (e : Event) → IsSane s → IsSane (step s e)
unfolding step evaluate_ladder_recovery note_ladder_recovery_failure reset_ladder_recovery_streak
    note_ladder_recovery_degradation commit_ladder_recovery
step-IsSane s (observed o) v = ground arith
step-IsSane s failed v = ground arith
step-IsSane s reset v = ground arith
step-IsSane s degraded v = ground arith
step-IsSane s climbed v = ground arith

-- After any history of a scene the wait is between its base and its maximum, the probation within its
-- window, and the counters within uint32_t.
after-IsSane : (h : List Event) → IsSane (after h)
unfolding after
after-IsSane [] = omega arith
after-IsSane (e ∷ h) = step-IsSane (after h) e (after-IsSane h)

-- An observation with headroom on a degraded rung.
abbrev has_headroom : Observation → Bool
has_headroom o =
    not (o.degrade_steps == 0)
    && deadline_recovery_headroom o.cost_ns o.samples o.richer_cost_ns o.richer_samples o.budget_ns

-- The newest observations with headroom, with no other event between them.
abbrev pub headroom_run : List Event → ℕ
headroom_run [] = 0
headroom_run (observed o ∷ h) = if has_headroom o then suc (headroom_run h) else 0
headroom_run (failed ∷ h) = 0
headroom_run (reset ∷ h) = 0
headroom_run (degraded ∷ h) = 0
headroom_run (climbed ∷ h) = 0

-- The decisions since the last climb or degradation, and whether that was a climb.
abbrev pub decisions_since : List Event → ℕ
decisions_since [] = 0
decisions_since (observed o ∷ h) = suc (decisions_since h)
decisions_since (failed ∷ h) = suc (decisions_since h)
decisions_since (reset ∷ h) = decisions_since h
decisions_since (degraded ∷ h) = 0
decisions_since (climbed ∷ h) = 0

abbrev pub last_was_climb : List Event → Bool
last_was_climb [] = false
last_was_climb (observed o ∷ h) = last_was_climb h
last_was_climb (failed ∷ h) = last_was_climb h
last_was_climb (reset ∷ h) = last_was_climb h
last_was_climb (degraded ∷ h) = false
last_was_climb (climbed ∷ h) = true

record IsCounted (h : List Event) : Type 0 where
  streak_le : (after h).streak ≤ headroom_run h
  clock_le : (after h).decisions_since_climb ≤ decisions_since h
  probation_ge :
      last_was_climb h ≡ true
      → recovery_probation_decisions ≤ (after h).probation_remaining + decisions_since h

after-IsCounted : (h : List Event) → IsCounted h
unfolding after step evaluate_ladder_recovery note_ladder_recovery_failure
    reset_ladder_recovery_streak note_ladder_recovery_degradation commit_ladder_recovery
after-IsCounted [] = ground arith
after-IsCounted (observed o ∷ h) = ground (arith, after-IsCounted h)
after-IsCounted (failed ∷ h) = ground (arith, after-IsCounted h)
after-IsCounted (reset ∷ h) = ground (arith, after-IsCounted h)
after-IsCounted (degraded ∷ h) = ground (arith, after-IsCounted h)
after-IsCounted (climbed ∷ h) = ground (arith, after-IsCounted h)

-- After any history, a climb is tried only with no hold, on at least 90 observations in a row with
-- headroom, this one included, with at least 90 decisions since the last climb or degradation, and
-- 225 if that was a climb.
pub recovery_needs_evidence :
    (h : List Event) (o : Observation)
    → (evaluate (after h) o).try_recover ≡ true
    → (o.hold_frames ≡ 0)
      × (90 ≤ headroom_run (observed o ∷ h))
      × (90 ≤ decisions_since (observed o ∷ h))
      × ((last_was_climb h ≡ false) ⊎ (225 ≤ decisions_since (observed o ∷ h)))
unfolding evaluate_ladder_recovery
recovery_needs_evidence h o e = ground (arith, after-IsCounted h, after-IsSane h)
