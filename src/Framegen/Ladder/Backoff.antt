-- ===== src/Framegen/Ladder/Backoff.antt =====
-- The wait of the recovery controller (src/framegen/scheduling.hpp) over failed and survived climbs.
use native.Mathlib.Nat.{pow-suc}
use gamescope.Common.{
  List, [], arith, if◌then◌else◌, leb, length, max, min, refl, suc, zero, ℕ, ◌&&◌, ◌*◌, ◌-◌, ◌/◌,
  ◌==◌, ◌^◌, ◌∷◌, ◌≡◌, ◌≤◌,
}
use gamescope.Framegen.Ladder.{
  RecoveryState, commit_ladder_recovery, evaluate_ladder_recovery, note_ladder_recovery_degradation,
  scene_reset,
}
use gamescope.Framegen.Ladder.Recovery.{Observation, evaluate}

-- A climb that degrades again while its probation runs.
failed_probe : RecoveryState → RecoveryState
failed_probe s = note_ladder_recovery_degradation (commit_ladder_recovery s)

pub failed_probes : ℕ → RecoveryState
failed_probes zero = scene_reset
failed_probes (suc k) = failed_probe (failed_probes k)

-- The observations of a probation, in order.
pub observe_all : RecoveryState → List Observation → RecoveryState
observe_all s [] = s
observe_all s (o ∷ os) = observe_all (evaluate s o).state os

failed_probe_backoff :
    (s : RecoveryState)
    → s.backoff_decisions ≤ 2700
    → (failed_probe s).backoff_decisions ≡ min 2700 (s.backoff_decisions * 2)
unfolding failed_probe note_ladder_recovery_degradation commit_ladder_recovery
failed_probe_backoff s h = ground arith

-- After k climbs of a scene that each degraded during probation, the wait is 90 * 2 ^ k decisions, up
-- to 2700.
failed_probes_backoff : (k : ℕ) → (failed_probes k).backoff_decisions ≡ min 2700 (90 * 2 ^ k)
unfolding failed_probes
failed_probes_backoff zero = refl
failed_probes_backoff (suc k) =
    rw (pow-suc 2 k)
      (omega (arith, failed_probes_backoff k, failed_probe_backoff (failed_probes k)))

observe_one :
    (s : RecoveryState) (o : Observation)
    → ((evaluate s o).state.probation_remaining ≡ s.probation_remaining - 1)
      × ((evaluate s o).state.backoff_decisions ≡ (
          if s.probation_remaining == 1
          then max 90 (s.backoff_decisions / 2)
          else s.backoff_decisions))
unfolding evaluate_ladder_recovery
observe_one s o = ground arith

observe_all_probation :
    (s : RecoveryState) (os : List Observation)
    → length os ≤ s.probation_remaining
    → ((observe_all s os).probation_remaining ≡ s.probation_remaining - length os)
      × ((observe_all s os).backoff_decisions ≡ (
          if leb 1 (length os) && (length os == s.probation_remaining)
          then max 90 (s.backoff_decisions / 2)
          else s.backoff_decisions))
unfolding observe_all
observe_all_probation s [] h = ground arith
observe_all_probation s (o ∷ os) h =
    ground (arith, observe_one s o, observe_all_probation (evaluate s o).state os)

-- In the first 225 observations after a climb each takes one decision off the probation; the last
-- halves the wait, down to 90, and before it the wait is unchanged.
probation_survived :
    (s : RecoveryState) (os : List Observation)
    → length os ≤ 225
    → let t = observe_all (commit_ladder_recovery s) os in
      (t.probation_remaining ≡ 225 - length os)
      × (t.backoff_decisions
          ≡ (if length os == 225 then max 90 (s.backoff_decisions / 2) else s.backoff_decisions))
unfolding commit_ladder_recovery
probation_survived s os h = ground (arith, observe_all_probation (commit_ladder_recovery s) os)
