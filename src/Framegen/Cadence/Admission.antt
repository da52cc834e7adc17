-- ===== src/Framegen/Cadence/Admission.antt =====
-- When the admission test of src/framegen/scheduling.hpp withholds the backup.
use gamescope.Common.{IsU64, arith, false, true, ℕ, ◌+◌, ◌<◌, ◌↔◌, ◌≡◌, ◌≤◌}
use gamescope.Framegen.Cadence.{
  CadencePredictorState, arrival_guard_ns, cadence_arrival_guard_min_ns,
  cadence_predictor_min_samples, fixed_cadence_admission, predicted_cadence_interval_ns,
  saturating_add_ns,
}

-- All inputs are known: no timestamp is 0, and the predictor has an interval.
abbrev pub AreKnown : ℕ → CadencePredictorState → ℕ → ℕ → ℕ → Type 0
AreKnown source s now target vblank =
    (1 ≤ source) × (1 ≤ predicted_cadence_interval_ns s) × (1 ≤ now) × (1 ≤ target) × (1 ≤ vblank)

-- The instant that the learned cadence protects: source plus interval plus late error plus guard.
abbrev pub protected_ready : ℕ → CadencePredictorState → ℕ → ℕ
protected_ready source s vblank =
    source + predicted_cadence_interval_ns s + (s.late_error_ns + arrival_guard_ns vblank)

-- For a target and a now in uint64_t, the backup is withheld exactly if everything is known, four
-- samples were seen, and the protected instant lies after now and before the target.
pub withheld_iff :
    (source : ℕ) (s : CadencePredictorState) (now target vblank : ℕ)
    → IsU64 target
    → IsU64 now
    → ((fixed_cadence_admission source s now target vblank).generate_backup ≡ false) ↔ (
        AreKnown source s now target vblank
        × (cadence_predictor_min_samples ≤ s.samples)
        × (now < protected_ready source s vblank)
        × (protected_ready source s vblank < target))
unfolding fixed_cadence_admission saturating_add_ns
withheld_iff source s now target vblank ht hn = ground arith

-- A withheld backup has exact times: for a target in uint64_t, if the backup is withheld then ready
-- time, margin and headroom add up to the target, the headroom is positive, the predictor is
-- trained, the prediction is not overdue, the ready time is source plus interval, and the margin
-- has at least the guard's minimum.
withheld_exact :
    (source : ℕ) (s : CadencePredictorState) (now target vblank : ℕ)
    → IsU64 target
    → (fixed_cadence_admission source s now target vblank).generate_backup ≡ false
    → let a = fixed_cadence_admission source s now target vblank in
      (a.predicted_ready_ns + a.safety_margin_ns + a.deadline_headroom_ns ≡ target)
      × (1 ≤ a.deadline_headroom_ns)
      × (a.trained ≡ true)
      × (a.prediction_overdue ≡ false)
      × (a.predicted_ready_ns ≡ source + predicted_cadence_interval_ns s)
      × (cadence_arrival_guard_min_ns ≤ a.safety_margin_ns)
unfolding fixed_cadence_admission saturating_add_ns arrival_guard_ns
withheld_exact source s now target vblank ht e = ground arith
