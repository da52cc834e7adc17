-- ===== src/Framegen/Cadence/Examples.antt =====
-- Runs of the cadence predictor and of the admission test.
use gamescope.Common.{List, [], arith, false, ℕ, ◌<◌, ◌↔◌, ◌∷◌, ◌≡◌, ◌≤◌}
use gamescope.Common.Int.{clamp_ℤ, div_ℤ, max_ℤ, mul_ℤ, neg_ℤ, of_i64, pos, to_i64, ◌+ℤ◌, ◌-ℤ◌}
use gamescope.Framegen.Cadence.{
  CadencePredictorState, bounded_sample, cadence_predictor_min_samples, fixed_cadence_admission,
  initial, late_error_of, posterior_of, predicted_cadence_interval_ns, residual_of, trend_of,
  update_cadence_predictor,
}
use gamescope.Framegen.Cadence.Admission.{AreKnown, protected_ready, withheld_iff}
use gamescope.Framegen.Cadence.Bounds.{IsTracked, run}
use gamescope.Framegen.Cadence.Steady.{NoOverflow, run-NoOverflow}

abbrev film : CadencePredictorState
film = record { interval_ns = 16_666_667; trend_ns = pos 0; late_error_ns = 20; samples = 5 }

withheld_iff_example :
    ((fixed_cadence_admission 1_000_000_000 film 1_000_000_000 1_030_000_000
        16_666_667).generate_backup
      ≡ false)
    ↔ (AreKnown 1_000_000_000 film 1_000_000_000 1_030_000_000 16_666_667
        × (cadence_predictor_min_samples ≤ film.samples)
        × (1_000_000_000 < protected_ready 1_000_000_000 film 16_666_667)
        × (protected_ready 1_000_000_000 film 16_666_667 < 1_030_000_000))
withheld_iff_example =
    withheld_iff 1_000_000_000 film 1_000_000_000 1_030_000_000 16_666_667 (omega arith)
      (omega arith)

-- 250 ms of history, and samples of which one is late.
abbrev samples : List ℕ
samples = 16_666_667 ∷ 16_666_667 ∷ 33_333_334 ∷ []

run-NoOverflow_example :
    IsTracked 250_000_000 (run initial samples)
    × NoOverflow 250_000_000 (omega arith) (omega arith) (run initial samples) 16_666_667
unfolding run update_cadence_predictor bounded_sample residual_of posterior_of trend_of
    late_error_of predicted_cadence_interval_ns to_i64 of_i64 clamp_ℤ max_ℤ div_ℤ mul_ℤ neg_ℤ ◌+ℤ◌
    ◌-ℤ◌
run-NoOverflow_example =
    run-NoOverflow 250_000_000 (omega arith) (omega arith) samples 16_666_667 (omega arith)
      (omega arith) (omega arith)
