-- ===== src/Framegen/Ladder/Examples.antt =====
-- Runs of the deadline ladder and of its recovery.
use gamescope.Common.{
  List, [], arith, false, not, refl, replicate, take, true, ◌&&◌, ◌<◌, ◌↔◌, ◌∷◌, ◌≡◌, ◌≤◌, ◌⊎◌,
}
use gamescope.Framegen.Ladder.{
  DeadlineLadderState, LadderRungCost, advance_ladder_recovery_decision, deadline_budget_ns,
  deadline_recovery_headroom, evaluate_deadline_ladder, evaluate_deadline_miss_hysteresis,
  evaluate_ladder_recovery, fixed_refresh_slot_budget_ns, percent_of,
  saturating_increment_decisions, select_ladder_recovery_target,
}
use gamescope.Framegen.Ladder.Budget.{recovery_does_not_flap}
use gamescope.Framegen.Ladder.Miss.{encode, hysteresis_window, misses_in}
use gamescope.Framegen.Ladder.Recovery.{
  Event, Observation, after, decisions_since, headroom_run, last_was_climb, observed,
  recovery_needs_evidence, step,
}
use gamescope.Framegen.Ladder.Target.{Sound, select_target-Sound}

-- A rung with headroom: 2 ms of a budget of 12 ms, three samples.
abbrev cheap : Observation
cheap = record {
  degrade_steps = 1;
  hold_frames = 0;
  cost_ns = 2_000_000;
  samples = 3;
  richer_cost_ns = 4_000_000;
  richer_samples = 3;
  budget_ns = 12_000_000;
}

abbrev scene : List Event
scene = replicate 89 (observed cheap)

recovery_needs_evidence_example :
    (cheap.hold_frames ≡ 0)
    × (90 ≤ headroom_run (observed cheap ∷ scene))
    × (90 ≤ decisions_since (observed cheap ∷ scene))
    × ((last_was_climb scene ≡ false) ⊎ (225 ≤ decisions_since (observed cheap ∷ scene)))
unfolding after step evaluate_ladder_recovery advance_ladder_recovery_decision
    saturating_increment_decisions deadline_recovery_headroom percent_of deadline_budget_ns
recovery_needs_evidence_example = recovery_needs_evidence scene cheap refl

hysteresis_window_example :
    let e =
      evaluate_deadline_miss_hysteresis (encode (false ∷ true ∷ [])) true false 0 0 16_000_000 in
    let w' = take 16 ((true && not false) ∷ false ∷ true ∷ []) in
    (e.recent_misses ≡ encode w')
    × ((e.degrade ≡ true) ↔ (
        (true ≡ true)
        × (false ≡ false)
        × (((1 ≤ 0) × (3 ≤ 0) × (16_000_000 < 0)) ⊎ (2 ≤ misses_in w'))))
    × ((e.skip ≡ true) ↔ ((true ≡ true) × (e.degrade ≡ false)))
hysteresis_window_example =
    hysteresis_window (false ∷ true ∷ []) true false 0 0 16_000_000 (omega arith)

abbrev rested : DeadlineLadderState
rested = record { degrade_steps = 1; hold_frames = 0 }

recovery_does_not_flap_example :
    ((evaluate_deadline_ladder rested 4 2_000_000 3 16_666_667).try_degrade ≡ false)
    × ((evaluate_deadline_ladder rested 4 4_000_000 3 16_666_667).try_degrade ≡ false)
unfolding deadline_recovery_headroom fixed_refresh_slot_budget_ns deadline_budget_ns percent_of
recovery_does_not_flap_example =
    recovery_does_not_flap 2_000_000 3 4_000_000 3 16_666_667 1_000_000 500_000 4 rested rested
      (omega arith) (omega arith) (omega arith) refl

abbrev costs : List LadderRungCost
costs =
    record { cost_ns = 9_000_000; samples = 3 }
    ∷ record { cost_ns = 5_000_000; samples = 3 }
    ∷ record { cost_ns = 2_000_000; samples = 3 }
    ∷ []

select_target-Sound_example :
    Sound costs 2 6_000_000 (omega arith) (select_ladder_recovery_target costs 2 6_000_000)
select_target-Sound_example = select_target-Sound costs 2 6_000_000 (omega arith)
