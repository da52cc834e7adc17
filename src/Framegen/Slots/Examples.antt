-- ===== src/Framegen/Slots/Examples.antt =====
-- A timeline of three endpoints on a grid of 60 Hz, with a source of 20 Hz.
use gamescope.Common.{List, [], map, refl, true, ◌∷◌, ◌≡◌}
use gamescope.Framegen.Bidir.{BidirEpoch, endpoint_display_time}
use gamescope.Framegen.Cadence.{saturating_add_ns}
use gamescope.Framegen.Floats.{thousandths}
use gamescope.Framegen.Grid.{DisplayGrid, grid_index_at_or_after, grid_point, target, wake}
use gamescope.Framegen.Shed.{is_endpoint}
use gamescope.Framegen.Slots.{
  BidirEndpoint, candidate_index, candidates, candidates_from, endpoint_slot, generated_slot,
  insert_generated, insert_interval, insert_intervals, insert_selected, insert_slot,
  plan_bidir_slots, takes_over, timeline,
}
use gamescope.Framegen.Slots.Timeline.{AscendFrom, Owned, plan-Owned}

abbrev sixty : DisplayGrid
sixty = record { d0 = 1_000_000_000; w0 = 998_000_000; t = 16_666_667 }

abbrev started : BidirEpoch
started = record {
  source_epoch_ns = 900_000_000;
  display_epoch_ns = 1_000_000_000;
  epoch = 1;
  valid = true;
}

abbrev reals : List BidirEndpoint
reals =
    record { real_frame_id = 1; source_ready_ns = 900_000_000 }
    ∷ record { real_frame_id = 2; source_ready_ns = 950_000_000 }
    ∷ record { real_frame_id = 3; source_ready_ns = 1_000_000_000 }
    ∷ []

plan-Owned_example :
    let slots = (plan_bidir_slots thousandths sixty started reals 2 1).slots in
    AscendFrom thousandths 0 slots × Owned thousandths sixty started 2 reals slots
unfolding plan_bidir_slots
plan-Owned_example = plan-Owned thousandths sixty started 2 reals 1 refl

-- Two intervals of two candidates each, of which a multiplier of 2 takes the second.
timeline_targets :
    map (λ s. s.target_ns) (plan_bidir_slots thousandths sixty started reals 2 1).slots
    ≡ 1_000_000_000 ∷ 1_033_333_334 ∷ 1_050_000_001 ∷ 1_083_333_335 ∷ 1_100_000_002 ∷ []
unfolding plan_bidir_slots timeline insert_intervals insert_interval insert_generated
    insert_selected candidates candidates_from candidate_index insert_slot takes_over endpoint_slot
    generated_slot endpoint_display_time saturating_add_ns target wake grid_point
    grid_index_at_or_after is_endpoint
timeline_targets = refl
