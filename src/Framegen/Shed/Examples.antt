-- ===== src/Framegen/Shed/Examples.antt =====
-- A queue of six entries that must lose four: two generated frames and two endpoints.
use gamescope.Common.{List, [], length, min, refl, some, ℕ, ◌+◌, ◌-◌, ◌∷◌, ◌≡◌}
use gamescope.Framegen.Shed.{
  BidirQueueEntry, find_candidate, find_duplicate, find_endpoint, has_newer, insert_sorted,
  is_endpoint, mark, newest_endpoint, plan_bidir_queue_shed, generated, real_endpoint, shed_all,
  shed_endpoints, shed_generated, sort,
}
use gamescope.Framegen.Shed.Candidate.{IsShedding}
use gamescope.Framegen.Shed.Chosen.{shed_in_order}
use gamescope.Framegen.Shed.Oldest.{without_oldest}
use gamescope.Framegen.Shed.Sorted.{IsAscending, times}

abbrev frame : ℕ → BidirQueueEntry
frame n = record { kind = generated; target_ns = n; real_frame_id = 0 }

abbrev endpoint : ℕ → ℕ → BidirQueueEntry
endpoint n id = record { kind = real_endpoint; target_ns = n; real_frame_id = id }

abbrev queue : List BidirQueueEntry
queue = endpoint 10 1 ∷ frame 20 ∷ endpoint 30 2 ∷ frame 40 ∷ endpoint 30 3 ∷ endpoint 50 4 ∷ []

shed_in_order_example :
    let p = plan_bidir_queue_shed queue 2 in
    let gone : List ℕ = 1 ∷ 3 ∷ [] in
    (ends : List ℕ) × IsShedding (without_oldest (6 - 2) queue) ends
    × ((n : ℕ) → times n p.indices ≡ times n gone + times n ends)
    × IsAscending p.indices
    × (p.generated_count ≡ 2)
    × (p.generated_count ≡ min 2 (6 - 2))
    × (p.endpoint_count ≡ length ends)
    × (p.generated_count + p.endpoint_count ≡ 6 - 2)
    × (length p.indices ≡ 6 - 2)
unfolding is_endpoint
shed_in_order_example = shed_in_order queue 2

-- The older endpoint for a target goes before the oldest one.
shed_order : (plan_bidir_queue_shed queue 2).indices ≡ 0 ∷ 1 ∷ 2 ∷ 3 ∷ []
unfolding plan_bidir_queue_shed shed_all shed_generated shed_endpoints find_candidate find_duplicate
    has_newer find_endpoint mark sort insert_sorted is_endpoint
shed_order = refl

shed_newest : (plan_bidir_queue_shed queue 2).newest_retained_endpoint ≡ some 5
unfolding plan_bidir_queue_shed shed_all shed_generated shed_endpoints find_candidate find_duplicate
    has_newer find_endpoint mark newest_endpoint is_endpoint
shed_newest = refl
