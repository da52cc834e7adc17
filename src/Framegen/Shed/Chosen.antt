-- ===== src/Framegen/Shed/Chosen.antt =====
-- Which entries plan_bidir_queue_shed of src/framegen/deadline.hpp sheds.
use gamescope.Common.{
  Bool-cases, List, [], ap, arith, inl, inr, length, leb, min, refl, subst, take, ℕ, ◌++◌, ◌+◌, ◌-◌,
  ◌∙◌, ◌≡◌,
}
use gamescope.Framegen.Shed.{
  BidirQueueEntry, plan_bidir_queue_shed, shed_all, shed_endpoints, shed_generated, unmarked,
}
use gamescope.Framegen.Shed.Candidate.{IsShedding, shed_endpoints-IsShedding}
use gamescope.Framegen.Shed.Capacity.{generated_entries, shed_counts}
use gamescope.Framegen.Shed.Oldest.{generated_places, shed_generated-Oldest, without_oldest}
use gamescope.Framegen.Shed.Sorted.{IsAscending, sort-IsAscending, times, times-append, times-sort}

-- A queue of n entries over a capacity c sheds n - c of them: the oldest generated entries, as many
-- as there are up to that number, and then, one at a time, the first live endpoint that a newer
-- live endpoint for the same target replaces (one of a newer frame, or of the same frame at a later
-- place), or, where none is replaced, the first live endpoint. The indices of the plan are the
-- places of these, each as often as it is shed, in ascending order, and its two counts are the
-- numbers of each kind. A queue that fits sheds nothing.
pub shed_in_order :
    (entries : List BidirQueueEntry) (capacity : ℕ)
    → let plan = plan_bidir_queue_shed entries capacity in
      let excess = length entries - capacity in
      let gone = take excess (generated_places 0 entries) in
      (ends : List ℕ) × IsShedding (without_oldest excess entries) ends
      × ((n : ℕ) → times n plan.indices ≡ times n gone + times n ends)
      × IsAscending plan.indices
      × (plan.generated_count ≡ length gone)
      × (plan.generated_count ≡ min (generated_entries entries) excess)
      × (plan.endpoint_count ≡ length ends)
      × (plan.generated_count + plan.endpoint_count ≡ excess)
      × (length plan.indices ≡ excess)
unfolding plan_bidir_queue_shed shed_all
shed_in_order entries capacity =
    let size = length entries in
    let (a, b, c) = shed_counts entries capacity in
    let (marks, places) = shed_generated-Oldest capacity 0 size entries in
    let first = shed_generated capacity 0 size (unmarked entries) in
    let ends = (shed_endpoints size capacity (size - length first.1) first.0).1 in
    let shed = shed_endpoints-IsShedding size capacity (size - length first.1) first.0 in
    let shed_oldest : IsShedding (without_oldest (size - capacity) entries) ends =
      subst (λ ms. IsShedding ms ends) marks shed in
    elim (Bool-cases (leb size capacity)) [
      | inl fits ↦
          let none_over : size - capacity ≡ 0 = ground arith in
          let none_gone : take (size - capacity) (generated_places 0 entries) ≡ [] =
            ap (λ n. take n (generated_places 0 entries)) none_over in
          rw fits (
            [],
            tt,
            λ n. rw none_gone refl,
            tt,
            rw none_gone refl,
            rw fits at a,
            refl,
            rw fits at b,
            rw fits at c,
          )
      | inr over ↦ (
        ends,
        shed_oldest,
        λ n. rw (over, ← places) (times-sort n (first.1 ++ ends) ∙ times-append n first.1 ends),
        rw over (sort-IsAscending (first.1 ++ ends)),
        rw (over, ← places) refl,
        a,
        rw over refl,
        b,
        c,
      )
    ]
