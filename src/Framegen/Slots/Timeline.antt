-- ===== src/Framegen/Slots/Timeline.antt =====
-- The order and the endpoints of the timeline (plan_bidir_slots, src/framegen/deadline.hpp).
use gamescope.Common.{
  Bool, Bool-cases, List, [], arith, get_or, inl, inr, leb, length, ltb, min, not, refl, suc, true,
  zero, ℕ, ◌+◌, ◌-◌, ◌==◌, ◌||◌, ◌∷◌, ◌≡◌, ◌≤◌, ◌⊎◌,
}
use gamescope.Framegen.Bidir.{BidirEpoch, endpoint_display_time}
use gamescope.Framegen.Floats.{Floats}
use gamescope.Framegen.Grid.{DisplayGrid, grid_index_at_or_after, target}
use gamescope.Framegen.Shed.{is_endpoint}
use gamescope.Framegen.Slots.{
  BidirEndpoint, BidirSlot, candidate_index, candidates, endpoint_slot, generated_slot,
  insert_generated, insert_interval, insert_intervals, insert_selected, insert_slot,
  plan_bidir_slots, takes_over, timeline,
}

module _ (F : Floats) where
  -- The targets ascend strictly, from a bound on.
  abbrev pub AscendFrom : ℕ → List (BidirSlot F) → Type 0
  AscendFrom bound [] = Unit
  AscendFrom bound (e ∷ es) = (bound ≤ e.target_ns) × AscendFrom (e.target_ns + 1) es

  -- A real endpoint owns the target.
  abbrev HasEndpoint : ℕ → List (BidirSlot F) → Type 0
  HasEndpoint t [] = ⊥
  HasEndpoint t (e ∷ es) = ((e.target_ns ≡ t) × (is_endpoint e.kind ≡ true)) ⊎ HasEndpoint t es

  insert-AscendFrom :
      (bound : ℕ) (slot : BidirSlot F) (es : List (BidirSlot F))
      → bound ≤ slot.target_ns
      → AscendFrom bound es
      → AscendFrom bound (insert_slot F slot es)
  unfolding insert_slot
  insert-AscendFrom bound slot [] h v = (h, tt)
  insert-AscendFrom bound slot (e ∷ es) h v = elim (Bool-cases (ltb e.target_ns slot.target_ns)) [
    | inl before ↦ rw before (v.0, insert-AscendFrom (e.target_ns + 1) slot es (ground arith) v.1)
    | inr after ↦ elim (Bool-cases (e.target_ns == slot.target_ns)) [
      | inl same ↦
          let here : e.target_ns ≡ slot.target_ns = ground arith in
          let rest : AscendFrom (slot.target_ns + 1) es = rw here at v.1 in
          elim (Bool-cases (takes_over F slot e)) [
            | inl over ↦ rw (after, same, over) (h, rest)
            | inr kept ↦ rw (after, same, kept) v
          ]
      | inr other ↦ rw (after, other) (h, (ground arith, v.1))
    ]
  ]

  -- Real endpoints stay, and an endpoint that is inserted owns its target.
  insert-HasEndpoint :
      (t : ℕ) (slot : BidirSlot F) (es : List (BidirSlot F))
      → HasEndpoint t es ⊎ ((slot.target_ns ≡ t) × (is_endpoint slot.kind ≡ true))
      → HasEndpoint t (insert_slot F slot es)
  unfolding insert_slot takes_over
  insert-HasEndpoint t slot [] h = ground arith
  insert-HasEndpoint t slot (e ∷ es) h = ground (arith, insert-HasEndpoint t slot es)

  module _ (grid : DisplayGrid) (epoch : BidirEpoch) (multiplier : ℕ) where
    -- A property of lists of slots that insertion keeps is kept by a whole interval.
    selected-AscendFrom :
        (from to : BidirEndpoint) (found : List ℕ) (ceiling selected left i : ℕ)
        (es : List (BidirSlot F))
        → AscendFrom 0 es
        → AscendFrom 0 (insert_selected F grid epoch from to found ceiling selected left i es)
    unfolding insert_selected
    selected-AscendFrom from to found ceiling selected zero i es v = v
    selected-AscendFrom from to found ceiling selected (suc left) i es v =
        let n = get_or found (candidate_index (length found) ceiling selected i) 0 in
        let slot = generated_slot F grid epoch from to n in
        selected-AscendFrom from to found ceiling selected left (i + 1) (insert_slot F slot es)
          (insert-AscendFrom 0 slot es (omega arith) v)

    selected-HasEndpoint :
        (t : ℕ) (from to : BidirEndpoint) (found : List ℕ) (ceiling selected left i : ℕ)
        (es : List (BidirSlot F))
        → HasEndpoint t es
        → HasEndpoint t (insert_selected F grid epoch from to found ceiling selected left i es)
    unfolding insert_selected
    selected-HasEndpoint t from to found ceiling selected zero i es h = h
    selected-HasEndpoint t from to found ceiling selected (suc left) i es h =
        let n = get_or found (candidate_index (length found) ceiling selected i) 0 in
        let slot = generated_slot F grid epoch from to n in
        selected-HasEndpoint t from to found ceiling selected left (i + 1) (insert_slot F slot es)
          (insert-HasEndpoint t slot es (inl h))

    -- The target of an endpoint: the first refresh that is not earlier than its display time.
    abbrev endpoint_target : BidirEndpoint → ℕ
    endpoint_target e =
        target grid (grid_index_at_or_after grid (endpoint_display_time epoch e.source_ready_ns))

    abbrev display : BidirEndpoint → ℕ
    display e = endpoint_display_time epoch e.source_ready_ns

    abbrev skips : BidirEndpoint → BidirEndpoint → Bool
    skips from to = leb (display to) (display from)

    abbrev own_slot : BidirEndpoint → BidirSlot F
    own_slot to = endpoint_slot F grid (grid_index_at_or_after grid (display to)) to

    abbrev between : BidirEndpoint → BidirEndpoint → List (BidirSlot F) → List (BidirSlot F)
    between from to es = insert_generated F grid epoch multiplier from to es

    abbrev count : BidirEndpoint → BidirEndpoint → ℕ
    count from to = min (length (candidates F grid epoch from to)) (multiplier - 1)

    abbrev refuses : ℕ → Bool
    refuses grid_epoch =
        (grid.t == 0 || (grid.d0 == 0 || grid.w0 == 0))
        || (not epoch.valid || (epoch.epoch == 0 || not (epoch.epoch == grid_epoch)))

    interval-AscendFrom :
        (from to : BidirEndpoint) (es : List (BidirSlot F))
        → AscendFrom 0 es
        → AscendFrom 0 (insert_interval F grid epoch multiplier from to es)
    unfolding insert_interval insert_generated
    interval-AscendFrom from to es v = elim (Bool-cases (skips from to)) [
      | inl stays ↦ rw stays v
      | inr goes ↦ rw goes (
          insert-AscendFrom 0 (own_slot to) (between from to es) (omega arith) (
            selected-AscendFrom from to (candidates F grid epoch from to) (multiplier - 1)
              (count from to) (count from to) 0 es v))
    ]

    interval-HasEndpoint :
        (t : ℕ) (from to : BidirEndpoint) (es : List (BidirSlot F))
        → HasEndpoint t es
        → HasEndpoint t (insert_interval F grid epoch multiplier from to es)
    unfolding insert_interval insert_generated
    interval-HasEndpoint t from to es h = elim (Bool-cases (skips from to)) [
      | inl stays ↦ rw stays h
      | inr goes ↦ rw goes (
          insert-HasEndpoint t (own_slot to) (between from to es) (
            inl (
              selected-HasEndpoint t from to (candidates F grid epoch from to) (multiplier - 1)
                (count from to) (count from to) 0 es h)))
    ]

    interval-own :
        (from to : BidirEndpoint) (es : List (BidirSlot F))
        → (display to ≤ display from)
          ⊎ HasEndpoint (endpoint_target to) (insert_interval F grid epoch multiplier from to es)
    unfolding insert_interval insert_generated endpoint_slot is_endpoint
    interval-own from to es = elim (Bool-cases (skips from to)) [
      | inl stays ↦ inl (ground arith)
      | inr goes ↦ inr (
          rw goes (
            insert-HasEndpoint (endpoint_target to) (own_slot to) (between from to es)
              (inr (refl, refl))))
    ]

    -- Each endpoint after the first either is displayed no later than the one before it, and is left
    -- out, or owns its target.
    abbrev OwnMore : BidirEndpoint → List BidirEndpoint → List (BidirSlot F) → Type 0
    OwnMore from [] slots = Unit
    OwnMore from (to ∷ more) slots =
        ((display to ≤ display from) ⊎ HasEndpoint (endpoint_target to) slots)
        × OwnMore to more slots

    abbrev pub Owned : List BidirEndpoint → List (BidirSlot F) → Type 0
    Owned [] slots = Unit
    Owned (first ∷ more) slots =
        HasEndpoint (endpoint_target first) slots × OwnMore first more slots

    intervals-AscendFrom :
        (from : BidirEndpoint) (more : List BidirEndpoint) (es : List (BidirSlot F))
        → AscendFrom 0 es
        → AscendFrom 0 (insert_intervals F grid epoch multiplier from more es)
    unfolding insert_intervals
    intervals-AscendFrom from [] es v = v
    intervals-AscendFrom from (to ∷ more) es v =
        intervals-AscendFrom to more (insert_interval F grid epoch multiplier from to es)
          (interval-AscendFrom from to es v)

    intervals-HasEndpoint :
        (t : ℕ) (from : BidirEndpoint) (more : List BidirEndpoint) (es : List (BidirSlot F))
        → HasEndpoint t es
        → HasEndpoint t (insert_intervals F grid epoch multiplier from more es)
    unfolding insert_intervals
    intervals-HasEndpoint t from [] es h = h
    intervals-HasEndpoint t from (to ∷ more) es h =
        intervals-HasEndpoint t to more (insert_interval F grid epoch multiplier from to es)
          (interval-HasEndpoint t from to es h)

    intervals-OwnMore :
        (from : BidirEndpoint) (more : List BidirEndpoint) (es : List (BidirSlot F))
        → OwnMore from more (insert_intervals F grid epoch multiplier from more es)
    unfolding insert_intervals
    intervals-OwnMore from [] es = tt
    intervals-OwnMore from (to ∷ more) es =
        let next = insert_interval F grid epoch multiplier from to es in
        (
          elim (interval-own from to es) [
            | inl out ↦ inl out
            | inr own ↦ inr (intervals-HasEndpoint (endpoint_target to) to more next own)
          ],
          intervals-OwnMore to more next,
        )

    -- In a plan with a valid epoch the targets of the slots ascend strictly, so no two slots share
    -- one. The first endpoint owns its target with a slot of a real endpoint, and so does every
    -- other endpoint that is displayed later than the one before it.
    pub plan-Owned :
        (endpoints : List BidirEndpoint) (grid_epoch : ℕ)
        → (plan_bidir_slots F grid epoch endpoints multiplier grid_epoch).valid_epoch ≡ true
        → let slots = (plan_bidir_slots F grid epoch endpoints multiplier grid_epoch).slots in
          AscendFrom 0 slots × Owned endpoints slots
    unfolding plan_bidir_slots timeline insert_slot endpoint_slot is_endpoint
    plan-Owned [] grid_epoch h = cc
    plan-Owned (e ∷ []) grid_epoch h = cc
    plan-Owned (first ∷ second ∷ more) grid_epoch h = elim (Bool-cases (refuses grid_epoch)) [
      | inl bad ↦ absurd (let none_valid = rw bad at h in cc)
      | inr good ↦
          let start : List (BidirSlot F) = own_slot first ∷ [] in
          rw good (
            intervals-AscendFrom first (second ∷ more) start (omega arith, tt),
            (
              intervals-HasEndpoint (endpoint_target first) first (second ∷ more) start
                  (inl (refl, refl)),
              intervals-OwnMore first (second ∷ more) start,
            ),
          )
    ]
