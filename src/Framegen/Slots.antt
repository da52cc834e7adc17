-- ===== src/Framegen/Slots.antt =====
-- plan_bidir_slots of src/framegen/deadline.hpp: the fixed-delay timeline of generated slots and
-- real endpoints. The slots are a list in the order of their targets, and std::lower_bound on it is
-- a walk to the first entry that is not earlier. Floating point is the parameter `F`.
pub mod Timeline
pub mod Density
mod Examples
use gamescope.Common.{
  Bool, List, [], false, get_or, if◌then◌else◌, leb, length, ltb, min, not, suc, true, zero, ℕ,
  ◌&&◌, ◌*◌, ◌+◌, ◌-◌, ◌/◌, ◌==◌, ◌||◌, ◌∷◌,
}
use gamescope.Framegen.Bidir.{BidirEpoch, endpoint_display_time}
use gamescope.Framegen.Floats.{Floats}
use gamescope.Framegen.Grid.{DisplayGrid, grid_index_at_or_after, target, wake}
use gamescope.Framegen.Shed.{BidirSlotKind, generated, is_endpoint, real_endpoint}

pub record BidirEndpoint : Type 0 where
  pub real_frame_id : ℕ
  pub source_ready_ns : ℕ

-- The grid indices between two endpoints, `left` of them from `n` on, whose targets lie strictly
-- between the two times.
pub candidates_from : DisplayGrid → ℕ → ℕ → ℕ → ℕ → List ℕ
candidates_from grid previous ideal zero n = []
candidates_from grid previous ideal (suc left) n =
    let rest = candidates_from grid previous ideal left (n + 1) in
    if ltb previous (target grid n) && ltb (target grid n) ideal then n ∷ rest else rest

-- The candidate that the i-th selected slot takes, of `size` candidates.
pub candidate_index : ℕ → ℕ → ℕ → ℕ → ℕ
candidate_index size ceiling selected i =
    if leb size ceiling then i else (2 * i + 1) * size / (2 * selected)

module _ (F : Floats) where
  open F use {Double, double_of, div_double}

  pub record BidirSlot : Type 0 where
    pub target_ns : ℕ
    pub wake_ns : ℕ
    pub phase : Double
    pub reference_frame_id : ℕ
    pub endpoint_frame_id : ℕ
    pub kind : BidirSlotKind

  pub record BidirPlan : Type 0 where
    pub slots : List BidirSlot
    pub valid_epoch : Bool

  -- Whether a slot replaces an entry of the same target.
  pub takes_over : BidirSlot → BidirSlot → Bool
  takes_over slot entry =
      is_endpoint slot.kind
      && (not (is_endpoint entry.kind) || leb entry.endpoint_frame_id slot.endpoint_frame_id)

  -- insertSlot
  pub insert_slot : BidirSlot → List BidirSlot → List BidirSlot
  insert_slot slot [] = slot ∷ []
  insert_slot slot (entry ∷ entries) =
      let rest = insert_slot slot entries in
      if ltb entry.target_ns slot.target_ns
      then entry ∷ rest
      else if entry.target_ns == slot.target_ns
      then (if takes_over slot entry then slot ∷ entries else entry ∷ entries)
      else slot ∷ entry ∷ entries

  -- The slot of a real endpoint at refresh `n`.
  pub endpoint_slot : DisplayGrid → ℕ → BidirEndpoint → BidirSlot
  endpoint_slot grid n endpoint = record {
    target_ns = target grid n;
    wake_ns = wake grid n;
    phase = double_of 1;
    reference_frame_id = 0;
    endpoint_frame_id = endpoint.real_frame_id;
    kind = real_endpoint;
  }

  -- A generated slot at refresh `n` between two endpoints.
  pub generated_slot : DisplayGrid → BidirEpoch → BidirEndpoint → BidirEndpoint → ℕ → BidirSlot
  generated_slot grid epoch from to n =
      let previous = endpoint_display_time epoch from.source_ready_ns in
      let ideal = endpoint_display_time epoch to.source_ready_ns in
      record {
        target_ns = target grid n;
        wake_ns = wake grid n;
        phase = div_double (double_of (target grid n - previous)) (double_of (ideal - previous));
        reference_frame_id = from.real_frame_id;
        endpoint_frame_id = to.real_frame_id;
        kind = generated;
      }

  -- The candidates of an interval.
  pub candidates : DisplayGrid → BidirEpoch → BidirEndpoint → BidirEndpoint → List ℕ
  candidates grid epoch from to =
      let previous = endpoint_display_time epoch from.source_ready_ns in
      let ideal = endpoint_display_time epoch to.source_ready_ns in
      let first = grid_index_at_or_after grid previous + 1 in
      candidates_from grid previous ideal (grid_index_at_or_after grid ideal - first) first

  -- The loop over the selected slots, `left` of them from the i-th on.
  pub insert_selected :
      DisplayGrid
      → BidirEpoch
      → BidirEndpoint
      → BidirEndpoint
      → List ℕ
      → ℕ
      → ℕ
      → ℕ
      → ℕ
      → List BidirSlot
      → List BidirSlot
  insert_selected grid epoch from to found ceiling selected zero i slots = slots
  insert_selected grid epoch from to found ceiling selected (suc left) i slots =
      let n = get_or found (candidate_index (length found) ceiling selected i) 0 in
      insert_selected grid epoch from to found ceiling selected left (i + 1)
        (insert_slot (generated_slot grid epoch from to n) slots)

  -- The generated slots of one interval.
  pub insert_generated :
      DisplayGrid → BidirEpoch → ℕ → BidirEndpoint → BidirEndpoint → List BidirSlot → List BidirSlot
  insert_generated grid epoch multiplier from to slots =
      let found = candidates grid epoch from to in
      let ceiling = multiplier - 1 in
      let selected = min (length found) ceiling in
      insert_selected grid epoch from to found ceiling selected selected 0 slots

  -- One round of the loop over the endpoints.
  pub insert_interval :
      DisplayGrid → BidirEpoch → ℕ → BidirEndpoint → BidirEndpoint → List BidirSlot → List BidirSlot
  insert_interval grid epoch multiplier from to slots =
      let previous = endpoint_display_time epoch from.source_ready_ns in
      let ideal = endpoint_display_time epoch to.source_ready_ns in
      if leb ideal previous
      then slots
      else insert_slot (endpoint_slot grid (grid_index_at_or_after grid ideal) to)
          (insert_generated grid epoch multiplier from to slots)

  pub insert_intervals :
      DisplayGrid
      → BidirEpoch
      → ℕ
      → BidirEndpoint
      → List BidirEndpoint
      → List BidirSlot
      → List BidirSlot
  insert_intervals grid epoch multiplier from [] slots = slots
  insert_intervals grid epoch multiplier from (to ∷ more) slots =
      insert_intervals grid epoch multiplier to more
        (insert_interval grid epoch multiplier from to slots)

  -- The slots of an epoch that is valid, with the first endpoint first.
  pub timeline : DisplayGrid → BidirEpoch → ℕ → BidirEndpoint → List BidirEndpoint → List BidirSlot
  timeline grid epoch multiplier first more =
      let ideal = endpoint_display_time epoch first.source_ready_ns in
      insert_intervals grid epoch multiplier first more
        (insert_slot (endpoint_slot grid (grid_index_at_or_after grid ideal) first) [])

  pub plan_bidir_slots : DisplayGrid → BidirEpoch → List BidirEndpoint → ℕ → ℕ → BidirPlan
  plan_bidir_slots grid epoch (first ∷ second ∷ more) multiplier grid_epoch =
      if (grid.t == 0 || (grid.d0 == 0 || grid.w0 == 0))
        || (not epoch.valid || (epoch.epoch == 0 || not (epoch.epoch == grid_epoch)))
      then record { slots = []; valid_epoch = false }
      else record {
        slots = timeline grid epoch multiplier first (second ∷ more);
        valid_epoch = true;
      }
  plan_bidir_slots grid epoch _ multiplier grid_epoch = record { slots = []; valid_epoch = false }
