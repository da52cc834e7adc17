-- ===== src/Framegen/Shed.antt =====
-- plan_bidir_queue_shed of src/framegen/deadline.hpp. The vectors `entries` and `removed` are one
-- list of marked entries, an index is a position in it, and each loop is a function.
pub mod Count
pub mod Capacity
pub mod Oldest
pub mod Newer
pub mod Candidate
pub mod Sorted
pub mod Chosen
mod Examples
use gamescope.Common.{
  Bool, List, Option, [], false, if◌then◌else◌, leb, length, ltb, map, none, not, some, suc, true,
  zero, ℕ, ◌&&◌, ◌++◌, ◌+◌, ◌-◌, ◌==◌, ◌||◌, ◌∷◌,
}

pub data BidirSlotKind : Type 0 where
  generated real_endpoint : BidirSlotKind

unfoldable pub is_endpoint : BidirSlotKind → Bool
is_endpoint generated = false
is_endpoint real_endpoint = true

pub record BidirQueueEntry : Type 0 where
  pub kind : BidirSlotKind
  pub target_ns : ℕ
  pub real_frame_id : ℕ

pub record BidirQueueShedPlan : Type 0 where
  pub indices : List ℕ
  pub newest_retained_endpoint : Option ℕ
  pub generated_count : ℕ
  pub endpoint_count : ℕ

-- An entry, and whether it is removed.
pub record Marked : Type 0 where
  pub entry : BidirQueueEntry
  pub removed : Bool

abbrev pub unmarked : List BidirQueueEntry → List Marked
unmarked = map (λ e. record { entry = e; removed = false })

abbrev pub is_live_endpoint : Marked → Bool
is_live_endpoint m = not m.removed && is_endpoint m.entry.kind

-- The first loop, from index `i` with `remaining` entries left over all: generated entries go, the
-- oldest first, until the capacity is met.
pub shed_generated : ℕ → ℕ → ℕ → List Marked → List Marked × List ℕ
shed_generated capacity i remaining [] = ([], [])
shed_generated capacity i remaining (m ∷ ms) =
    let sheds = ltb capacity remaining && not (is_endpoint m.entry.kind) in
    let (ms', is) =
      shed_generated capacity (i + 1) (if sheds then remaining - 1 else remaining) ms in
    if sheds then (record m { removed = true } ∷ ms', i ∷ is) else (m ∷ ms', is)

-- Whether some entry, from index `j` on, is a newer endpoint for the target of entry `i`.
pub has_newer : ℕ → BidirQueueEntry → ℕ → List Marked → Bool
has_newer i e j [] = false
has_newer i e j (m ∷ ms) =
    (is_live_endpoint m
      && (m.entry.target_ns == e.target_ns
          && (ltb e.real_frame_id m.entry.real_frame_id
              || (m.entry.real_frame_id == e.real_frame_id && ltb i j))))
    || has_newer i e (j + 1) ms

-- The first endpoint, from index `i` on, that has a newer one in the whole list.
pub find_duplicate : List Marked → ℕ → List Marked → Option ℕ
find_duplicate all i [] = none
find_duplicate all i (m ∷ ms) =
    if is_live_endpoint m && has_newer i m.entry 0 all
    then some i
    else find_duplicate all (i + 1) ms

-- The first endpoint from index `i` on.
pub find_endpoint : ℕ → List Marked → Option ℕ
find_endpoint i [] = none
find_endpoint i (m ∷ ms) = if is_live_endpoint m then some i else find_endpoint (i + 1) ms

pub find_candidate : List Marked → Option ℕ
unfolding find_duplicate
find_candidate all = elim (find_duplicate all 0 all) [
  | some i ↦ some i
  | none ↦ find_endpoint 0 all
]

-- removed[ i ] = true
pub mark : ℕ → List Marked → List Marked
mark i [] = []
mark zero (m ∷ ms) = record m { removed = true } ∷ ms
mark (suc i) (m ∷ ms) = m ∷ mark i ms

-- The `while` loop, on fuel; a round removes one entry, so the caller gives as much as entries.
pub shed_endpoints : ℕ → ℕ → ℕ → List Marked → List Marked × List ℕ
shed_endpoints zero capacity remaining ms = (ms, [])
shed_endpoints (suc fuel) capacity remaining ms = elim (ltb capacity remaining) [
  | false ↦ (ms, [])
  | true ↦ elim (find_candidate ms) [
    | none ↦ (ms, [])
    | some i ↦
        let (ms', is) = shed_endpoints fuel capacity (remaining - 1) (mark i ms) in (ms', i ∷ is)
  ]
]

-- The last loop: the newest endpoint so far, as its index and its frame id.
pub newest_endpoint : ℕ → Option (ℕ × ℕ) → List Marked → Option (ℕ × ℕ)
newest_endpoint i best [] = best
newest_endpoint i best (m ∷ ms) =
    let keeps : Bool = elim best [ none ↦ true | some (j, id) ↦ leb id m.entry.real_frame_id ] in
    newest_endpoint (i + 1)
      (if is_live_endpoint m && keeps then some (i, m.entry.real_frame_id) else best) ms

abbrev index_of_best : Option (ℕ × ℕ) → Option ℕ
index_of_best none = none
index_of_best (some (i, id)) = some i

-- std::sort
pub insert_sorted : ℕ → List ℕ → List ℕ
insert_sorted n [] = n ∷ []
insert_sorted n (x ∷ xs) = if leb n x then n ∷ x ∷ xs else x ∷ insert_sorted n xs

pub sort : List ℕ → List ℕ
sort [] = []
sort (x ∷ xs) = insert_sorted x (sort xs)

abbrev nothing_shed : BidirQueueShedPlan
nothing_shed = record {
  indices = [];
  newest_retained_endpoint = none;
  generated_count = 0;
  endpoint_count = 0;
}

-- The two shedding loops after one another.
pub shed_all : List BidirQueueEntry → ℕ → List Marked × List ℕ × List ℕ
shed_all entries capacity =
    let size = length entries in
    let (ms, gone) = shed_generated capacity 0 size (unmarked entries) in
    let (ms', ends) = shed_endpoints size capacity (size - length gone) ms in (ms', gone, ends)

pub plan_bidir_queue_shed : List BidirQueueEntry → ℕ → BidirQueueShedPlan
unfolding sort
plan_bidir_queue_shed entries capacity =
    let (ms, gone, ends) = shed_all entries capacity in
    if leb (length entries) capacity then nothing_shed else record {
      indices = sort (gone ++ ends);
      newest_retained_endpoint = index_of_best (newest_endpoint 0 none ms);
      generated_count = length gone;
      endpoint_count = length ends;
    }
