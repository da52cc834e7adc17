-- ===== src/Framegen/QueryRing.antt =====
-- The ring of GPU timestamp queries: select_query_ring_slot of src/framegen/query_ring.hpp. The
-- occupied mask is a uint64_t, read bit by bit.
pub mod Selection
mod Examples
use gamescope.Common.{
  Bool, Option, if◌then◌else◌, ltb, none, some, suc, zero, ℕ, ◌%◌, ◌+◌, ◌/◌, ◌==◌, ◌^◌, ◌||◌,
}

pub record QueryRingSelection : Type 0 where
  pub slot : ℕ
  pub next_head : ℕ

-- ( occupiedMask & ( 1 << slot ) ) == 0
pub is_free : ℕ → ℕ → Bool
is_free mask slot = mask / 2 ^ slot % 2 == 0

-- The loop, from probe number `probe` on, with `left` probes to go.
pub probe_slots : ℕ → ℕ → ℕ → ℕ → ℕ → Option QueryRingSelection
probe_slots zero probe head depth mask = none
probe_slots (suc left) probe head depth mask =
    let slot = (head + probe) % depth in
    let rest = probe_slots left (probe + 1) head depth mask in
    if is_free mask slot
    then some (record { slot = slot; next_head = (slot + 1) % depth })
    else rest

pub select_query_ring_slot : ℕ → ℕ → ℕ → Option QueryRingSelection
select_query_ring_slot head depth mask =
    if depth == 0 || ltb 64 depth then none else probe_slots depth 0 (head % depth) depth mask
