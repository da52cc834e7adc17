-- ===== src/Framegen/QueryRing/Examples.antt =====
-- A ring of four queries, of which slots 2 and 3 are occupied.
use gamescope.Common.{none, refl, ◌≡◌}
use gamescope.Framegen.QueryRing.{is_free, probe_slots, select_query_ring_slot}

full_ring : select_query_ring_slot 2 4 15 ≡ none
unfolding select_query_ring_slot probe_slots is_free
full_ring = refl
