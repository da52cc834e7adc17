-- ===== src/Framegen/QueryRing/Selection.antt =====
-- Which slot the query ring selects (src/framegen/query_ring.hpp).
use native.Mathlib.Decide.{dec_lt}
use gamescope.Common.{
  Bool-cases, Option-cases, arith, false, inl, inr, none, some, suc, true, zero, ℕ, ◌%◌, ◌+◌, ◌-◌,
  ◌<◌, ◌≡◌, ◌≤◌, ◌⊎◌,
}
use gamescope.Framegen.Policy.{below}
use gamescope.Framegen.QueryRing.{QueryRingSelection, is_free, probe_slots, select_query_ring_slot}

-- The slot of a probe: round-robin from the head.
abbrev probed : ℕ → ℕ → ℕ → ℕ
probed head depth k = (head % depth + k) % depth

-- The first `k` probes all met an occupied slot.
abbrev AllOccupied : ℕ → ℕ → ℕ → ℕ → Type 0
AllOccupied head depth mask zero = Unit
AllOccupied head depth mask (suc k) =
    AllOccupied head depth mask k × (is_free mask (probed head depth k) ≡ false)

-- Probe k met a free slot, after only occupied ones.
abbrev IsFirstFree : ℕ → ℕ → ℕ → ℕ → QueryRingSelection → Type 0
IsFirstFree head depth mask k s =
    (s.slot ≡ probed head depth k)
    × (s.next_head ≡ (s.slot + 1) % depth)
    × (is_free mask s.slot ≡ true)
    × AllOccupied head depth mask k

module _ (head depth mask : ℕ) where
  probe-IsFirstFree :
      (left probe : ℕ) (s : QueryRingSelection)
      → AllOccupied head depth mask probe
      → probe_slots left probe (head % depth) depth mask ≡ some s
      → (k : ℕ) × (k < probe + left) × IsFirstFree head depth mask k s
  unfolding probe_slots
  probe-IsFirstFree zero probe s v h = cc
  probe-IsFirstFree (suc left) probe s v h =
      elim (Bool-cases (is_free mask (probed head depth probe))) [
        | inl free ↦
            let here = rw free at h in
            (probe, omega arith, (ground arith, ground arith, ground arith, v))
        | inr busy ↦
            let next : probe + 1 ≡ suc probe = omega arith in
            let met : AllOccupied head depth mask (probe + 1) = rw next (v, busy) in
            let (k, lt, first) = probe-IsFirstFree left (probe + 1) s met (rw busy at h) in
            (k, omega arith, first)
      ]

  probe-none :
      (left probe : ℕ)
      → AllOccupied head depth mask probe
      → probe_slots left probe (head % depth) depth mask ≡ none
      → AllOccupied head depth mask (probe + left)
  unfolding probe_slots
  probe-none zero probe v h = let same : probe + zero ≡ probe = omega arith in rw same v
  probe-none (suc left) probe v h = elim (Bool-cases (is_free mask (probed head depth probe))) [
    | inl free ↦ absurd (let here = rw free at h in ground arith)
    | inr busy ↦
        let next : probe + 1 ≡ suc probe = omega arith in
        let met : AllOccupied head depth mask (probe + 1) = rw next (v, busy) in
        let same : probe + suc left ≡ probe + 1 + left = omega arith in
        rw same (probe-none left (probe + 1) met (rw busy at h))
  ]

  occupied-at :
      (n k : ℕ) → AllOccupied head depth mask n → k < n → is_free mask (probed head depth k) ≡ false
  occupied-at zero k v lt = absurd (omega arith)
  occupied-at (suc n) k v lt = elim (dec_lt k n) [
    | yes below ↦ occupied-at n k v.0 below
    | no above ↦ let same : k ≡ n = omega arith in rw same v.1
  ]

  -- Every slot of the ring is probed.
  probed_onto : (slot : ℕ) → slot < depth → (k : ℕ) × (k < depth) × (probed head depth k ≡ slot)
  probed_onto slot lt =
      let start : head % depth < depth = omega arith in
      elim (dec_lt slot (head % depth)) [
        | yes before ↦ (slot + depth - head % depth, omega arith, grind arith)
        | no after ↦ (slot - head % depth, omega arith, grind arith)
      ]

  -- For a depth from 1 to 64, a selected slot is the first free one in round-robin order from the
  -- head, reached within one round, and the next head is the slot after it.
  pub select-IsFirstFree :
      (s : QueryRingSelection)
      → 1 ≤ depth
      → depth ≤ 64
      → select_query_ring_slot head depth mask ≡ some s
      → (k : ℕ) × (k < depth) × IsFirstFree head depth mask k s
  unfolding select_query_ring_slot
  select-IsFirstFree s low high h =
      let h' : probe_slots depth 0 (head % depth) depth mask ≡ some s = ground arith in
      let (k, lt, first) = probe-IsFirstFree depth 0 s tt h' in (k, omega arith, first)

  -- For a depth from 1 to 64 and a slot of the ring, either the slot is occupied or a slot is selected.
  free_slot_suffices :
      (slot : ℕ)
      → 1 ≤ depth
      → depth ≤ 64
      → slot < depth
      → (is_free mask slot ≡ false)
        ⊎ ((s : QueryRingSelection) × (select_query_ring_slot head depth mask ≡ some s))
  unfolding select_query_ring_slot
  free_slot_suffices slot low high lt =
      elim (Option-cases (probe_slots depth 0 (head % depth) depth mask)) [
        | inl none_free ↦
            let (k, below, at) = probed_onto slot lt in
            inl
              (rw at at (occupied-at (0 + depth) k (probe-none depth 0 tt none_free) (omega arith)))
        | inr (s, e) ↦ inr (s, ground arith)
      ]
