-- ===== src/Framegen/Shed/Count.antt =====
-- Entries that are left, counted (plan_bidir_queue_shed, src/framegen/deadline.hpp).
use gamescope.Common.{
  All, Bool, Bool-cases, List, [], arith, false, if◌then◌else◌, inl, inr, length, min, not, refl,
  some, suc, true, zero, ℕ, ◌&&◌, ◌+◌, ◌-◌, ◌∷◌, ◌≡◌, ◌≤◌,
}
use gamescope.Framegen.Shed.{
  BidirQueueEntry, Marked, find_duplicate, find_endpoint, has_newer, is_endpoint, is_live_endpoint,
  mark, shed_generated, unmarked,
}

abbrev pub one_if : Bool → ℕ
one_if b = if b then 1 else 0

abbrev pub live : List Marked → ℕ
live [] = 0
live (m ∷ ms) = one_if (not m.removed) + live ms

abbrev pub live_generated : List Marked → ℕ
live_generated [] = 0
live_generated (m ∷ ms) =
    one_if (not m.removed && not (is_endpoint m.entry.kind)) + live_generated ms

abbrev pub live_endpoints : List Marked → ℕ
live_endpoints [] = 0
live_endpoints (m ∷ ms) = one_if (is_live_endpoint m) + live_endpoints ms

pub live_split : (ms : List Marked) → live ms ≡ live_generated ms + live_endpoints ms
live_split [] = refl
live_split (m ∷ ms) = ground (arith, live_split ms)

abbrev NoneRemoved : List Marked → Type 0
NoneRemoved = All (λ m. m.removed ≡ false)

pub unmarked-NoneRemoved : (es : List BidirQueueEntry) → NoneRemoved (unmarked es)
unmarked-NoneRemoved [] = tt
unmarked-NoneRemoved (e ∷ es) = (refl, unmarked-NoneRemoved es)

pub live-unmarked : (es : List BidirQueueEntry) → live (unmarked es) ≡ length es
live-unmarked [] = refl
live-unmarked (e ∷ es) = omega (arith, live-unmarked es)

-- The first loop sheds what it needs or all generated entries, whichever is less.
pub shed_generated_count :
    (capacity i remaining : ℕ) (ms : List Marked)
    → NoneRemoved ms
    → let r = shed_generated capacity i remaining ms in
      (length r.1 ≡ min (live_generated ms) (remaining - capacity))
      × (live_generated r.0 + length r.1 ≡ live_generated ms)
      × (live_endpoints r.0 ≡ live_endpoints ms)
unfolding shed_generated
shed_generated_count capacity i remaining [] v = omega arith
shed_generated_count capacity i remaining (m ∷ ms) v = ground (
  arith,
  shed_generated_count capacity (i + 1) remaining ms v.1,
  shed_generated_count capacity (i + 1) (remaining - 1) ms v.1,
)

-- A found index names a live endpoint.
abbrev pub IsLiveAt : ℕ → List Marked → Type 0
IsLiveAt i [] = ⊥
IsLiveAt zero (m ∷ ms) = is_live_endpoint m ≡ true
IsLiveAt (suc i) (m ∷ ms) = IsLiveAt i ms

pub find_endpoint-IsLive :
    (i k : ℕ) (ms : List Marked)
    → find_endpoint i ms ≡ some k
    → (n : ℕ) × (k ≡ i + n) × IsLiveAt n ms
unfolding find_endpoint
find_endpoint-IsLive i k [] h = cc
find_endpoint-IsLive i k (m ∷ ms) h = elim (Bool-cases (is_live_endpoint m)) [
  | inl e ↦ (0, ground arith, e)
  | inr e ↦ let (n, q, l) = find_endpoint-IsLive (i + 1) k ms (rw e at h) in (suc n, omega arith, l)
]

pub find_duplicate-IsLive :
    (all : List Marked) (i k : ℕ) (ms : List Marked)
    → find_duplicate all i ms ≡ some k
    → (n : ℕ) × (k ≡ i + n) × IsLiveAt n ms
unfolding find_duplicate
find_duplicate-IsLive all i k [] h = cc
find_duplicate-IsLive all i k (m ∷ ms) h =
    elim (Bool-cases (is_live_endpoint m && has_newer i m.entry 0 all)) [
      | inl e ↦ (0, ground arith, ground arith)
      | inr e ↦
          let (n, q, l) = find_duplicate-IsLive all (i + 1) k ms (rw e at h) in
          (suc n, omega arith, l)
    ]

-- While an endpoint is left, one is found.
pub find_endpoint-some :
    (i : ℕ) (ms : List Marked) → 1 ≤ live_endpoints ms → (k : ℕ) × (find_endpoint i ms ≡ some k)
unfolding find_endpoint
find_endpoint-some i [] h = absurd (omega arith)
find_endpoint-some i (m ∷ ms) h = elim (Bool-cases (is_live_endpoint m)) [
  | inl e ↦ (i, rw e)
  | inr e ↦ let (k, q) = find_endpoint-some (i + 1) ms (ground arith) in (k, rw e q)
]

-- Marking a live endpoint takes one of them and no generated entry.
pub mark_count :
    (n : ℕ) (ms : List Marked)
    → IsLiveAt n ms
    → (live_endpoints (mark n ms) + 1 ≡ live_endpoints ms)
      × (live_generated (mark n ms) ≡ live_generated ms)
unfolding mark
mark_count n [] h = absurd h
mark_count zero (m ∷ ms) h = ground arith
mark_count (suc n) (m ∷ ms) h = ground (arith, mark_count n ms)
