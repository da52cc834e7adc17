-- ===== src/Framegen/Shed/Capacity.antt =====
-- How much plan_bidir_queue_shed of src/framegen/deadline.hpp sheds, of each kind.
use gamescope.Common.{
  Bool-cases, List, Option-cases, [], arith, inl, inr, length, length-append, ltb, min, not, refl,
  some, suc, zero, ℕ, ◌++◌, ◌+◌, ◌-◌, ◌∷◌, ◌≡◌, ◌≤◌,
}
use gamescope.Framegen.Shed.{
  BidirQueueEntry, Marked, find_candidate, find_duplicate, insert_sorted, is_endpoint, mark,
  plan_bidir_queue_shed, shed_all, shed_endpoints, shed_generated, sort, unmarked,
}
use gamescope.Framegen.Shed.Count.{
  IsLiveAt, find_duplicate-IsLive, find_endpoint-IsLive, find_endpoint-some, live-unmarked,
  live_endpoints, live_generated, live_split, mark_count, one_if, shed_generated_count,
  unmarked-NoneRemoved,
}

-- A candidate that is found is a live endpoint, and one is found while one is left.
find_candidate-IsLive : (ms : List Marked) (k : ℕ) → find_candidate ms ≡ some k → IsLiveAt k ms
unfolding find_candidate
find_candidate-IsLive ms k h = elim (Option-cases (find_duplicate ms 0 ms)) [
  | inl e ↦
      let (n, q, l) = find_endpoint-IsLive 0 k ms (rw (find_candidate, e) at h) in
      let same : n ≡ k = omega arith in rw same at l
  | inr (j, e) ↦
      let (n, q, l) = find_duplicate-IsLive ms 0 j ms e in
      let here : j ≡ k = grind (arith, e, h) in let same : n ≡ k = omega arith in rw same at l
]

find_candidate-some :
    (ms : List Marked) → 1 ≤ live_endpoints ms → (k : ℕ) × (find_candidate ms ≡ some k)
unfolding find_candidate
find_candidate-some ms h = elim (Option-cases (find_duplicate ms 0 ms)) [
  | inl e ↦ let (k, q) = find_endpoint-some 0 ms h in (k, rw (find_candidate, e) q)
  | inr (j, e) ↦ (j, rw (find_candidate, e) refl)
]

-- The second loop sheds the endpoints it needs, with as much fuel as entries.
shed_endpoints_count :
    (fuel capacity remaining : ℕ) (ms : List Marked)
    → remaining ≤ fuel
    → remaining - capacity ≤ live_endpoints ms
    → length (shed_endpoints fuel capacity remaining ms).1 ≡ remaining - capacity
unfolding shed_endpoints
shed_endpoints_count zero capacity remaining ms f h = omega arith
shed_endpoints_count (suc fuel) capacity remaining ms f h =
    elim (Bool-cases (ltb capacity remaining)) [
      | inl e ↦
          let (k, q) = find_candidate-some ms (ground arith) in
          let counted = mark_count k ms (find_candidate-IsLive ms k q) in
          let ih =
            shed_endpoints_count fuel capacity (remaining - 1) (mark k ms) (ground arith)
              (ground arith) in
          rw (shed_endpoints, e, q) (ground arith)
      | inr e ↦ rw (shed_endpoints, e) (ground arith)
    ]

length-insert_sorted : (n : ℕ) (xs : List ℕ) → length (insert_sorted n xs) ≡ length xs + 1
unfolding insert_sorted
length-insert_sorted n [] = refl
length-insert_sorted n (x ∷ xs) = ground (arith, length-insert_sorted n xs)

length-sort : (xs : List ℕ) → length (sort xs) ≡ length xs
unfolding sort
length-sort [] = refl
length-sort (x ∷ xs) = ground (arith, length-insert_sorted x (sort xs), length-sort xs)

-- The generated entries of a queue.
abbrev pub generated_entries : List BidirQueueEntry → ℕ
generated_entries [] = 0
generated_entries (e ∷ es) = one_if (not (is_endpoint e.kind)) + generated_entries es

live_generated-unmarked :
    (es : List BidirQueueEntry) → live_generated (unmarked es) ≡ generated_entries es
live_generated-unmarked [] = refl
live_generated-unmarked (e ∷ es) = omega (arith, live_generated-unmarked es)

-- A queue of n entries over a capacity c sheds n - c of them: generated entries, as long as there
-- are any, and endpoints for the rest; one that fits sheds nothing.
pub shed_counts :
    (entries : List BidirQueueEntry) (capacity : ℕ)
    → let plan = plan_bidir_queue_shed entries capacity in
      let excess = length entries - capacity in
      (plan.generated_count ≡ min (generated_entries entries) excess)
      × (plan.generated_count + plan.endpoint_count ≡ excess)
      × (length plan.indices ≡ excess)
unfolding plan_bidir_queue_shed shed_all
shed_counts entries capacity =
    let size = length entries in
    let all = unmarked entries in
    let first = shed_generated_count capacity 0 size all (unmarked-NoneRemoved entries) in
    let r = shed_generated capacity 0 size all in
    let total = live-unmarked entries in
    let split = live_split all in
    let generated = live_generated-unmarked entries in
    let second =
      shed_endpoints_count size capacity (size - length r.1) r.0 (omega arith) (ground arith) in
    let ends = (shed_endpoints size capacity (size - length r.1) r.0).1 in
    let sorted = length-sort (r.1 ++ ends) in let joined = length-append r.1 ends in ground arith
