-- ===== src/Framegen/Shed/Candidate.antt =====
-- The second loop of plan_bidir_queue_shed of src/framegen/deadline.hpp.
use gamescope.Common.{
  Bool-cases, List, Option-cases, [], arith, false, inl, inr, ltb, some, suc, subst, true, zero, ℕ,
  ◌+◌, ◌-◌, ◌∷◌, ◌≡◌, ◌<◌, ◌⊎◌,
}
use gamescope.Framegen.Shed.{
  Marked, find_candidate, find_duplicate, has_newer, mark, shed_endpoints,
}
use gamescope.Framegen.Shed.Newer.{
  IsAt, IsReplaced, duplicate_found, first_found, has_newer-finds, has_newer-found, no_duplicate,
  same_value,
}

-- The live endpoint that has a newer one, the first of these; without one, the first live endpoint.
abbrev pub IsCandidate : List Marked → ℕ → Type 0
IsCandidate ms k =
    (m : Marked) × IsAt ms k m
    × ((IsReplaced ms k m × ((p : ℕ) (f : Marked) → p < k → IsAt ms p f → IsReplaced ms p f → ⊥))
        ⊎ (((p : ℕ) (f : Marked) → IsAt ms p f → IsReplaced ms p f → ⊥)
            × ((p : ℕ) (f : Marked) → p < k → IsAt ms p f → ⊥)))

not_replaced :
    (ms : List Marked) (p : ℕ) (f : Marked)
    → has_newer p f.entry 0 ms ≡ false
    → IsReplaced ms p f
    → ⊥
not_replaced ms p f h (j, g, at, newer) =
    let start : 0 + j ≡ j = omega arith in
    let found = has_newer-finds p f.entry 0 j g ms at (rw start newer) in ground arith

replaced :
    (ms : List Marked) (p : ℕ) (f : Marked) → has_newer p f.entry 0 ms ≡ true → IsReplaced ms p f
replaced ms p f h =
    let (j, g, at, newer) = has_newer-found p f.entry 0 ms h in
    let start : 0 + j ≡ j = omega arith in (j, g, at, rw start at newer)

at_zero :
    (ms : List Marked) (p : ℕ) (f : Marked)
    → has_newer (0 + p) f.entry 0 ms ≡ false
    → has_newer p f.entry 0 ms ≡ false
at_zero ms p f h = let start : 0 + p ≡ p = omega arith in rw start at h

find_candidate-IsCandidate :
    (ms : List Marked) (k : ℕ) → find_candidate ms ≡ some k → IsCandidate ms k
unfolding find_candidate
find_candidate-IsCandidate ms k h = elim (Option-cases (find_duplicate ms 0 ms)) [
  | inl e ↦
      let (n, m, place, at, before) = first_found 0 k ms (rw (find_candidate, e) at h) in
      let same : n ≡ k = omega arith in
      (
        m,
        subst (λ x. IsAt ms x m) same at,
        inr (
          λ p f at_p.
              not_replaced ms p f
                (at_zero ms p f (no_duplicate ms 0 (suc p) ms e p f (omega arith) at_p)),
          λ p f lt. before p f (omega arith),
        ),
      )
  | inr (j, e) ↦
      let here_is : j ≡ k = same_value j k (rw (find_candidate, e) at h) in
      let (n, m, place, at, newer, before) = duplicate_found ms 0 j ms e in
      let same : n ≡ k = omega arith in
      (
        m,
        subst (λ x. IsAt ms x m) same at,
        inl (
          replaced ms k m (subst (λ x. has_newer x m.entry 0 ms ≡ true) here_is newer),
          λ p f lt at_p. not_replaced ms p f (at_zero ms p f (before p f (omega arith) at_p)),
        ),
      )
]

-- Each of the places is the candidate once those before it are removed.
abbrev pub IsShedding : List Marked → List ℕ → Type 0
IsShedding ms [] = Unit
IsShedding ms (k ∷ ks) = IsCandidate ms k × IsShedding (mark k ms) ks

pub shed_endpoints-IsShedding :
    (fuel capacity remaining : ℕ) (ms : List Marked)
    → IsShedding ms (shed_endpoints fuel capacity remaining ms).1
unfolding shed_endpoints
shed_endpoints-IsShedding zero capacity remaining ms = tt
shed_endpoints-IsShedding (suc fuel) capacity remaining ms =
    elim (Bool-cases (ltb capacity remaining)) [
      | inl e ↦ elim (Option-cases (find_candidate ms)) [
        | inl q ↦ rw (shed_endpoints, e, q) tt
        | inr (k, q) ↦
            let rest = shed_endpoints-IsShedding fuel capacity (remaining - 1) (mark k ms) in
            rw (shed_endpoints, e, q) (find_candidate-IsCandidate ms k q, rest)
      ]
      | inr e ↦ rw (shed_endpoints, e) tt
    ]
