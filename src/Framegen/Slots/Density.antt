-- ===== src/Framegen/Slots/Density.antt =====
-- Which candidates of an interval are taken (plan_bidir_slots, src/framegen/deadline.hpp).
use gamescope.Common.{
  All, Bool-cases, List, [], arith, inl, inr, leb, ltb, min, suc, zero, ℕ, ◌&&◌, ◌*◌, ◌+◌, ◌/◌, ◌<◌,
  ◌∷◌, ◌≡◌, ◌≤◌,
}
use gamescope.Framegen.Grid.{DisplayGrid, target}
use gamescope.Framegen.Slots.{candidate_index, candidates_from}

quotient : (a d : ℕ) → 1 ≤ d → (a / d * d ≤ a) × (a < a / d * d + d)
quotient a d h = omega arith

less_of_product : (q d n : ℕ) → q * d < n * d → q < n
less_of_product q d n h = grind arith

-- The spread index: the middle of the i-th of `selected` equal parts of the candidates.
spread : ℕ → ℕ → ℕ → ℕ
spread size selected i = (2 * i + 1) * size / (2 * selected)

spread-lt : (size selected i : ℕ) → i < selected → 1 ≤ size → spread size selected i < size
unfolding spread
spread-lt size selected i lt ge =
    let (low, high) = quotient ((2 * i + 1) * size) (2 * selected) (omega arith) in
    let part : (2 * i + 1) * size < 2 * selected * size = grind arith in
    less_of_product (spread size selected i) (2 * selected) size (grind arith)

apart : (x y q r d e : ℕ) → q * d ≤ x → y < r * d + d → y ≡ x + e → d ≤ e → q * d < r * d
apart x y q r d e h1 h2 h3 h4 = omega arith

spread-step :
    (size selected i : ℕ)
    → 1 ≤ selected
    → selected ≤ size
    → spread size selected i < spread size selected (i + 1)
unfolding spread
spread-step size selected i ge le =
    let d = 2 * selected in
    let x = (2 * i + 1) * size in
    let y = (2 * (i + 1) + 1) * size in
    let more : y ≡ x + 2 * size = grind arith in
    less_of_product (x / d) d (y / d) (
      apart x y (x / d) (y / d) d (2 * size) (quotient x d (omega arith)).0
        (quotient y d (omega arith)).1 more (omega arith))

-- With `size` candidates and the lesser of `size` and the ceiling selected: the i-th selected slot
-- takes a candidate that exists, and a slot after it would take a later candidate.
candidate_index_lem :
    (size ceiling i : ℕ)
    → i < min size ceiling
    → let selected = min size ceiling in
      (candidate_index size ceiling selected i < size)
      × (candidate_index size ceiling selected i < candidate_index size ceiling selected (i + 1))
unfolding candidate_index spread
candidate_index_lem size ceiling i h = elim (Bool-cases (leb size ceiling)) [
  | inl all ↦ rw all (omega arith, omega arith)
  | inr part ↦ rw part (
    spread-lt size (min size ceiling) i h (omega arith),
    spread-step size (min size ceiling) i (omega arith) (omega arith),
  )
]

-- A candidate of an interval is a refresh between the two indices whose target lies strictly between
-- the two display times.
abbrev IsBetween : DisplayGrid → ℕ → ℕ → ℕ → ℕ → ℕ → Type 0
IsBetween grid previous ideal lo hi n =
    (lo ≤ n) × (n < hi) × (previous < target grid n) × (target grid n < ideal)

IsBetween-weaken :
    (grid : DisplayGrid) (previous ideal n left : ℕ) (ns : List ℕ)
    → All (IsBetween grid previous ideal (n + 1) (n + 1 + left)) ns
    → All (IsBetween grid previous ideal n (n + suc left)) ns
IsBetween-weaken grid previous ideal n left [] v = tt
IsBetween-weaken grid previous ideal n left (k ∷ ns) v =
    (omega arith, IsBetween-weaken grid previous ideal n left ns v.1)

candidates-IsBetween :
    (grid : DisplayGrid) (previous ideal left n : ℕ)
    → All (IsBetween grid previous ideal n (n + left)) (candidates_from grid previous ideal left n)
unfolding candidates_from
candidates-IsBetween grid previous ideal zero n = tt
candidates-IsBetween grid previous ideal (suc left) n =
    let rest =
      IsBetween-weaken grid previous ideal n left (candidates_from grid previous ideal left (n + 1))
        (candidates-IsBetween grid previous ideal left (n + 1)) in
    elim (Bool-cases (ltb previous (target grid n) && ltb (target grid n) ideal)) [
      | inl here ↦ rw here (ground arith, rest)
      | inr out ↦ rw out rest
    ]
