-- ===== src/Framegen/Grid/Index.antt =====
-- The two index functions of the display grid (src/framegen/deadline.hpp).
use native.Mathlib.Nat.{div-mul-le_self, div-add-mod'}
use native.Mathlib.Decide.{dec_lt}
use gamescope.Common.{
  IsU64, arith, if◌then◌else◌, inl, inr, leb, ltb, min, u64_max, ℕ, ◌%◌, ◌*◌, ◌+◌, ◌-◌, ◌/◌, ◌<◌,
  ◌==◌, ◌≡◌, ◌≤◌, ◌⊎◌,
}
use gamescope.Framegen.Grid.{
  DisplayGrid, grid_index_at_or_after, grid_index_strictly_after, grid_point, target,
}

-- The guard saturates exactly where the exact point would not fit.
point-min : (base t n : ℕ) → 1 ≤ t → IsU64 base → grid_point base t n ≡ min u64_max (base + n * t)
unfolding grid_point
point-min base t n ht hb =
    let room = (u64_max - base) / t in
    let low : room * t ≤ u64_max - base = div-mul-le_self (u64_max - base) t in
    let high : u64_max - base < room * t + t = omega arith in
    elim (dec_lt room n) [
      | yes over ↦ let beyond : room * t + t ≤ n * t = grind arith in ground arith
      | no fits ↦ let within : n * t ≤ room * t = grind arith in ground arith
    ]

mul-le : (m n t : ℕ) → m ≤ n → m * t ≤ n * t
mul-le m n t h = grind arith

mul-lt : (m n t : ℕ) → m < n → m * t + t ≤ n * t
mul-lt m n t h = grind arith

quotient : (a t : ℕ) → 1 ≤ t → (a / t * t ≤ a) × (a < a / t * t + t) × (a / t * t + a % t ≡ a)
quotient a t h = (div-mul-le_self a t, omega arith, div-add-mod' a t)

module _ (grid : DisplayGrid) (time : ℕ) (running : 1 ≤ grid.t) (base : IsU64 grid.d0) where
  target-min : (n : ℕ) → target grid n ≡ min u64_max (grid.d0 + n * grid.t)
  unfolding target
  target-min n = point-min grid.d0 grid.t n running base

  strict-value :
      grid_index_strictly_after grid time
      ≡ (if ltb time grid.d0 then 0 else (time - grid.d0) / grid.t + 1)
  unfolding grid_index_strictly_after
  strict-value = ground arith

  strict-at :
      (n : ℕ)
      → (n ≡ (if ltb time grid.d0 then 0 else (time - grid.d0) / grid.t + 1))
      → time < u64_max
      → time < target grid n
  strict-at n e h =
      let q = (time - grid.d0) / grid.t in
      let step : (q + 1) * grid.t ≡ q * grid.t + grid.t = grind arith in
      ground (arith, target-min n, quotient (time - grid.d0) grid.t running)

  strict-before :
      (m : ℕ)
      → m < (if ltb time grid.d0 then 0 else (time - grid.d0) / grid.t + 1)
      → target grid m ≤ time
  strict-before m lt = ground (
    arith,
    target-min m,
    quotient (time - grid.d0) grid.t running,
    mul-le m ((time - grid.d0) / grid.t) grid.t,
  )

  -- For a running grid with a base in uint64_t and a time below the largest uint64_t: the target of
  -- the strict index is later than the time, and that of each lower index m is not.
  pub strictly_after-first :
      (m : ℕ)
      → time < u64_max
      → let n = grid_index_strictly_after grid time in
        (time < target grid n) × ((n ≤ m) ⊎ (target grid m ≤ time))
  strictly_after-first m h = (
    strict-at (grid_index_strictly_after grid time) strict-value h,
    elim (dec_lt m (grid_index_strictly_after grid time)) [
      | yes lt ↦ inr (strict-before m (rw strict-value at lt))
      | no ge ↦ inl (omega arith)
    ],
  )

  after-value : grid_index_at_or_after grid time ≡ (
      if leb time grid.d0
      then 0
      else (time - grid.d0) / grid.t + (if (time - grid.d0) % grid.t == 0 then 0 else 1))
  unfolding grid_index_at_or_after
  after-value = ground arith

  after-at :
      (n : ℕ)
      → (n ≡ (
          if leb time grid.d0
          then 0
          else (time - grid.d0) / grid.t + (if (time - grid.d0) % grid.t == 0 then 0 else 1)))
      → IsU64 time
      → time ≤ target grid n
  after-at n e h =
      let q = (time - grid.d0) / grid.t in
      let step : (q + 1) * grid.t ≡ q * grid.t + grid.t = grind arith in
      let same : (q + 0) * grid.t ≡ q * grid.t = grind arith in
      ground (arith, target-min n, quotient (time - grid.d0) grid.t running)

  after-before :
      (m : ℕ)
      → m < (
          if leb time grid.d0
          then 0
          else (time - grid.d0) / grid.t + (if (time - grid.d0) % grid.t == 0 then 0 else 1))
      → target grid m < time
  after-before m lt = ground (
    arith,
    target-min m,
    quotient (time - grid.d0) grid.t running,
    mul-le m ((time - grid.d0) / grid.t) grid.t,
    mul-lt m ((time - grid.d0) / grid.t) grid.t,
  )

  -- For a running grid with a base in uint64_t and a time in uint64_t: the target of the other index
  -- is at the time or later, and that of each lower index m is earlier.
  at_or_after-first :
      (m : ℕ)
      → IsU64 time
      → let n = grid_index_at_or_after grid time in
        (time ≤ target grid n) × ((n ≤ m) ⊎ (target grid m < time))
  at_or_after-first m h = (
    after-at (grid_index_at_or_after grid time) after-value h,
    elim (dec_lt m (grid_index_at_or_after grid time)) [
      | yes lt ↦ inr (after-before m (rw after-value at lt))
      | no ge ↦ inl (omega arith)
    ],
  )

-- Targets do not go back.
pub target_mono :
    (grid : DisplayGrid) (m n : ℕ)
    → 1 ≤ grid.t
    → IsU64 grid.d0
    → m ≤ n
    → target grid m ≤ target grid n
target_mono grid m n running base h =
    omega (
      arith,
      target-min grid 0 running base m,
      target-min grid 0 running base n,
      mul-le m n grid.t h,
    )
