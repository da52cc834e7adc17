-- ===== src/Framegen/Grid.antt =====
-- DisplayGrid_t of src/framegen/deadline.hpp: the refreshes of a fixed-rate output, each with its
-- flip target and its wake. Products and sums are guarded by the code and exact here.
pub mod Index
use gamescope.Common.{if◌then◌else◌, leb, ltb, not, u64_max, ℕ, ◌%◌, ◌&&◌, ◌*◌, ◌+◌, ◌-◌, ◌/◌, ◌==◌}
use gamescope.Common.Int.{ℤ}
use gamescope.Framegen.Timestamp.{apply_present_bias_ns}

pub record DisplayGrid : Type 0 where
  pub d0 : ℕ
  pub w0 : ℕ
  pub t : ℕ

-- D0 + n * T or W0 + n * T, whichever base the member function has.
unfoldable pub grid_point : ℕ → ℕ → ℕ → ℕ
grid_point base t n = if not (t == 0) && ltb ((u64_max - base) / t) n then u64_max else base + n * t

unfoldable pub target : DisplayGrid → ℕ → ℕ
unfolding grid_point
target grid n = grid_point grid.d0 grid.t n

unfoldable pub wake : DisplayGrid → ℕ → ℕ
unfolding grid_point
wake grid n = grid_point grid.w0 grid.t n

apply_present_bias : DisplayGrid → ℤ → DisplayGrid
apply_present_bias grid bias = record {
  d0 = if grid.d0 == 0 then 0 else apply_present_bias_ns grid.d0 bias;
  w0 = if grid.w0 == 0 then 0 else apply_present_bias_ns grid.w0 bias;
  t = grid.t;
}

unfoldable pub grid_index_at_or_after : DisplayGrid → ℕ → ℕ
grid_index_at_or_after grid time =
    let delta = time - grid.d0 in
    if grid.t == 0
    then 0
    else if leb time grid.d0
    then 0
    else delta / grid.t + (if delta % grid.t == 0 then 0 else 1)

unfoldable pub grid_index_strictly_after : DisplayGrid → ℕ → ℕ
grid_index_strictly_after grid time =
    if grid.t == 0 then 0 else if ltb time grid.d0 then 0 else (time - grid.d0) / grid.t + 1
