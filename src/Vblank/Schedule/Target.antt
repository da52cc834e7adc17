-- ===== src/Vblank/Schedule/Target.antt =====
-- The loop of GetNextVBlank (src/vblankmanager.cpp): it ends, at the first point from now on.
use native.Mathlib.Nat.{div-mul-le_self}
use native.Mathlib.Decide.{dec_lt}
use gamescope.Common.{
  IsU64, add_u64, arith, false, inl, inr, ltb, max, refl, some, sub_u64, suc, true, zero, ℕ, ◌*◌,
  ◌+◌, ◌-◌, ◌/◌, ◌<◌, ◌≡◌, ◌≤◌, ◌⊎◌,
}
use gamescope.Vblank.Refresh.{mhz_to_refresh_cycle}
use gamescope.Vblank.Schedule.{DisplayInputs, advance_to_now, get_next_vblank, get_refresh}

-- The first of the points start, start + interval, ... that is not before now.
abbrev pub IsFirstPoint : ℕ → ℕ → ℕ → ℕ → ℕ → Type 0
IsFirstPoint interval now start k point =
    (point ≡ start + k * interval) × (now ≤ point) × ((k ≡ 0) ⊎ (point < now + interval))

pub first_point_bounded :
    (interval now start k point : ℕ)
    → IsFirstPoint interval now start k point
    → point ≤ max start (now + interval)
first_point_bounded interval now start k point (at, reached, inl none_left) =
    let nothing : k * interval ≡ 0 = grind arith in omega arith
first_point_bounded interval now start k point (at, reached, inr soon) = omega arith

module _ (interval now : ℕ) (positive : 1 ≤ interval) (room : IsU64 (now + interval)) where
  advance-IsFirstPoint :
      (fuel start : ℕ)
      → IsU64 start
      → now ≤ start + fuel * interval
      → (k : ℕ) × (point : ℕ) × (advance_to_now (suc fuel) interval now start ≡ some point)
        × IsFirstPoint interval now start k point
  unfolding advance_to_now
  advance-IsFirstPoint zero start fits enough =
      let stop : ltb start now ≡ false = ground arith in
      (0, start, rw stop refl, (omega arith, omega arith, inl refl))
  advance-IsFirstPoint (suc fuel) start fits enough = elim (dec_lt start now) [
    | no reached ↦
        let stop : ltb start now ≡ false = ground arith in
        (0, start, rw stop refl, (omega arith, omega arith, inl refl))
    | yes early ↦
        let more : suc fuel * interval ≡ interval + fuel * interval = grind arith in
        let (k, point, e, (at, reached, first)) =
          advance-IsFirstPoint fuel (start + interval) (omega arith) (omega arith) in
        let step : add_u64 start interval ≡ start + interval = omega arith in
        let go : ltb start now ≡ true = ground arith in
        let turn : suc k * interval ≡ interval + k * interval = grind arith in
        (
          suc k,
          point,
          rw (go, step) e,
          (
            omega arith,
            reached,
            inr (elim first [
              | inl none_left ↦ let nothing : k * interval ≡ 0 = grind arith in omega arith
              | inr soon ↦ soon
            ]),
          ),
        )
  ]

-- get_next_vblank, for a known refresh and a clock that stays below 2^64.
pub next_vblank-IsFirstPoint :
    (inputs : DisplayInputs) (interval last offset : ℕ)
    → mhz_to_refresh_cycle (get_refresh inputs) ≡ some interval
    → 1 ≤ interval
    → IsU64 (inputs.now + interval)
    → IsU64 (last + interval)
    → offset ≤ last + interval
    → (k : ℕ) × (point : ℕ) × (get_next_vblank inputs last offset ≡ some point)
      × IsFirstPoint interval inputs.now (last + interval - offset) k point
unfolding get_next_vblank
next_vblank-IsFirstPoint inputs interval last offset known positive room fits before =
    let now = inputs.now in
    let turns = now / interval in
    let low : turns * interval ≤ now = div-mul-le_self now interval in
    let high : now < turns * interval + interval = omega arith in
    let fuel : (turns + 1) * interval ≡ turns * interval + interval = grind arith in
    let (k, point, e, first) =
      advance-IsFirstPoint interval now positive room (turns + 1) (last + interval - offset)
        (omega arith) (omega arith) in
    let start : sub_u64 (add_u64 last interval) offset ≡ last + interval - offset = omega arith in
    let count : now / interval + 2 ≡ suc (turns + 1) = omega arith in
    (k, point, rw (known, start, count) e, first)
