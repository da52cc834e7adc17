-- ===== src/Vblank/Refresh.antt =====
-- Refresh rates in hertz and millihertz, and the length of a refresh in nanoseconds:
-- src/refresh_rate.h. The arguments are not negative; a division by 0 gives none.
use native.Mathlib.Decide.{dec_lt}
use gamescope.Common.{
  Option, add_u32, add_u64, arith, false, if◌then◌else◌, mul_u32, none, quotient_bounds,
  quotient_unique, some, sub_u64, to_u32, ℕ, ◌*◌, ◌+◌, ◌-◌, ◌/◌, ◌<◌, ◌==◌, ◌≡◌, ◌≤◌,
}
use gamescope.Framegen.Policy.{below}

-- The uint32_t versions.
unfoldable convert_hz_to_mhz : ℕ → ℕ
convert_hz_to_mhz hz = mul_u32 hz 1_000

unfoldable pub convert_mhz_to_hz : ℕ → ℕ
convert_mhz_to_hz mhz = add_u32 mhz 499 / 1_000

unfoldable pub refresh_cycle_to_mhz : ℕ → Option ℕ
refresh_cycle_to_mhz cycle =
    if cycle == 0
    then none
    else some (to_u32 (sub_u64 (add_u64 1_000_000_000_000 (cycle / 2)) 1 / cycle))

unfoldable pub mhz_to_refresh_cycle : ℕ → Option ℕ
mhz_to_refresh_cycle mhz = refresh_cycle_to_mhz mhz

-- From 233 mHz on the result fits in uint32_t, so no bit is lost.
cycle_fits : (n : ℕ) → 233 ≤ n → n < 2147483648 → (1_000_000_000_000 + n / 2 - 1) / n < 4294967296
cycle_fits n low high =
    let q = (1_000_000_000_000 + n / 2 - 1) / n in
    let (le, lt) = quotient_bounds (1_000_000_000_000 + n / 2 - 1) n (omega arith) in
    elim (dec_lt q 4294967296) [
      | yes h ↦ h
      | no h ↦ let big : 4294967296 * n ≤ q * n = grind arith in absurd (omega arith)
    ]

cycle_value :
    (n : ℕ)
    → 233 ≤ n
    → n < 2147483648
    → refresh_cycle_to_mhz n ≡ some ((1_000_000_000_000 + n / 2 - 1) / n)
unfolding refresh_cycle_to_mhz
cycle_value n low high =
    let fits = cycle_fits n low high in
    let sum : sub_u64 (add_u64 1_000_000_000_000 (n / 2)) 1 ≡ 1_000_000_000_000 + n / 2 - 1 =
      omega arith in
    let some_n : (n == 0) ≡ false = ground arith in
    let kept : to_u32 ((1_000_000_000_000 + n / 2 - 1) / n) ≡ (1_000_000_000_000 + n / 2 - 1) / n =
      omega arith in
    rw (some_n, sum, kept)

-- For a rate from 233 mHz to the largest int32_t, the refresh is known, not 0 and in uint32_t, and as many
-- refreshes as the rate names take 1000 seconds up to half the rate in nanoseconds.
pub mhz_to_refresh_cycle-rounds :
    (mhz : ℕ)
    → 233 ≤ mhz
    → mhz < 2147483648
    → (cycle : ℕ) × (mhz_to_refresh_cycle mhz ≡ some cycle)
      × (1 ≤ cycle)
      × (cycle < 4294967296)
      × (cycle * mhz + 1 ≤ 1_000_000_000_000 + mhz / 2)
      × (1_000_000_000_000 + mhz / 2 ≤ cycle * mhz + mhz)
unfolding mhz_to_refresh_cycle
mhz_to_refresh_cycle-rounds n low high =
    let q = (1_000_000_000_000 + n / 2 - 1) / n in
    let (le, lt) = quotient_bounds (1_000_000_000_000 + n / 2 - 1) n (omega arith) in
    let positive : 1 ≤ q = elim (dec_lt 0 q) [
      | yes h ↦ h
      | no h ↦
          let none_left : q ≡ 0 = omega arith in
          absurd (let bad = rw none_left at lt in omega arith)
    ] in
    (q, cycle_value n low high, positive, cycle_fits n low high, omega arith, omega arith)

-- A rate from 466 mHz to 999,999 mHz comes back from its refresh.
pub refresh_cycle_round_trip :
    (mhz : ℕ)
    → 466 ≤ mhz
    → mhz < 1_000_000
    → (cycle : ℕ) × (mhz_to_refresh_cycle mhz ≡ some cycle)
      × (refresh_cycle_to_mhz cycle ≡ some mhz)
refresh_cycle_round_trip n low high =
    let (c, e, positive, fits, below, above) =
      mhz_to_refresh_cycle-rounds n (omega arith) (omega arith) in
    let small : c < 2147483648 = elim (dec_lt c 2147483648) [
      | yes h ↦ h
      | no h ↦ let large : 466 * 2147483648 ≤ c * n = grind arith in absurd (omega arith)
    ] in
    let more : n ≤ c = elim (dec_lt c n) [
      | yes h ↦ let square : c * n + n ≤ 1_000_000 * n = grind arith in absurd (omega arith)
      | no h ↦ omega arith
    ] in
    let turned : n * c ≡ c * n = grind arith in
    let same = quotient_unique (1_000_000_000_000 + c / 2 - 1) c n (omega arith) (omega arith) in
    let back = cycle_value c (omega arith) small in (c, e, rw same at back)

-- A whole number of hertz below 4,294,967 comes back from millihertz.
hz_round_trip : (hz : ℕ) → hz < 4_294_967 → convert_mhz_to_hz (convert_hz_to_mhz hz) ≡ hz
unfolding convert_mhz_to_hz convert_hz_to_mhz
hz_round_trip hz h = omega arith
