-- ===== src/Common/Division.antt =====
-- Quotients of native numbers, by their bounds.
use Prim.Native.Nat.{ℕ, ◌+◌, ◌-◌, ◌*◌, ◌/◌, ◌%◌, ◌≤◌, ◌<◌}
use mathlib.Core.Path.{◌≡◌, sym, ◌∙◌}
use native.Mathlib.Nat.{div-mul-le_self, mod-add-mod, mod-eq-sub-mod, mod-eq_of_lt, mod-lt}
use native.Mathlib.Decide.{dec_lt}
use native.Mathlib.Omega.{arith}
use mathlib.Core.Logic.{◌⊎◌, inl, inr}

pub quotient_bounds : (a n : ℕ) → 1 ≤ n → (a / n * n ≤ a) × (a < a / n * n + n)
quotient_bounds a n h = (div-mul-le_self a n, omega arith)

pub quotient_unique : (a n q : ℕ) → q * n ≤ a → a < q * n + n → a / n ≡ q
quotient_unique a n q low high =
    let r = a / n in
    let (le, lt) = quotient_bounds a n (omega arith) in
    elim (dec_lt r q) [
      | yes below ↦ let step : r * n + n ≤ q * n = grind arith in absurd (omega arith)
      | no above ↦ elim (dec_lt q r) [
        | yes beyond ↦ let step : q * n + n ≤ r * n = grind arith in absurd (omega arith)
        | no same ↦ omega arith
      ]
    ]

-- A remainder a step of less than the divisor further on.
pub remainder_step :
    (a d j : ℕ)
    → 1 ≤ d
    → j < d
    → ((a % d + j < d) × ((a + j) % d ≡ a % d + j))
      ⊎ ((d ≤ a % d + j) × ((a + j) % d ≡ a % d + j - d))
remainder_step a d j pos h = elim (dec_lt (a % d + j) d) [
  | yes below ↦ inl (below, sym (mod-add-mod a d j) ∙ mod-eq_of_lt below)
  | no above ↦
      let lt : a % d < d = mod-lt a pos in
      inr (
        omega arith,
        sym (mod-add-mod a d j) ∙ mod-eq-sub-mod (omega arith) ∙ mod-eq_of_lt (omega arith),
      )
]
