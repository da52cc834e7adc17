-- ===== src/Common/Bits.antt =====
-- The lowest bits of a number: masks of ones, and powers of two.
use Prim.Native.Nat.{
  ℕ, zero, suc, ◌+◌, ◌-◌, ◌*◌, ◌/◌, ◌%◌, ◌^◌, ◌≤◌, ◌<◌, min, bit_and, digits, bit_and-bitwise,
}
use mathlib.Core.Path.{◌≡◌, sym, ap, ◌∙◌}
use native.Mathlib.Omega.{arith}
use native.Mathlib.Nat.{
  div-add-mod', mod-eq_of_lt, mod-lt, mod-one, mod_self, mul-add-mod_self_right, pow-suc,
}
pub use Prim.Native.Nat.{bit_and, ◌^◌}

pub power_positive : (k : ℕ) → 1 ≤ 2 ^ k
power_positive zero = omega arith
power_positive (suc k) = let before = power_positive k in let step = pow-suc 2 k in omega arith

-- The remainder by twice a number, from that of the half.
remainder_double : (x n : ℕ) → 1 ≤ n → x / 2 % n * 2 + x % 2 ≡ x % (n * 2)
remainder_double x n positive =
    let q = x / 2 / n in
    let rest = x / 2 % n * 2 + x % 2 in
    let bound = mod-lt (x / 2) positive in
    let half : q * n + x / 2 % n ≡ x / 2 = div-add-mod' (x / 2) n in
    let whole : x ≡ q * (n * 2) + rest = grind arith in
    let small : rest < n * 2 = omega arith in
    sym (ap (λ y. y % (n * 2)) whole ∙ mul-add-mod_self_right q (n * 2) rest ∙ mod-eq_of_lt small)

-- With at least as many steps as the number, a mask of k ones keeps the remainder by 2 ^ k.
mask_digits : (n k a : ℕ) → a ≤ n → digits (λ x. zero) min n a (2 ^ k - 1) ≡ a % 2 ^ k
mask_digits zero k zero h = sym (mod-eq_of_lt (power_positive k))
mask_digits zero k (suc a) h = absurd (omega arith)
mask_digits (suc n) k zero h = sym (mod-eq_of_lt (power_positive k))
mask_digits (suc n) zero (suc a) h =
    let later = mask_digits n zero (suc a / 2) (omega arith) in
    let one_left = mod-one (suc a / 2) in omega arith
mask_digits (suc n) (suc k) (suc a) h =
    let later = mask_digits n k (suc a / 2) (omega arith) in
    let positive = power_positive k in
    let step : 2 ^ suc k ≡ 2 ^ k * 2 = pow-suc 2 k in
    let ones : (2 ^ suc k - 1) / 2 ≡ 2 ^ k - 1 = omega arith in
    let low : (2 ^ suc k - 1) % 2 ≡ 1 = omega arith in
    let double : suc a / 2 % 2 ^ k * 2 + suc a % 2 ≡ suc a % 2 ^ suc k =
      remainder_double (suc a) (2 ^ k) positive ∙ ap (λ m. suc a % m) (sym step) in
    rw (ones, low) (omega arith)

pub bit_and-ones : (k a : ℕ) → bit_and a (2 ^ k - 1) ≡ a % 2 ^ k
bit_and-ones k a = bit_and-bitwise a (2 ^ k - 1) ∙ mask_digits a k a (omega arith)

-- The bits of x that are not in m, `x & ~m` in a word that holds both.
pub and_not : ℕ → ℕ → ℕ
and_not x m = x - bit_and x m

-- Clearing the lowest k bits rounds down to a multiple of 2 ^ k.
pub and_not_lem :
    (k x : ℕ)
    → (and_not x (2 ^ k - 1) ≡ x / 2 ^ k * 2 ^ k)
      × (and_not x (2 ^ k - 1) ≤ x)
      × (x < and_not x (2 ^ k - 1) + 2 ^ k)
unfolding and_not
and_not_lem k x =
    let kept = bit_and-ones k x in
    let split = div-add-mod' x (2 ^ k) in
    let bound = mod-lt x (power_positive k) in (omega arith, omega arith, omega arith)

-- The code's test for a power of two.
pub bit_and-power : (k : ℕ) → bit_and (2 ^ k) (2 ^ k - 1) ≡ 0
bit_and-power k = bit_and-ones k (2 ^ k) ∙ mod_self (2 ^ k)
