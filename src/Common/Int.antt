-- ===== src/Common/Int.antt =====
-- Signed integers, and the casts between int64_t and uint64_t. Signed arithmetic is exact here:
-- C++ leaves its overflow undefined, and the modules that use it bound their results.
use gamescope.Common.{
  ℕ, suc, ◌+◌, ◌-◌, ◌*◌, ◌/◌, ◌≤◌, ◌≡◌, ◌⊎◌, Bool, not, arith, ltb, leb, if◌then◌else◌,
}

-- `negsuc n` is -(n + 1).
pub data ℤ : Type 0 where
  pos : ℕ → ℤ
  negsuc : ℕ → ℤ

abbrev pub pos_part : ℤ → ℕ
pos_part (pos n) = n
pos_part (negsuc n) = 0

abbrev pub neg_part : ℤ → ℕ
neg_part (pos n) = 0
neg_part (negsuc n) = suc n

-- a - b, as an integer.
abbrev sub_ℕ : ℕ → ℕ → ℤ
sub_ℕ a b = if leb b a then pos (a - b) else negsuc (b - a - 1)

infixl 65 ◌+ℤ◌ ◌-ℤ◌
infix 50 ◌≤ℤ◌
unfoldable pub ◌+ℤ◌ : ℤ → ℤ → ℤ
a +ℤ b = sub_ℕ (pos_part a + pos_part b) (neg_part a + neg_part b)

unfoldable pub ◌-ℤ◌ : ℤ → ℤ → ℤ
a -ℤ b = sub_ℕ (pos_part a + neg_part b) (neg_part a + pos_part b)

-- The product with a number.
unfoldable pub mul_ℤ : ℤ → ℕ → ℤ
mul_ℤ a k = sub_ℕ (pos_part a * k) (neg_part a * k)

-- Division by a positive number, rounded towards zero.
unfoldable pub div_ℤ : ℤ → ℕ → ℤ
div_ℤ (pos n) k = pos (n / k)
div_ℤ (negsuc n) k = sub_ℕ 0 (suc n / k)

abbrev ◌≤ℤ◌ : ℤ → ℤ → Type 0
a ≤ℤ b = pos_part a + neg_part b ≤ pos_part b + neg_part a

abbrev pub ltb_ℤ : ℤ → ℤ → Bool
ltb_ℤ a b = ltb (pos_part a + neg_part b) (pos_part b + neg_part a)

abbrev pub leb_ℤ : ℤ → ℤ → Bool
leb_ℤ a b = not (ltb_ℤ b a)

unfoldable pub neg_ℤ : ℤ → ℤ
neg_ℤ a = sub_ℕ (neg_part a) (pos_part a)

-- std::max, and std::clamp as the standard defines it.
unfoldable pub max_ℤ : ℤ → ℤ → ℤ
max_ℤ a b = if ltb_ℤ a b then b else a

unfoldable pub clamp_ℤ : ℤ → ℤ → ℤ → ℤ
clamp_ℤ v lo hi = if ltb_ℤ v lo then lo else if ltb_ℤ hi v then hi else v

-- The casts static_cast<int64_t>( n ) of a uint64_t, and back.
abbrev pub i64_max : ℕ
i64_max = 9223372036854775807

unfoldable pub to_i64 : ℕ → ℤ
to_i64 n = if leb n i64_max then pos n else negsuc (18446744073709551615 - n)

unfoldable pub of_i64 : ℤ → ℕ
of_i64 (pos n) = n
of_i64 (negsuc n) = 18446744073709551615 - n

-- The range of int64_t.
abbrev pub IsI64 : ℤ → Type 0
IsI64 z = (pos_part z ≤ i64_max) × (neg_part z ≤ 9223372036854775808)

+ℤ_parts :
    (a b : ℤ)
    → pos_part (a +ℤ b) + neg_part a + neg_part b ≡ neg_part (a +ℤ b) + pos_part a + pos_part b
unfolding ◌+ℤ◌
+ℤ_parts a b = ground arith

-ℤ_parts :
    (a b : ℤ)
    → pos_part (a -ℤ b) + neg_part a + pos_part b ≡ neg_part (a -ℤ b) + pos_part a + neg_part b
unfolding ◌-ℤ◌
-ℤ_parts a b = ground arith

-- At most one part of an integer is not zero.
parts_disjoint : (a : ℤ) → (pos_part a ≡ 0) ⊎ (neg_part a ≡ 0)
parts_disjoint (pos n) = omega arith
parts_disjoint (negsuc n) = omega arith

pub div_ℤ_parts :
    (a : ℤ) (k : ℕ)
    → (pos_part (div_ℤ a k) ≡ pos_part a / k) × (neg_part (div_ℤ a k) ≡ neg_part a / k)
unfolding div_ℤ
div_ℤ_parts (pos n) k = omega arith
div_ℤ_parts (negsuc n) k = ground arith

eq_of_parts : (a b : ℤ) → pos_part a + neg_part b ≡ pos_part b + neg_part a → a ≡ b
eq_of_parts a b h = ground arith

-- A sum of integers whose parts add up within the range is in the range.
pub IsI64-+ℤ :
    (a b : ℤ)
    → pos_part a + pos_part b ≤ i64_max
    → neg_part a + neg_part b ≤ i64_max
    → IsI64 (a +ℤ b)
unfolding ◌+ℤ◌
IsI64-+ℤ a b p n = ground arith
