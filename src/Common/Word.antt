-- ===== src/Common/Word.antt =====
-- Unsigned machine words: the limits of uint32_t and uint64_t, and arithmetic that wraps.
use Prim.Native.Nat.{ℕ, ◌+◌, ◌-◌, ◌*◌, ◌%◌, ◌<◌}

abbrev pub u32_max : ℕ
u32_max = 4294967295

abbrev pub u64_max : ℕ
u64_max = 18446744073709551615

-- The ranges of the two types.
abbrev IsU32 : ℕ → Type 0
IsU32 n = n < 4294967296

abbrev pub IsU64 : ℕ → Type 0
IsU64 n = n < 18446744073709551616

-- A cast to the type.
abbrev pub to_u32 : ℕ → ℕ
to_u32 n = n % 4294967296

abbrev pub to_u64 : ℕ → ℕ
to_u64 n = n % 18446744073709551616

abbrev pub add_u32 : ℕ → ℕ → ℕ
add_u32 a b = to_u32 (a + b)

abbrev pub add_u64 : ℕ → ℕ → ℕ
add_u64 a b = to_u64 (a + b)

-- `-` on ℕ stops at 0, so the modulus comes first.
abbrev pub sub_u64 : ℕ → ℕ → ℕ
sub_u64 a b = to_u64 (a + 18446744073709551616 - b)

abbrev pub mul_u32 : ℕ → ℕ → ℕ
mul_u32 a b = to_u32 (a * b)

abbrev pub mul_u64 : ℕ → ℕ → ℕ
mul_u64 a b = to_u64 (a * b)
