-- ===== src/Framegen/NetProfile/Migration.antt =====
-- What the migration of src/framegen/net_profile.hpp does to each weight.
use gamescope.Common.{
  Bool, List, [], arith, get_or, if◌then◌else◌, leb, length, length-set, ltb, refl, set, suc, true,
  zero, ℕ, ◌&&◌, ◌+◌, ◌-◌, ◌==◌, ◌||◌, ◌↔◌, ◌∷◌, ◌≡◌, ◌≤◌,
}
use gamescope.Framegen.NetProfile.{
  all_finite, fill_zero, net_floats, net_layer3_bias_offset, net_shading_bias,
  net_shading_weight_begin, validate_and_migrate_net_profile_weights,
}

-- The weights of the shading output: its row and its bias.
abbrev is_shading : ℕ → Bool
is_shading i =
    (leb net_shading_weight_begin i && ltb i net_layer3_bias_offset) || i == net_shading_bias

get-fill_zero :
    (skip count : ℕ) (ws : List ℕ) (i : ℕ)
    → get_or (fill_zero skip count ws) i 0
      ≡ (if leb skip i && ltb i (skip + count) then 0 else get_or ws i 0)
unfolding fill_zero
get-fill_zero skip count [] i = ground arith
get-fill_zero zero zero (w ∷ ws) i = ground arith
get-fill_zero zero (suc count) (w ∷ ws) zero = ground arith
get-fill_zero zero (suc count) (w ∷ ws) (suc i) = ground (arith, get-fill_zero zero count ws i)
get-fill_zero (suc skip) count (w ∷ ws) zero = ground arith
get-fill_zero (suc skip) count (w ∷ ws) (suc i) = ground (arith, get-fill_zero skip count ws i)

length-fill_zero : (skip count : ℕ) (ws : List ℕ) → length (fill_zero skip count ws) ≡ length ws
unfolding fill_zero
length-fill_zero skip count [] = refl
length-fill_zero zero zero (w ∷ ws) = refl
length-fill_zero zero (suc count) (w ∷ ws) = omega (arith, length-fill_zero zero count ws)
length-fill_zero (suc skip) count (w ∷ ws) = omega (arith, length-fill_zero skip count ws)

get-set : (ws : List ℕ) (j i : ℕ) → get_or (set ws j 0) i 0 ≡ (if i == j then 0 else get_or ws i 0)
get-set [] j i = ground arith
get-set (w ∷ ws) zero zero = ground arith
get-set (w ∷ ws) zero (suc i) = ground arith
get-set (w ∷ ws) (suc j) zero = ground arith
get-set (w ∷ ws) (suc j) (suc i) = ground (arith, get-set ws j i)

-- The check accepts exactly the versions 1 to 3 with all weights there and finite. The number of
-- weights stays, and each keeps its word, except that an accepted version below 3 zeroes those of
-- the shading output.
migration_lem :
    (version : ℕ) (weights : List ℕ) (i : ℕ)
    → let (ok, after) = validate_and_migrate_net_profile_weights version weights in
      ((ok ≡ true) ↔ (
        (1 ≤ version)
        × (version ≤ 3)
        × (length weights ≡ net_floats)
        × (all_finite weights ≡ true)))
      × (length after ≡ length weights)
      × (get_or after i 0
          ≡ (if ok && (ltb version 3 && is_shading i) then 0 else get_or weights i 0))
unfolding validate_and_migrate_net_profile_weights
migration_lem version weights i =
    let count = net_layer3_bias_offset - net_shading_weight_begin in
    let row = fill_zero net_shading_weight_begin count weights in
    ground (
      arith,
      get-set row net_shading_bias i,
      get-fill_zero net_shading_weight_begin count weights i,
      length-fill_zero net_shading_weight_begin count weights,
      length-set row net_shading_bias 0,
    )
