-- ===== src/Framegen/NetProfile.antt =====
-- src/framegen/net_layout.hpp and src/framegen/net_profile.hpp: the header of a stored GSFR profile,
-- and the migration of its weights. A weight is the word that std::bit_cast makes of the float, and 0.0f
-- is the word 0.
pub mod Metadata
pub mod Migration
mod Examples
use gamescope.Common.{
  Bool, List, [], false, get_or, if◌then◌else◌, length, ltb, not, set, suc, true, zero, ℕ, ◌%◌,
  ◌&&◌, ◌*◌, ◌+◌, ◌-◌, ◌/◌, ◌==◌, ◌||◌, ◌∷◌,
}

-- 'GSFR'
abbrev net_magic : ℕ
net_magic = 1380340551

abbrev net_version : ℕ
net_version = 3

abbrev net_oldest_version : ℕ
net_oldest_version = 1

abbrev net_shading_version : ℕ
net_shading_version = 3

abbrev net_layer_count : ℕ
net_layer_count = 3

abbrev net_kernel_width : ℕ
net_kernel_width = 3

-- Inputs and outputs of each layer.
abbrev net_layer_dims : List (ℕ × ℕ)
net_layer_dims = (12, 16) ∷ (16, 16) ∷ (16, 4) ∷ []

abbrev net_kernel_elements : ℕ
net_kernel_elements = net_kernel_width * net_kernel_width

abbrev pub net_layer2_offset : ℕ
net_layer2_offset = 12 * 16 * net_kernel_elements + 16

abbrev pub net_layer3_offset : ℕ
net_layer3_offset = net_layer2_offset + 16 * 16 * net_kernel_elements + 16

abbrev net_layer3_weights_per_output : ℕ
net_layer3_weights_per_output = 16 * net_kernel_elements

abbrev pub net_layer3_bias_offset : ℕ
net_layer3_bias_offset = net_layer3_offset + net_layer3_weights_per_output * 4

abbrev pub net_floats : ℕ
net_floats = net_layer3_bias_offset + 4

abbrev net_shading_output : ℕ
net_shading_output = 3

abbrev pub net_shading_weight_begin : ℕ
net_shading_weight_begin = net_layer3_offset + net_shading_output * net_layer3_weights_per_output

abbrev pub net_shading_bias : ℕ
net_shading_bias = net_layer3_bias_offset + net_shading_output

abbrev net_profile_metadata_words : ℕ
net_profile_metadata_words = 3 + net_layer_count * 3

-- The words of the layers, three for each.
pub layer_words : List (ℕ × ℕ) → List ℕ
layer_words [] = []
layer_words ((inputs, outputs) ∷ dims) = inputs ∷ outputs ∷ net_kernel_width ∷ layer_words dims

pub net_profile_metadata : ℕ → List ℕ
net_profile_metadata version = net_magic ∷ version ∷ net_layer_count ∷ layer_words net_layer_dims

-- The loop over the layers, from number `layer` on.
pub layers_match : List ℕ → ℕ → List (ℕ × ℕ) → Bool
layers_match metadata layer [] = true
layers_match metadata layer ((inputs, outputs) ∷ dims) =
    let offset = 3 + layer * 3 in
    let rest = layers_match metadata (layer + 1) dims in
    get_or metadata offset 0 == inputs
    && (get_or metadata (offset + 1) 0 == outputs
        && (get_or metadata (offset + 2) 0 == net_kernel_width && rest))

pub net_profile_metadata_version : List ℕ → ℕ
net_profile_metadata_version metadata =
    let version = get_or metadata 1 0 in
    if not (length metadata == net_profile_metadata_words)
      || (not (get_or metadata 0 0 == net_magic)
          || (ltb version net_oldest_version
              || (ltb net_version version || not (get_or metadata 2 0 == net_layer_count))))
    then 0
    else if layers_match metadata 0 net_layer_dims
    then version
    else 0

-- src/framegen/numeric.hpp: the exponent, bits 23 to 30, is not all ones.
is_finite_binary32 : ℕ → Bool
is_finite_binary32 value = not (value / 8388608 % 256 == 255)

-- The loop over the weights.
pub all_finite : List ℕ → Bool
all_finite [] = true
all_finite (w ∷ ws) = let rest = all_finite ws in if is_finite_binary32 w then rest else false

-- std::fill over the next `count` weights, after `skip` that stay.
pub fill_zero : ℕ → ℕ → List ℕ → List ℕ
fill_zero skip count [] = []
fill_zero zero zero ws = ws
fill_zero zero (suc count) (w ∷ ws) = 0 ∷ fill_zero zero count ws
fill_zero (suc skip) count (w ∷ ws) = w ∷ fill_zero skip count ws

-- The result of the check, and the weights after it.
pub validate_and_migrate_net_profile_weights : ℕ → List ℕ → Bool × List ℕ
validate_and_migrate_net_profile_weights version weights =
    let row =
      fill_zero net_shading_weight_begin (net_layer3_bias_offset - net_shading_weight_begin)
        weights in
    if ltb version net_oldest_version
      || (ltb net_version version || not (length weights == net_floats))
    then (false, weights)
    else if not (all_finite weights)
    then (false, weights)
    else if ltb version net_shading_version
    then (true, set row net_shading_bias 0)
    else (true, weights)
