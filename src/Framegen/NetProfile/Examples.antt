-- ===== src/Framegen/NetProfile/Examples.antt =====
-- A header of version 2, and the weights of a profile of that version, all of them 1.0f.
use gamescope.Common.{[], refl, ◌∷◌, ◌≡◌}
use gamescope.Framegen.NetProfile.{
  layer_words, net_floats, net_layer2_offset, net_layer3_bias_offset, net_layer3_offset,
  net_profile_metadata,
}

header_words :
    net_profile_metadata 2 ≡ 1380340551 ∷ 2 ∷ 3 ∷ 12 ∷ 16 ∷ 3 ∷ 16 ∷ 16 ∷ 3 ∷ 16 ∷ 4 ∷ 3 ∷ []
unfolding net_profile_metadata layer_words
header_words = refl

-- The assertions of src/framegen/net_layout.hpp.
layout :
    (net_layer2_offset ≡ 1744)
    × (net_layer3_offset ≡ 4064)
    × (net_layer3_bias_offset ≡ 4640)
    × (net_floats ≡ 4644)
layout = (refl, refl, refl, refl)
