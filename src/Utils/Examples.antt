-- ===== src/Utils/Examples.antt =====
-- Ten numbers of which the ninth is searched.
use gamescope.Common.{List, [], some, ℕ, ◌==◌, ◌∷◌, ◌≡◌}
use gamescope.Utils.Algorithm.{contains_no_shortcut, contains_shortcut, find_by_four, find_simple}
use gamescope.Utils.Algorithm.Search.{unrolled_searches_agree}

abbrev numbers : List ℕ
numbers = 4 ∷ 8 ∷ 15 ∷ 16 ∷ 23 ∷ 42 ∷ 7 ∷ 1 ∷ 9 ∷ 3 ∷ []

unrolled_searches_agree_example :
    (find_by_four ◌==◌ 9 numbers ≡ some (find_simple ◌==◌ 9 numbers))
    × (contains_no_shortcut ◌==◌ 9 numbers ≡ some (contains_shortcut ◌==◌ 9 numbers))
unrolled_searches_agree_example = unrolled_searches_agree ◌==◌ 9 numbers
