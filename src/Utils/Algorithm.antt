-- ===== src/Utils/Algorithm.antt =====
-- Searches in a range: src/Utils/Algorithm.h. The range [pFirst, pEnd) is a list, an iterator is its
-- distance from pFirst, and the element's operator== is a parameter. None stands for a read past pEnd
-- and for __builtin_unreachable.
pub mod Search
use gamescope.Common.{
  Bool, List, Option, [], false, if◌then◌else◌, length, none, not, some, suc, zero, ℕ, ◌+◌, ◌/◌,
  ◌==◌, ◌>>=◌, ◌||◌, ◌∷◌,
}

module _ {A : Type 0} (equals : A → A → Bool) (obj : A) where
  pub find_simple : List A → ℕ
  find_simple [] = 0
  find_simple (x ∷ xs) = if equals x obj then 0 else suc (find_simple xs)

  -- The elements that are left after the blocks of four.
  pub find_rest : List A → Option ℕ
  find_rest [] = some 0
  find_rest (a ∷ []) = some (if equals a obj then 0 else 1)
  find_rest (a ∷ b ∷ []) = some (if equals a obj then 0 else if equals b obj then 1 else 2)
  find_rest (a ∷ b ∷ c ∷ []) =
      some (if equals a obj then 0 else if equals b obj then 1 else if equals c obj then 2 else 3)
  find_rest (a ∷ b ∷ c ∷ d ∷ xs) = none

  -- The loop, with the blocks that are left.
  pub find_blocks : ℕ → List A → Option ℕ
  find_blocks zero xs = find_rest xs
  find_blocks (suc n) (a ∷ b ∷ c ∷ d ∷ xs) =
      let rest = find_blocks n xs in
      if equals a obj
      then some 0
      else if equals b obj
      then some 1
      else if equals c obj
      then some 2
      else if equals d obj
      then some 3
      else (do i ← rest; some (4 + i))
  find_blocks (suc n) xs = none

  pub find_by_four : List A → Option ℕ
  find_by_four xs = find_blocks (length xs / 4) xs

  -- Find and ContainsShortcut.
  pub contains_shortcut : List A → Bool
  contains_shortcut xs = not (find_simple xs == length xs)

  pub contains_rest : Bool → List A → Option Bool
  contains_rest found [] = some found
  contains_rest found (a ∷ []) = some (found || equals a obj)
  contains_rest found (a ∷ b ∷ []) = some (found || (equals a obj || equals b obj))
  contains_rest found (a ∷ b ∷ c ∷ []) =
      some (found || (equals a obj || (equals b obj || equals c obj)))
  contains_rest found (a ∷ b ∷ c ∷ d ∷ xs) = none

  pub contains_blocks : ℕ → Bool → List A → Option Bool
  contains_blocks zero found xs = contains_rest found xs
  contains_blocks (suc n) found (a ∷ b ∷ c ∷ d ∷ xs) =
      contains_blocks n
        (found || (equals a obj || (equals b obj || (equals c obj || equals d obj)))) xs
  contains_blocks (suc n) found xs = none

  pub contains_no_shortcut : List A → Option Bool
  contains_no_shortcut xs = contains_blocks (length xs / 4) false xs
