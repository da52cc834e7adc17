-- ===== src/Framegen/Shed/Sorted.antt =====
-- The sort of plan_bidir_queue_shed of src/framegen/deadline.hpp.
use gamescope.Common.{
  Bool-cases, List, [], arith, if◌then◌else◌, inl, inr, leb, refl, ℕ, ◌++◌, ◌+◌, ◌==◌, ◌∷◌, ◌≡◌,
  ◌≤◌,
}
use gamescope.Framegen.Shed.{insert_sorted, sort}

-- How often n is in a list.
abbrev pub times : ℕ → List ℕ → ℕ
times n [] = 0
times n (x ∷ xs) = (if n == x then 1 else 0) + times n xs

-- x is at most the first number of the list.
abbrev IsBelowFirst : ℕ → List ℕ → Type 0
IsBelowFirst x [] = Unit
IsBelowFirst x (y ∷ ys) = x ≤ y

abbrev pub IsAscending : List ℕ → Type 0
IsAscending [] = Unit
IsAscending (x ∷ xs) = IsBelowFirst x xs × IsAscending xs

times-insert_sorted : (k n : ℕ) (xs : List ℕ) → times k (insert_sorted n xs) ≡ times k (n ∷ xs)
unfolding insert_sorted
times-insert_sorted k n [] = refl
times-insert_sorted k n (x ∷ xs) = elim (Bool-cases (leb n x)) [
  | inl e ↦ rw e refl
  | inr e ↦ let ih = times-insert_sorted k n xs in rw (e, ih) (omega arith)
]

pub times-sort : (k : ℕ) (xs : List ℕ) → times k (sort xs) ≡ times k xs
unfolding sort
times-sort k [] = refl
times-sort k (x ∷ xs) =
    let ih = times-sort k xs in let put = times-insert_sorted k x (sort xs) in omega arith

pub times-append : (k : ℕ) (xs ys : List ℕ) → times k (xs ++ ys) ≡ times k xs + times k ys
times-append k [] ys = omega arith
times-append k (x ∷ xs) ys = let ih = times-append k xs ys in omega arith

insert_sorted-IsBelowFirst :
    (n y : ℕ) (xs : List ℕ) → y ≤ n → IsBelowFirst y xs → IsBelowFirst y (insert_sorted n xs)
unfolding insert_sorted
insert_sorted-IsBelowFirst n y [] h b = h
insert_sorted-IsBelowFirst n y (x ∷ xs) h b = elim (Bool-cases (leb n x)) [
  | inl e ↦ rw e h
  | inr e ↦ rw e b
]

insert_sorted-IsAscending :
    (n : ℕ) (xs : List ℕ) → IsAscending xs → IsAscending (insert_sorted n xs)
unfolding insert_sorted
insert_sorted-IsAscending n [] h = (tt, tt)
insert_sorted-IsAscending n (x ∷ xs) (b, rest) = elim (Bool-cases (leb n x)) [
  | inl e ↦ rw e (ground arith, (b, rest))
  | inr e ↦
      rw e (insert_sorted-IsBelowFirst n x xs (ground arith) b, insert_sorted-IsAscending n xs rest)
]

pub sort-IsAscending : (xs : List ℕ) → IsAscending (sort xs)
unfolding sort
sort-IsAscending [] = tt
sort-IsAscending (x ∷ xs) = insert_sorted-IsAscending x (sort xs) (sort-IsAscending xs)
