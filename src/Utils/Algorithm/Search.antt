-- ===== src/Utils/Algorithm/Search.antt =====
-- What the searches of src/Utils/Algorithm.h find: all of them agree with the first element that is equal.
use gamescope.Common.{
  Bool, Bool-cases, List, [], arith, false, get_elem?, inl, inr, length, refl, some, suc, true,
  zero, ℕ, ◌/◌, ◌<◌, ◌||◌, ◌∷◌, ◌≡◌, ◌≤◌,
}
use gamescope.Utils.Algorithm.{
  contains_blocks, contains_no_shortcut, contains_rest, contains_shortcut, find_blocks,
  find_by_four, find_rest, find_simple,
}

module _ {A : Type 0} (equals : A → A → Bool) (obj : A) where
  find-le-length : (xs : List A) → find_simple equals obj xs ≤ length xs
  unfolding find_simple
  find-le-length [] = omega arith
  find-le-length (x ∷ xs) = let rest = find-le-length xs in ground arith

  -- Elements before the iterator that Find returns differ from the searched one, and the element that it
  -- points to, if any, is equal.
  find_simple_lem :
      (xs : List A) (i : ℕ) (x : A)
      → get_elem? xs i ≡ some x
      → (i < find_simple equals obj xs → equals x obj ≡ false)
        × (i ≡ find_simple equals obj xs → equals x obj ≡ true)
  unfolding find_simple
  find_simple_lem [] i x e = cc
  find_simple_lem (y ∷ xs) zero x e =
      let same : y ≡ x = cc in
      elim (Bool-cases (equals x obj)) [
        | inl equal ↦ rw (same, equal) (λ h. absurd (omega arith), λ h. refl)
        | inr other ↦ rw (same, other) (λ h. refl, λ h. absurd (omega arith))
      ]
  find_simple_lem (y ∷ xs) (suc i) x e =
      let (before, at) = find_simple_lem xs i x e in
      elim (Bool-cases (equals y obj)) [
        | inl equal ↦ rw equal (λ h. absurd (omega arith), λ h. absurd (omega arith))
        | inr other ↦ rw other (λ h. before (omega arith), λ h. at (omega arith))
      ]

  blocks-find :
      (n : ℕ) (xs : List A)
      → length xs / 4 ≡ n
      → find_blocks equals obj n xs ≡ some (find_simple equals obj xs)
  unfolding find_blocks find_rest find_simple
  blocks-find zero [] h = refl
  blocks-find zero (a ∷ []) h = ground arith
  blocks-find zero (a ∷ b ∷ []) h = ground arith
  blocks-find zero (a ∷ b ∷ c ∷ []) h = ground arith
  blocks-find zero (a ∷ b ∷ c ∷ d ∷ xs) h = absurd (omega arith)
  blocks-find (suc n) (a ∷ b ∷ c ∷ d ∷ xs) h =
      let rest = blocks-find n xs (omega arith) in rw rest (ground arith)
  blocks-find (suc n) [] h = absurd (omega arith)
  blocks-find (suc n) (a ∷ []) h = absurd (omega arith)
  blocks-find (suc n) (a ∷ b ∷ []) h = absurd (omega arith)
  blocks-find (suc n) (a ∷ b ∷ c ∷ []) h = absurd (omega arith)

  contains-cons :
      (x : A) (xs : List A)
      → contains_shortcut equals obj (x ∷ xs) ≡ (equals x obj || contains_shortcut equals obj xs)
  unfolding contains_shortcut find_simple
  contains-cons x xs = elim (Bool-cases (equals x obj)) [
    | inl equal ↦ rw equal (ground arith)
    | inr other ↦ rw other (ground arith)
  ]

  contains-nil : contains_shortcut equals obj [] ≡ false
  unfolding contains_shortcut find_simple
  contains-nil = refl

  or_false : (b : Bool) → (b || false) ≡ b
  or_false true = refl
  or_false false = refl

  or_assoc : (a b c : Bool) → ((a || b) || c) ≡ (a || (b || c))
  or_assoc true b c = refl
  or_assoc false b c = refl

  blocks-contains :
      (n : ℕ) (found : Bool) (xs : List A)
      → length xs / 4 ≡ n
      → contains_blocks equals obj n found xs ≡ some (found || contains_shortcut equals obj xs)
  unfolding contains_blocks contains_rest
  blocks-contains zero found [] h = simp (contains-nil, or_false)
  blocks-contains zero found (a ∷ []) h = simp (contains-cons, contains-nil, or_false)
  blocks-contains zero found (a ∷ b ∷ []) h = simp (contains-cons, contains-nil, or_false)
  blocks-contains zero found (a ∷ b ∷ c ∷ []) h = simp (contains-cons, contains-nil, or_false)
  blocks-contains zero found (a ∷ b ∷ c ∷ d ∷ xs) h = absurd (omega arith)
  blocks-contains (suc n) found (a ∷ b ∷ c ∷ d ∷ xs) h =
      let rest =
        blocks-contains n
          (found || (equals a obj || (equals b obj || (equals c obj || equals d obj)))) xs
          (omega arith) in
      simp (contains-cons, rest, or_assoc)
  blocks-contains (suc n) found [] h = absurd (omega arith)
  blocks-contains (suc n) found (a ∷ []) h = absurd (omega arith)
  blocks-contains (suc n) found (a ∷ b ∷ []) h = absurd (omega arith)
  blocks-contains (suc n) found (a ∷ b ∷ c ∷ []) h = absurd (omega arith)

  -- FindByFour and ContainsNoShortcut read no element past the end, and give what the plain loops give:
  -- the first equal element or the end, and whether there is one.
  pub unrolled_searches_agree :
      (xs : List A)
      → (find_by_four equals obj xs ≡ some (find_simple equals obj xs))
        × (contains_no_shortcut equals obj xs ≡ some (contains_shortcut equals obj xs))
  unfolding find_by_four contains_no_shortcut
  unrolled_searches_agree xs =
      (blocks-find (length xs / 4) xs refl, blocks-contains (length xs / 4) false xs refl)
