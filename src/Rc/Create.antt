-- ===== src/Rc/Create.antt =====
-- A new object and its first handle (src/rc.h).
use native.Mathlib.Decide.{dec_lt, ℕ_discrete}
use gamescope.Common.{
  Bool, List, [], ap, arith, false, get_elem?, inl, inr, length, length-append, not, refl, set,
  some, suc, true, zero, ℕ, ◌++◌, ◌<◌, ◌∷◌, ◌≡◌, ◌≤◌, ◌⊎◌,
}
use gamescope.Rc.{RcHandle, RcObject, done, inc_handle, modify, new_object}
use gamescope.Rc.Counts.{IsCounted, inc_of, new-IsCounted, one_if}
use gamescope.Rc.Handles.{all_references, references}
use gamescope.Rc.Steps.{elsewhere, private_here, public_here}
use gamescope.Rc.Store.{IsConsistent}

module _ {A : Type 0} where
  get-append-end : (xs : List A) (a : A) → get_elem? (xs ++ a ∷ []) (length xs) ≡ some a
  get-append-end [] a = refl
  get-append-end (x ∷ xs) a = get-append-end xs a

  set-append-end : (xs : List A) (a b : A) → set (xs ++ a ∷ []) (length xs) b ≡ xs ++ b ∷ []
  set-append-end [] a b = refl
  set-append-end (x ∷ xs) a b = ap (◌∷◌ x) (set-append-end xs a b)

  -- The places of a list with one more element at its end.
  get-append-cases :
      (xs : List A) (a b : A) (i : ℕ)
      → get_elem? (xs ++ a ∷ []) i ≡ some b
      → ((i < length xs) × (get_elem? xs i ≡ some b)) ⊎ ((i ≡ length xs) × (a ≡ b))
  get-append-cases [] a b zero e = inr (refl, cc)
  get-append-cases [] a b (suc i) e = cc
  get-append-cases (x ∷ xs) a b zero e = inl (omega arith, e)
  get-append-cases (x ∷ xs) a b (suc i) e = elim (get-append-cases xs a b i e) [
    | inl (lt, here) ↦ inl (omega arith, here)
    | inr (at, same) ↦ inr (ap suc at, same)
  ]

-- No handle points past the store.
unreferred :
    (objects : List RcObject) (hs : List RcHandle) (q : ℕ)
    → IsConsistent objects hs
    → length objects ≤ q
    → all_references q hs ≡ 0
unreferred objects hs q inv h = elim (dec_lt 0 (all_references q hs)) [
  | yes some_left ↦ let lt = inv.in_store q some_left in absurd (omega arith)
  | no none_left ↦ omega arith
]

module _ (is_public : Bool) (objects : List RcObject) (hs : List RcHandle)
    (inv : IsConsistent objects hs) where
  abbrev first : RcHandle
  first = record { is_public = is_public; object = some (length objects) }

  abbrev held : List RcObject
  held = objects ++ inc_of is_public new_object ∷ []

  IsCounted-after :
      (p : ℕ) (o : RcObject)
      → get_elem? held p ≡ some o
      → IsCounted (references true p (first ∷ hs)) (references false p (first ∷ hs)) o
  IsCounted-after p o e = elim (get-append-cases objects (inc_of is_public new_object) o p e) [
    | inl (lt, here) ↦
        let other = elsewhere is_public (length objects) hs p λ same. omega arith in
        rw (← other true, ← other false) (inv.counted p o here)
    | inr (at, same) ↦
        let none_left = unreferred objects hs (length objects) inv (omega arith) in
        let public = public_here is_public (length objects) hs in
        let private = private_here is_public (length objects) hs in
        let a : references true (length objects) (first ∷ hs) ≡ one_if is_public = omega arith in
        let b : references false (length objects) (first ∷ hs) ≡ one_if (not is_public) =
          omega arith in
        rw (at, ← same, a, b) (new-IsCounted is_public)
  ]

  in_store_after : (p : ℕ) → 1 ≤ all_references p (first ∷ hs) → p < length held
  in_store_after p h =
      let one_more = length-append objects (inc_of is_public new_object ∷ []) in
      elim (ℕ_discrete p (length objects)) [
        | yes same ↦ omega arith
        | no other ↦
            let a = elsewhere is_public (length objects) hs p other true in
            let b = elsewhere is_public (length objects) hs p other false in
            let lt = inv.in_store p (omega arith) in omega arith
      ]

  -- The constructor of a handle for a new object succeeds.
  pub create-IsConsistent :
      (changed : List RcObject) × (inc_handle first (objects ++ new_object ∷ []) ≡ done changed)
      × IsConsistent changed (first ∷ hs)
  unfolding inc_handle modify
  create-IsConsistent = (
    held,
    rw (inc_handle, modify, get-append-end objects new_object)
        (ap done (set-append-end objects new_object _)),
    record { in_store = in_store_after; counted = IsCounted-after },
  )
