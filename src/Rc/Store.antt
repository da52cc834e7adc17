-- ===== src/Rc/Store.antt =====
-- The counts of every object of a store, against a list of handles (src/rc.h).
use native.Mathlib.Decide.{ℕ_discrete}
use gamescope.Common.{
  Bool, List, [], ap, arith, false, get_elem?, if-true, length, length-set, refl, set, some, suc,
  sym, true, zero, ℕ, ◌<◌, ◌==◌, ◌∷◌, ◌≡◌, ◌≤◌,
}
use gamescope.Rc.{RcHandle, RcObject, done, modify}
use gamescope.Rc.Counts.{IsCounted}
use gamescope.Rc.Handles.{RefersAlike, all_references, references}

-- Every handle points into the store, and the counts of every object are those of its handles.
pub record IsConsistent (objects : List RcObject) (handles : List RcHandle) : Type 0 where
  pub in_store : (p : ℕ) → 1 ≤ all_references p handles → p < length objects
  pub counted :
      (p : ℕ) (o : RcObject)
      → get_elem? objects p ≡ some o
      → IsCounted (references true p handles) (references false p handles) o

-- Only the numbers of the handles matter.
pub IsConsistent-alike :
    (objects : List RcObject) (hs ks : List RcHandle)
    → RefersAlike hs ks
    → IsConsistent objects hs
    → IsConsistent objects ks
IsConsistent-alike objects hs ks alike inv = record {
  in_store = λ p h. inv.in_store p (let a = alike true p in let b = alike false p in omega arith);
  counted = λ p o e. rw (← alike true p, ← alike false p) (inv.counted p o e);
}

get-below : {A : Type 0} (xs : List A) (i : ℕ) → i < length xs → (a : A) × (get_elem? xs i ≡ some a)
get-below [] i h = absurd (omega arith)
get-below (x ∷ xs) zero h = (x, refl)
get-below (x ∷ xs) (suc i) h = get-below xs i (omega arith)

-- What a write leaves at each place.
get-set-same :
    {A : Type 0} (xs : List A) (i : ℕ) (a b : A) → get_elem? (set xs i a) i ≡ some b → a ≡ b
get-set-same [] i a b h = cc
get-set-same (x ∷ xs) zero a b h = cc
get-set-same (x ∷ xs) (suc i) a b h = get-set-same xs i a b h

pub get-set-here :
    {A : Type 0} (xs : List A) (i : ℕ) (a b : A)
    → get_elem? xs i ≡ some a
    → get_elem? (set xs i b) i ≡ some b
get-set-here [] i a b h = cc
get-set-here (x ∷ xs) zero a b h = refl
get-set-here (x ∷ xs) (suc i) a b h = get-set-here xs i a b h

pub get-set-other :
    {A : Type 0} (xs : List A) (i j : ℕ) (a : A)
    → (i ≡ j → ⊥)
    → get_elem? (set xs i a) j ≡ get_elem? xs j
get-set-other [] i j a h = refl
get-set-other (x ∷ xs) zero zero a h = absurd (h refl)
get-set-other (x ∷ xs) zero (suc j) a h = refl
get-set-other (x ∷ xs) (suc i) zero a h = refl
get-set-other (x ∷ xs) (suc i) (suc j) a h = get-set-other xs i j a λ e. h (ap suc e)

-- A change of the object at p keeps a store consistent when it goes with the change of p's handles
-- and no other object's handles change.
module _ (f : RcObject → RcObject) (objects : List RcObject) (hs ks : List RcHandle) (p : ℕ) where
  pub modify-IsConsistent :
      IsConsistent objects hs
      → 1 ≤ all_references p hs
      → ((q : ℕ) → (q ≡ p → ⊥) → (kind : Bool) → references kind q hs ≡ references kind q ks)
      → ((o : RcObject)
          → IsCounted (references true p hs) (references false p hs) o
          → IsCounted (references true p ks) (references false p ks) (f o))
      → (changed : List RcObject) × (modify f p objects ≡ done changed) × IsConsistent changed ks
  unfolding modify
  modify-IsConsistent inv referred others here =
      let (o, e) = get-below objects p (inv.in_store p referred) in
      (
        set objects p (f o),
        found o e (inv.counted p o e),
        record {
          in_store = λ q h. rw (length-set objects p (f o)) (elim (ℕ_discrete q p) [
            | yes same ↦ rw same (inv.in_store p referred)
            | no other ↦
                let a = others q other true in
                let b = others q other false in inv.in_store q (omega arith)
          ]);
          counted = λ q o' e'. elim (ℕ_discrete q p) [
            | yes same ↦
                let stored : f o ≡ o' = get-set-same objects p (f o) o' (rw same at e') in
                rw (same, ← stored) (here o (inv.counted p o e))
            | no other ↦
                let kept = get-set-other objects p q (f o) λ h. other (sym h) in
                rw (← others q other true, ← others q other false)
                  (inv.counted q o' (rw kept at e'))
          ];
        },
      )
    where
      found :
          (o : RcObject)
          → get_elem? objects p ≡ some o
          → IsCounted (references true p hs) (references false p hs) o
          → modify f p objects ≡ done (set objects p (f o))
      found o e (kept, count, private, dead) =
          let alive : (o.deletions == 0) ≡ true = ground arith in rw (modify, e) (if-true _ _ alive)
