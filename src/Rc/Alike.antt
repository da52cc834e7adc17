-- ===== src/Rc/Alike.antt =====
-- Assignments between handles of one kind (src/rc.h): which lists of handles refer alike.
use native.Mathlib.Decide.{ℕ_discrete}
use gamescope.Common.{
  Bool, List, ap, arith, false, get_elem?, if◌then◌else◌, not, refl, set, some, sym, true, ℕ, ◌∙◌,
  ◌∷◌, ◌≡◌,
}
use gamescope.Rc.{RcHandle}
use gamescope.Rc.Handles.{RefersAlike, references, references-set, refers, refers_by}
use gamescope.Rc.Program.{emptied, pointed_at, same_kind}
use gamescope.Rc.Store.{get-set-here, get-set-other}

kinds_agree : (a b : Bool) → (if a then b else not b) ≡ true → a ≡ b
kinds_agree true b h = sym h
kinds_agree false true h = h
kinds_agree false false h = refl

-- Handles of one kind to one object refer alike.
pointed_alike :
    (h other : RcHandle)
    → same_kind h other ≡ true
    → (kind : Bool) (p : ℕ) → refers kind p (pointed_at h other) ≡ refers kind p other
pointed_alike h other same kind p =
    let kinds : h.is_public ≡ other.is_public = kinds_agree h.is_public other.is_public same in
    ap (λ b. refers_by kind p b other.object) kinds

-- The assigned handle takes over what a temporary of its kind refers to.
pub converted_alike :
    (hs : List RcHandle) (i : ℕ) (h other : RcHandle)
    → get_elem? hs i ≡ some h
    → RefersAlike (pointed_at h other ∷ hs) (h ∷ set hs i (pointed_at h other))
unfolding references
converted_alike hs i h other eh kind p =
    let changed = references-set hs i h (pointed_at h other) eh kind p in omega arith

module _ (hs : List RcHandle) (i : ℕ) (h other : RcHandle) (eh : get_elem? hs i ≡ some h)
    (same : same_kind h other ≡ true) where
  -- The assigned handle takes over what the other refers to.
  pub assigned_alike : RefersAlike (other ∷ hs) (h ∷ set hs i (pointed_at h other))
  unfolding references
  assigned_alike kind p =
      let changed = references-set hs i h (pointed_at h other) eh kind p in
      let alike = pointed_alike h other same kind p in omega arith

  -- What stands at the place of the other handle then refers like it, also when it is the same place.
  other_after :
      (j : ℕ)
      → get_elem? hs j ≡ some other
      → (x : RcHandle) × (get_elem? (set hs i (pointed_at h other)) j ≡ some x)
        × ((kind : Bool) (p : ℕ) → refers kind p x ≡ refers kind p other)
  other_after j eo = elim (ℕ_discrete i j) [
    | yes agree ↦
        let found = get-set-here hs i h (pointed_at h other) eh in
        (pointed_at h other, rw (← agree) found, pointed_alike h other same)
    | no there ↦ (other, get-set-other hs i j (pointed_at h other) there ∙ eo, λ kind p. refl)
  ]

  -- A move assignment refers like a list without the assigned handle's reference.
  pub moved_alike :
      (j : ℕ)
      → get_elem? hs j ≡ some other
      → RefersAlike (set hs i (emptied h)) (set (set hs i (pointed_at h other)) j (emptied other))
  unfolding references
  moved_alike j eo kind p =
      let (x, ex, like) = other_after j eo in
      let first = references-set hs i h (pointed_at h other) eh kind p in
      let second = references-set (set hs i (pointed_at h other)) j x (emptied other) ex kind p in
      let alike = pointed_alike h other same kind p in
      let like_other = like kind p in
      let empty = references-set hs i h (emptied h) eh kind p in omega arith
