-- ===== src/Rc/Steps.antt =====
-- IncRef and DecRef of a handle (src/rc.h) on a consistent store.
use gamescope.Common.{
  Bool, Bool-cases, List, Option, arith, false, inl, inr, length, none, not, refl, some, sym, true,
  ℕ, ≢→==, ◌+◌, ◌<◌, ◌==◌, ◌∷◌, ◌≡◌, ◌≤◌,
}
use gamescope.Rc.{RcHandle, RcObject, dec_handle, done, inc_handle}
use gamescope.Rc.Counts.{dec-IsCounted, dec_of, handle_limit, inc-IsCounted, inc_of, one_if}
use gamescope.Rc.Handles.{RefersAlike, all_references, references, references-le-length}
use gamescope.Rc.Store.{IsConsistent, IsConsistent-alike, modify-IsConsistent}

equal_self : (p : ℕ) → (p == p) ≡ true
equal_self p = ground arith

-- What a handle to p adds to the counts of p, and to those of another object.
module _ (is_public : Bool) (p : ℕ) (hs : List RcHandle) where
  abbrev handle : RcHandle
  handle = record { is_public = is_public; object = some p }

  pub public_here : references true p (handle ∷ hs) ≡ one_if is_public + references true p hs
  unfolding references
  public_here = rw (equal_self p) refl

  pub private_here :
      references false p (handle ∷ hs) ≡ one_if (not is_public) + references false p hs
  unfolding references
  private_here = rw (equal_self p) refl

  pub elsewhere :
      (q : ℕ) → (q ≡ p → ⊥) → (kind : Bool) → references kind q hs ≡ references kind q (handle ∷ hs)
  unfolding references
  elsewhere q other kind = let no = ≢→== q p other in rw no (omega arith)

  pub referred_here : 1 ≤ all_references p (handle ∷ hs)
  referred_here =
      let a = public_here in
      let b = private_here in
      elim (Bool-cases is_public) [ inl yes_public ↦ ground arith | inr no_public ↦ ground arith ]

-- A handle that points nowhere adds nothing.
pub null_alike :
    (is_public : Bool) (hs : List RcHandle)
    → RefersAlike hs (record { is_public = is_public; object = none } ∷ hs)
unfolding references
null_alike is_public hs kind p = omega arith

-- The object of a handle, if any, has another handle.
abbrev pub IsReferred : List RcHandle → Option ℕ → Type 0
IsReferred hs none = Unit
IsReferred hs (some p) = 1 ≤ all_references p hs

module _ (objects : List RcObject) (hs : List RcHandle) (small : length hs + 1 < handle_limit) where
  -- IncRef for one more handle to an object that has one succeeds.
  pub inc-IsConsistent :
      (is_public : Bool) (object : Option ℕ)
      → IsConsistent objects hs
      → IsReferred hs object
      → let h : RcHandle = record { is_public = is_public; object = object } in
        (changed : List RcObject) × (inc_handle h objects ≡ done changed)
        × IsConsistent changed (h ∷ hs)
  unfolding inc_handle
  inc-IsConsistent is_public none inv referred =
      (objects, refl, IsConsistent-alike objects hs _ (null_alike is_public hs) inv)
  inc-IsConsistent is_public (some p) inv referred =
      let le = references-le-length hs p in
      modify-IsConsistent (inc_of is_public) objects hs _ p inv referred (elsewhere is_public p hs)
        λ o c.
          rw (public_here is_public p hs, private_here is_public p hs)
            (inc-IsCounted is_public _ _ o (omega arith) referred c)

  -- DecRef for a handle that goes succeeds.
  pub dec-IsConsistent :
      (is_public : Bool) (object : Option ℕ)
      → let h : RcHandle = record { is_public = is_public; object = object } in
        IsConsistent objects (h ∷ hs)
        → (changed : List RcObject) × (dec_handle h objects ≡ done changed)
          × IsConsistent changed hs
  unfolding dec_handle
  dec-IsConsistent is_public none inv = (
    objects,
    refl,
    IsConsistent-alike objects _ hs (λ kind p. sym (null_alike is_public hs kind p)) inv,
  )
  dec-IsConsistent is_public (some p) inv =
      let le = references-le-length hs p in
      modify-IsConsistent (dec_of is_public) objects _ hs p inv (referred_here is_public p hs)
        (λ q other kind. sym (elsewhere is_public p hs q other kind))
        λ o c.
          dec-IsCounted is_public _ _ o (omega arith)
            (rw (← public_here is_public p hs, ← private_here is_public p hs) c)
