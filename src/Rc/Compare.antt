-- ===== src/Rc/Compare.antt =====
-- The comparisons of Rc (src/rc.h): with another handle, with a raw pointer, and with nullptr.
use gamescope.Common.{
  ==_iff, Bool, Option, ap, false, none, not, refl, some, true, ℕ, ◌==◌, ◌↔◌, ◌≡◌,
}
use gamescope.Rc.{RcHandle}

-- Equality of pointers, of which none is nullptr.
abbrev equal_pointers : Option ℕ → Option ℕ → Bool
equal_pointers none none = true
equal_pointers none (some q) = false
equal_pointers (some p) none = false
equal_pointers (some p) (some q) = p == q

pub equal_rc : RcHandle → RcHandle → Bool
equal_rc h other = equal_pointers h.object other.object

pub not_equal_rc : RcHandle → RcHandle → Bool
not_equal_rc h other = not (equal_pointers h.object other.object)

pub equal_raw : RcHandle → Option ℕ → Bool
equal_raw h pointer = equal_pointers h.object pointer

-- As written, m_pObject == pOther.
pub not_equal_raw : RcHandle → Option ℕ → Bool
not_equal_raw h pointer = equal_pointers h.object pointer

pub equal_null : RcHandle → Bool
equal_null h = equal_pointers h.object none

pub not_equal_null : RcHandle → Bool
not_equal_null h = not (equal_pointers h.object none)

-- operator bool
pub is_set : RcHandle → Bool
is_set h = not (equal_pointers h.object none)

pointers_iff : (p q : Option ℕ) → (equal_pointers p q ≡ true) ↔ (p ≡ q)
pointers_iff none none = (λ h. refl, λ h. refl)
pointers_iff none (some q) = (λ h. cc, λ h. cc)
pointers_iff (some p) none = (λ h. cc, λ h. cc)
pointers_iff (some p) (some q) =
    (λ h. ap some ((==_iff p q).0 h), λ h. let same : p ≡ q = cc in (==_iff p q).1 same)

-- Handles compare equal exactly when they point to one object, and != negates == for handles and for
-- nullptr; but != with a raw pointer holds exactly when the handle points to that object.
raw_inequality_inverted :
    (h other : RcHandle) (pointer : Option ℕ)
    → ((equal_rc h other ≡ true) ↔ (h.object ≡ other.object))
      × (not_equal_rc h other ≡ not (equal_rc h other))
      × (not_equal_null h ≡ not (equal_null h))
      × (is_set h ≡ not (equal_raw h none))
      × ((not_equal_raw h pointer ≡ true) ↔ (h.object ≡ pointer))
unfolding equal_rc not_equal_rc equal_raw not_equal_raw equal_null not_equal_null is_set
raw_inequality_inverted h other pointer =
    (pointers_iff h.object other.object, refl, refl, refl, pointers_iff h.object pointer)
