-- ===== src/Rc/Handles.antt =====
-- How many handles of a list refer to an object (src/rc.h).
use gamescope.Common.{
  Bool, List, Option, [], arith, false, get_elem?, if◌then◌else◌, length, none, not, refl, set,
  some, suc, true, zero, ℕ, ◌+◌, ◌==◌, ◌∷◌, ◌≡◌, ◌≤◌,
}
use gamescope.Rc.{RcHandle}
use gamescope.Rc.Counts.{one_if}
use gamescope.Rc.Program.{remove_at}

-- 1 for a handle of the kind that points to the object.
abbrev pub refers_by : Bool → ℕ → Bool → Option ℕ → ℕ
refers_by kind p is_public none = 0
refers_by kind p is_public (some q) =
    if p == q then (if kind then one_if is_public else one_if (not is_public)) else 0

abbrev pub refers : Bool → ℕ → RcHandle → ℕ
refers kind p h = refers_by kind p h.is_public h.object

unfoldable pub references : Bool → ℕ → List RcHandle → ℕ
references kind p [] = 0
references kind p (h ∷ hs) = refers kind p h + references kind p hs

-- All handles of an object, of both kinds.
abbrev pub all_references : ℕ → List RcHandle → ℕ
all_references p hs = references true p hs + references false p hs

-- Two lists refer to every object alike.
abbrev pub RefersAlike : List RcHandle → List RcHandle → Type 0
RefersAlike hs ks = (kind : Bool) (p : ℕ) → references kind p hs ≡ references kind p ks

pub references-set :
    (hs : List RcHandle) (i : ℕ) (h k : RcHandle)
    → get_elem? hs i ≡ some h
    → RefersAlike (k ∷ hs) (h ∷ set hs i k)
unfolding references
references-set [] i h k e kind p = cc
references-set (x ∷ hs) zero h k e kind p = let same : x ≡ h = cc in rw same (omega arith)
references-set (x ∷ hs) (suc i) h k e kind p =
    let rest = references-set hs i h k e kind p in omega arith

pub references-remove :
    (hs : List RcHandle) (i : ℕ) (h : RcHandle)
    → get_elem? hs i ≡ some h
    → RefersAlike hs (h ∷ remove_at hs i)
unfolding references
references-remove [] i h e kind p = cc
references-remove (x ∷ hs) zero h e kind p = let same : x ≡ h = cc in rw same refl
references-remove (x ∷ hs) (suc i) h e kind p =
    let rest = references-remove hs i h e kind p in omega arith

-- A handle refers to an object as one of the two kinds.
refers_once :
    (p : ℕ) (is_public : Bool) (object : Option ℕ)
    → refers_by true p is_public object + refers_by false p is_public object ≤ 1
refers_once p is_public none = omega arith
refers_once p true (some q) = ground arith
refers_once p false (some q) = ground arith

pub references-le-length : (hs : List RcHandle) (p : ℕ) → all_references p hs ≤ length hs
unfolding references
references-le-length [] p = omega arith
references-le-length (h ∷ hs) p =
    let rest = references-le-length hs p in
    let once = refers_once p h.is_public h.object in omega arith

pub length-remove : {A : Type 0} (xs : List A) (i : ℕ) → length (remove_at xs i) ≤ length xs
length-remove [] i = omega arith
length-remove (x ∷ xs) zero = omega arith
length-remove (x ∷ xs) (suc i) = let rest = length-remove xs i in omega arith
