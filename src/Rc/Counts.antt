-- ===== src/Rc/Counts.antt =====
-- The counts of one object (src/rc.h), against the numbers of its public and private handles.
use native.Mathlib.Decide.{dec_lt}
use gamescope.Common.{
  Bool, arith, false, if◌then◌else◌, not, refl, true, ℕ, ◌+◌, ◌<◌, ◌==◌, ◌≡◌, ◌≤◌,
}
use gamescope.Framegen.Shed.Count.{live}
use gamescope.Rc.{
  RcObject, dec_ref, dec_ref_private, has_live_references, inc_ref, inc_ref_private, new_object,
}

-- An object without handles was deleted once. Another was not deleted, and its counts are exact: the
-- public handles share one private reference.
abbrev pub IsCounted : ℕ → ℕ → RcObject → Type 0
IsCounted a b o =
    (o.deletions ≡ (if a + b == 0 then 1 else 0))
    × (1 ≤ a + b → o.ref_count ≡ a)
    × (1 ≤ a + b → o.ref_private ≡ b + (if a == 0 then 0 else 1))
    × (a + b ≡ 0 → (o.ref_count ≡ 0) × (o.ref_private ≡ 2147483648))

-- More handles than this the counts do not hold.
abbrev pub handle_limit : ℕ
handle_limit = 2147483648

-- What the operation of a handle of a kind does to its object.
abbrev pub inc_of : Bool → RcObject → RcObject
inc_of is_public = if is_public then inc_ref else inc_ref_private

abbrev pub dec_of : Bool → RcObject → RcObject
dec_of is_public = if is_public then dec_ref else dec_ref_private

abbrev pub one_if : Bool → ℕ
one_if b = if b then 1 else 0

pub inc-IsCounted :
    (is_public : Bool) (a b : ℕ) (o : RcObject)
    → a + b + 1 < handle_limit
    → 1 ≤ a + b
    → IsCounted a b o
    → IsCounted (one_if is_public + a) (one_if (not is_public) + b) (inc_of is_public o)
unfolding inc_ref inc_ref_private
inc-IsCounted true a b o small some_left (live, public, private, dead) =
    let count = public some_left in
    let kept = private some_left in
    (ground arith, λ h. ground arith, λ h. ground arith, λ h. absurd (omega arith))
inc-IsCounted false a b o small some_left (live, public, private, dead) =
    let count = public some_left in
    let kept = private some_left in
    (ground arith, λ h. ground arith, λ h. ground arith, λ h. absurd (omega arith))

pub dec-IsCounted :
    (is_public : Bool) (a b : ℕ) (o : RcObject)
    → a + b + 1 < handle_limit
    → IsCounted (one_if is_public + a) (one_if (not is_public) + b) o
    → IsCounted a b (dec_of is_public o)
unfolding dec_ref dec_ref_private
dec-IsCounted true a b o small (live, public, private, dead) =
    let count = public (omega arith) in
    let kept = private (omega arith) in
    (ground arith, λ h. ground arith, λ h. ground arith, λ h. (ground arith, ground arith))
dec-IsCounted false a b o small (live, public, private, dead) =
    let count = public (omega arith) in
    let kept = private (omega arith) in
    (ground arith, λ h. ground arith, λ h. ground arith, λ h. (ground arith, ground arith))

pub new-IsCounted :
    (is_public : Bool)
    → IsCounted (one_if is_public) (one_if (not is_public)) (inc_of is_public new_object)
unfolding inc_ref inc_ref_private
new-IsCounted true = (refl, λ h. refl, λ h. refl, λ h. absurd (omega arith))
new-IsCounted false = (refl, λ h. refl, λ h. refl, λ h. absurd (omega arith))

-- HasLiveReferences says whether the object was not deleted.
pub live-IsCounted :
    (a b : ℕ) (o : RcObject)
    → a + b + 1 < handle_limit
    → IsCounted a b o
    → has_live_references o ≡ (o.deletions == 0)
unfolding has_live_references
live-IsCounted a b o small (live, public, private, dead) = elim (dec_lt 0 (a + b)) [
  | yes some_left ↦ let count = public some_left in let kept = private some_left in ground arith
  | no none_left ↦ let (count, kept) = dead (omega arith) in ground arith
]
