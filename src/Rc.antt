-- ===== src/Rc.antt =====
-- Reference counts: RcObject and Rc of src/rc.h. Objects live in a store, a pointer is an index into
-- it, and the handles are the Rc variables of a program, of either kind. The counts are uint32_t. An
-- object that owns handles itself, and counts that two threads change, are not modelled.
pub mod Program
pub mod Counts
pub mod Handles
pub mod Store
pub mod Steps
pub mod Create
pub mod Alike
pub mod Safety
pub mod Compare
mod Examples
use gamescope.Common.{
  Bool, List, Option, add_u32, get_elem?, if◌then◌else◌, none, not, set, some, ℕ, ◌%◌, ◌+◌, ◌==◌,
  ◌||◌,
}

-- The counts that the operations return are left out: RcRef_ drops them.
--
-- `deletions` counts how often `delete this` ran.
pub record RcObject : Type 0 where
  pub ref_count : ℕ
  pub ref_private : ℕ
  pub deletions : ℕ

abbrev pub new_object : RcObject
new_object = record { ref_count = 0; ref_private = 0; deletions = 0 }

pub inc_ref_private : RcObject → RcObject
inc_ref_private o = record o { ref_private = add_u32 o.ref_private 1 }

pub dec_ref_private : RcObject → RcObject
dec_ref_private o =
    let left = add_u32 o.ref_private 4294967295 in
    if left == 0
    then record o { ref_private = add_u32 left 2147483648; deletions = o.deletions + 1 }
    else record o { ref_private = left }

-- The first public reference takes a private one, and the last gives it back.
pub inc_ref : RcObject → RcObject
inc_ref o =
    let more = record o { ref_count = add_u32 o.ref_count 1 } in
    if o.ref_count == 0 then inc_ref_private more else more

pub dec_ref : RcObject → RcObject
dec_ref o =
    let left = add_u32 o.ref_count 4294967295 in
    let less = record o { ref_count = left } in if left == 0 then dec_ref_private less else less

-- m_uRefCount | ( m_uRefPrivate & 0x7FFFFFFF )
pub has_live_references : RcObject → Bool
has_live_references o = not (o.ref_count == 0) || not (o.ref_private % 2147483648 == 0)

-- Rc<T, Public>, with its m_pObject.
pub record RcHandle : Type 0 where
  pub is_public : Bool
  pub object : Option ℕ

-- Why an operation has no result: it names a handle that is not there, or it reads a deleted object.
pub data Outcome {ℓ} (A : Type ℓ) : Type ℓ where
  done : A → Outcome A
  ill_formed : Outcome A
  use_after_free : Outcome A

infixl 5 ◌>>=◌
abbrev pub ◌>>=◌ {ℓ κ} : {A : Type ℓ} {B : Type κ} → Outcome A → (A → Outcome B) → Outcome B
done a >>= f = f a
ill_formed >>= f = ill_formed
use_after_free >>= f = use_after_free

-- A change of the object at a pointer.
pub modify : (RcObject → RcObject) → ℕ → List RcObject → Outcome (List RcObject)
modify f p objects = elim (get_elem? objects p) [
  | none ↦ use_after_free
  | some o ↦ if o.deletions == 0 then done (set objects p (f o)) else use_after_free
]

-- Rc::IncRef and Rc::DecRef, by the two RcRef_.
pub inc_handle : RcHandle → List RcObject → Outcome (List RcObject)
inc_handle h objects = elim h.object [
  | none ↦ done objects
  | some p ↦ modify (if h.is_public then inc_ref else inc_ref_private) p objects
]

pub dec_handle : RcHandle → List RcObject → Outcome (List RcObject)
dec_handle h objects = elim h.object [
  | none ↦ done objects
  | some p ↦ modify (if h.is_public then dec_ref else dec_ref_private) p objects
]
