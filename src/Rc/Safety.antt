-- ===== src/Rc/Safety.antt =====
-- No run of operations of handles uses a deleted object (src/rc.h).
use gamescope.Common.{
  Bool, List, Option, Option-cases, [], arith, false, get_elem?, if◌then◌else◌, inl, inr, length,
  length-set, none, not, refl, set, some, suc, true, ℕ, ◌+◌, ◌<◌, ◌==◌, ◌∙◌, ◌∷◌, ◌≡◌, ◌≢◌, ◌≤◌,
}
use gamescope.Rc.{
  Outcome, RcHandle, RcObject, dec_handle, done, has_live_references, ill_formed, inc_handle,
  use_after_free, ◌>>=◌,
}
use gamescope.Rc.Alike.{assigned_alike, converted_alike, moved_alike}
use gamescope.Rc.Counts.{handle_limit, live-IsCounted}
use gamescope.Rc.Create.{create-IsConsistent}
use gamescope.Rc.Handles.{
  RefersAlike, all_references, length-remove, references, references-le-length, references-remove,
  references-set,
}
use gamescope.Rc.Program.{
  Program, RcOperation, assign_converted, assign_copy, assign_move, assign_null, construct_null,
  copy, create, destroy, emptied, empty_program, handle_at, move, on_operation, pointed_at,
  remove_at, run_operations, same_kind, wrap,
}
use gamescope.Rc.Steps.{IsReferred, dec-IsConsistent, inc-IsConsistent, null_alike, referred_here}
use gamescope.Rc.Store.{IsConsistent, IsConsistent-alike}
use gamescope.Vulkan.Barriers.Emit.{each}

-- Operations give a consistent program with a bounded number of handles, or stop where an
-- operation names a handle that is not there.
abbrev IsSafe : ℕ → Outcome Program → Type 0
IsSafe n (done s) = IsConsistent s.objects s.handles × (length s.handles ≤ n)
IsSafe n ill_formed = Unit
IsSafe n use_after_free = ⊥

-- A handle of a list has an object with a handle.
at-IsReferred :
    (hs : List RcHandle) (i : ℕ) (is_public : Bool) (object : Option ℕ)
    → get_elem? hs i ≡ some (record { is_public = is_public; object = object })
    → IsReferred hs object
at-IsReferred hs i is_public none e = tt
at-IsReferred hs i is_public (some p) e =
    let h : RcHandle = record { is_public = is_public; object = some p } in
    let public = references-remove hs i h e true p in
    let private = references-remove hs i h e false p in
    let here = referred_here is_public p (remove_at hs i) in omega arith

either_way :
    (n : ℕ) (b : Bool) (x y : Outcome Program)
    → (b ≡ true → IsSafe n x)
    → IsSafe n y
    → IsSafe n (if b then x else y)
either_way n true x y h k = h refl
either_way n false x y h k = k

-- Dropping the reference of a handle, for a list that refers alike with it, leaves the rest.
dropped :
    (n : ℕ) (objects : List RcObject) (hs rest ks : List RcHandle) (h : RcHandle)
    → length rest + 1 < handle_limit
    → IsConsistent objects hs
    → RefersAlike hs (h ∷ rest)
    → RefersAlike rest ks
    → length ks ≤ n
    → IsSafe n
        (dec_handle h objects >>= λ changed. done (record { objects = changed; handles = ks }))
dropped n objects hs rest ks h small inv alike alike' few =
    let (changed, e, next) =
      dec-IsConsistent objects rest small h.is_public h.object
        (IsConsistent-alike objects hs _ alike inv) in
    rw e (IsConsistent-alike changed rest ks alike' next, few)

module _ (s : Program) (small : length s.handles + 2 < handle_limit)
    (inv : IsConsistent s.objects s.handles) where
  with_handle :
      (i : ℕ) (f : RcHandle → Outcome Program)
      → ((h : RcHandle) → get_elem? s.handles i ≡ some h → IsSafe (suc (length s.handles)) (f h))
      → IsSafe (suc (length s.handles)) (handle_at s.handles i >>= f)
  unfolding handle_at
  with_handle i f each = elim (Option-cases (get_elem? s.handles i)) [
    | inl out ↦ rw (handle_at, out) tt
    | inr (h, e) ↦ rw (handle_at, e) (each h e)
  ]

  -- An emptied handle refers to nothing.
  emptied_alike :
      (i : ℕ) (h : RcHandle)
      → get_elem? s.handles i ≡ some h
      → RefersAlike s.handles (h ∷ set s.handles i (emptied h))
  unfolding references
  emptied_alike i h e kind p =
      let moved = references-set s.handles i h (emptied h) e kind p in omega arith

  small_set : (i : ℕ) (h : RcHandle) → length (set s.handles i h) + 1 < handle_limit
  small_set i h = let same = length-set s.handles i h in omega arith

  fewer : (i : ℕ) (h : RcHandle) → length (set s.handles i h) ≤ suc (length s.handles)
  fewer i h = let same = length-set s.handles i h in omega arith

  copied :
      (is_public : Bool) (h : RcHandle)
      → IsReferred s.handles h.object
      → let k : RcHandle = record { is_public = is_public; object = h.object } in
        IsSafe (suc (length s.handles)) (
          inc_handle k s.objects >>= λ objects.
          done (record { objects = objects; handles = k ∷ s.handles }))
  copied is_public h referred =
      let (objects, e, next) =
        inc-IsConsistent s.objects s.handles (omega arith) is_public h.object inv referred in
      rw e (next, omega arith)

  assigned :
      (i j : ℕ) (h other : RcHandle)
      → get_elem? s.handles i ≡ some h
      → get_elem? s.handles j ≡ some other
      → same_kind h other ≡ true
      → IsSafe (suc (length s.handles)) (
          inc_handle other s.objects >>= λ more. dec_handle h more >>= λ objects.
          done (record { objects = objects; handles = set s.handles i (pointed_at h other) }))
  assigned i j h other eh eo same =
      let referred = at-IsReferred s.handles j other.is_public other.object eo in
      let (more, e, next) =
        inc-IsConsistent s.objects s.handles (omega arith) other.is_public other.object inv
          referred in
      rw e (
        dropped _ more (other ∷ s.handles) (set s.handles i (pointed_at h other)) _ h
          (small_set i _) next (assigned_alike s.handles i h other eh same) (λ kind p. refl)
          (fewer i _))

  converted :
      (i j : ℕ) (h other : RcHandle)
      → get_elem? s.handles i ≡ some h
      → get_elem? s.handles j ≡ some other
      → IsSafe (suc (length s.handles)) (assign_converted i h other s)
  unfolding assign_converted
  converted i j h other eh eo =
      let referred = at-IsReferred s.handles j other.is_public other.object eo in
      let (more, e, next) =
        inc-IsConsistent s.objects s.handles (omega arith) h.is_public other.object inv referred in
      rw e (
        dropped _ more (pointed_at h other ∷ s.handles) (set s.handles i (pointed_at h other)) _ h
          (small_set i _) next (converted_alike s.handles i h other eh) (λ kind p. refl)
          (fewer i _))

  moved :
      (i j : ℕ) (h other : RcHandle)
      → get_elem? s.handles i ≡ some h
      → get_elem? s.handles j ≡ some other
      → same_kind h other ≡ true
      → IsSafe (suc (length s.handles)) (
          dec_handle h s.objects >>= λ objects. done (record {
            objects = objects;
            handles = set (set s.handles i (pointed_at h other)) j (emptied other);
          }))
  moved i j h other eh eo same =
      dropped _ s.objects s.handles (set s.handles i (emptied h)) _ h (small_set i _) inv
        (emptied_alike i h eh) (moved_alike s.handles i h other eh same j eo)
        (let one = length-set s.handles i (pointed_at h other) in
          let two = length-set (set s.handles i (pointed_at h other)) j (emptied other) in
          omega arith)

  on_operation-IsSafe : (op : RcOperation) → IsSafe (suc (length s.handles)) (on_operation op s)
  unfolding on_operation
  on_operation-IsSafe (create is_public) =
      let (objects, e, next) = create-IsConsistent is_public s.objects s.handles inv in
      rw e (next, omega arith)
  on_operation-IsSafe (construct_null is_public) =
      (IsConsistent-alike s.objects s.handles _ (null_alike is_public s.handles) inv, omega arith)
  on_operation-IsSafe (wrap is_public j) =
      with_handle j _
        λ other e. copied is_public other (at-IsReferred s.handles j other.is_public other.object e)
  on_operation-IsSafe (copy is_public j) =
      with_handle j _
        λ other e. copied is_public other (at-IsReferred s.handles j other.is_public other.object e)
  on_operation-IsSafe (move j) = with_handle j _ λ other e. (
    IsConsistent-alike s.objects s.handles _ (emptied_alike j other e) inv,
    (let same = length-set s.handles j (emptied other) in omega arith),
  )
  on_operation-IsSafe (assign_null i) = with_handle i _ λ h e.
      dropped _ s.objects s.handles (set s.handles i (emptied h)) _ h (small_set i _) inv
        (emptied_alike i h e) (λ kind p. refl) (fewer i _)
  on_operation-IsSafe (assign_copy i j) = with_handle i _ λ h eh. with_handle j _ λ other eo.
      either_way _ (same_kind h other) _ _ (assigned i j h other eh eo)
        (converted i j h other eh eo)
  on_operation-IsSafe (assign_move i j) = with_handle i _ λ h eh. with_handle j _ λ other eo.
      either_way _ (same_kind h other) _ _ (moved i j h other eh eo) (converted i j h other eh eo)
  on_operation-IsSafe (destroy i) = with_handle i _ λ h e.
      dropped _ s.objects s.handles (remove_at s.handles i) _ h
        (let fewer = length-remove s.handles i in omega arith) inv
        (references-remove s.handles i h e) (λ kind p. refl)
        (let fewer = length-remove s.handles i in omega arith)

IsSafe-step :
    (n m : ℕ) (o : Outcome Program) (f : Program → Outcome Program)
    → IsSafe n o
    → ((s : Program) → IsConsistent s.objects s.handles → length s.handles ≤ n → IsSafe m (f s))
    → IsSafe m (o >>= f)
IsSafe-step n m (done s) f (inv, few) next = next s inv few
IsSafe-step n m ill_formed f safe next = tt
IsSafe-step n m use_after_free f safe next = safe

run-IsSafe :
    (ops : List RcOperation) (n : ℕ) (s : Program)
    → n + length ops + 1 < handle_limit
    → IsConsistent s.objects s.handles
    → length s.handles ≤ n
    → IsSafe (n + length ops) (run_operations ops s)
unfolding run_operations
run-IsSafe [] n s small inv few = (inv, omega arith)
run-IsSafe (op ∷ ops) n s small inv few =
    let more : n + length (op ∷ ops) ≡ suc n + length ops = omega arith in
    rw more (
      IsSafe-step (suc (length s.handles)) _ (on_operation op s) (run_operations ops)
        (on_operation-IsSafe s (omega arith) inv op)
        λ next kept small'. run-IsSafe ops (suc n) next (omega arith) kept (omega arith))

empty-IsConsistent : IsConsistent [] []
unfolding references
empty-IsConsistent = record { in_store = λ p h. absurd (omega arith); counted = λ p o e. cc }

-- Starting with no object, fewer than 2^31 - 1 operations on handles never use a deleted object. Where they
-- name handles that are there, every handle points to an object of the store, and each object with handles was not
-- deleted and has exact counts, and each one without was deleted once.
pub operations_are_safe :
    (ops : List RcOperation)
    → length ops + 1 < handle_limit
    → (run_operations ops empty_program ≢ use_after_free)
      × ((s : Program)
          → run_operations ops empty_program ≡ done s
          → IsConsistent s.objects s.handles)
operations_are_safe ops small =
    let safe : IsSafe (0 + length ops) (run_operations ops empty_program) =
      run-IsSafe ops 0 empty_program (omega arith) empty-IsConsistent (omega arith) in
    (λ e. rw e at safe, λ s e. let kept = rw e at safe in kept.0)

-- In such a program, HasLiveReferences of an object says whether it was not deleted, which is whether a
-- handle points to it.
live_references_lem :
    (ops : List RcOperation) (s : Program) (p : ℕ) (o : RcObject)
    → length ops + 1 < handle_limit
    → run_operations ops empty_program ≡ done s
    → get_elem? s.objects p ≡ some o
    → (has_live_references o ≡ not (all_references p s.handles == 0))
      × (o.deletions ≡ (if all_references p s.handles == 0 then 1 else 0))
live_references_lem ops s p o small e found =
    let safe = run-IsSafe ops 0 empty_program (omega arith) empty-IsConsistent (omega arith) in
    let (inv, few) = rw e at safe in
    let counts = inv.counted p o found in
    let le = references-le-length s.handles p in
    let live = live-IsCounted _ _ o (omega arith) counts in
    let deleted = counts.0 in (live ∙ ground arith, deleted)
