-- ===== src/Rc/Program.antt =====
-- The operations of Rc (src/rc.h) on the handles of a program, and runs of them. A handle is given by its
-- place in the list of handles.
use gamescope.Common.{
  Bool, List, [], get_elem?, if◌then◌else◌, length, none, not, set, some, suc, zero, ℕ, ◌++◌, ◌∷◌,
}
use gamescope.Rc.{
  Outcome, RcHandle, RcObject, dec_handle, done, ill_formed, inc_handle, new_object, ◌>>=◌,
}

pub record Program : Type 0 where
  pub objects : List RcObject
  pub handles : List RcHandle

-- The constructors, the assignments and the destructor. `create` allocates the object it wraps, and `wrap`
-- constructs a handle from what get() of another one gives.
pub data RcOperation : Type 0 where
  create : Bool → RcOperation
  construct_null : Bool → RcOperation
  wrap : Bool → ℕ → RcOperation
  copy : Bool → ℕ → RcOperation
  move : ℕ → RcOperation
  assign_null : ℕ → RcOperation
  assign_copy : ℕ → ℕ → RcOperation
  assign_move : ℕ → ℕ → RcOperation
  destroy : ℕ → RcOperation

abbrev pub remove_at {ℓ} : {A : Type ℓ} → List A → ℕ → List A
remove_at [] i = []
remove_at (x ∷ xs) zero = xs
remove_at (x ∷ xs) (suc i) = x ∷ remove_at xs i

unfoldable pub handle_at : List RcHandle → ℕ → Outcome RcHandle
handle_at handles i = elim (get_elem? handles i) [ none ↦ ill_formed | some h ↦ done h ]

abbrev pub same_kind : RcHandle → RcHandle → Bool
same_kind h k = if h.is_public then k.is_public else not k.is_public

abbrev pub emptied : RcHandle → RcHandle
emptied h = record h { object = none }

abbrev pub pointed_at : RcHandle → RcHandle → RcHandle
pointed_at h other = record h { object = other.object }

-- An assignment from a handle of the other kind: a temporary of the kind of the target is constructed,
-- moved from and destroyed.
unfoldable pub assign_converted : ℕ → RcHandle → RcHandle → Program → Outcome Program
assign_converted i h other s = do
  more ← inc_handle (pointed_at h other) s.objects
  objects ← dec_handle h more
  done (record { objects = objects; handles = set s.handles i (pointed_at h other) })

unfoldable pub on_operation : RcOperation → Program → Outcome Program
on_operation (create is_public) s = do
  let h : RcHandle = record { is_public = is_public; object = some (length s.objects) }
  objects ← inc_handle h (s.objects ++ new_object ∷ [])
  done (record { objects = objects; handles = h ∷ s.handles })
on_operation (construct_null is_public) s =
    done (record s { handles = record { is_public = is_public; object = none } ∷ s.handles })
on_operation (wrap is_public j) s = do
  other ← handle_at s.handles j
  let h : RcHandle = record { is_public = is_public; object = other.object }
  objects ← inc_handle h s.objects
  done (record { objects = objects; handles = h ∷ s.handles })
on_operation (copy is_public j) s = do
  other ← handle_at s.handles j
  let h : RcHandle = record { is_public = is_public; object = other.object }
  objects ← inc_handle h s.objects
  done (record { objects = objects; handles = h ∷ s.handles })
on_operation (move j) s = do
  other ← handle_at s.handles j
  done (record s { handles = other ∷ set s.handles j (emptied other) })
on_operation (assign_null i) s = do
  h ← handle_at s.handles i
  objects ← dec_handle h s.objects
  done (record { objects = objects; handles = set s.handles i (emptied h) })
on_operation (assign_copy i j) s = do
  h ← handle_at s.handles i
  other ← handle_at s.handles j
  if same_kind h other
      then (do
        more ← inc_handle other s.objects
        objects ← dec_handle h more
        done (record { objects = objects; handles = set s.handles i (pointed_at h other) }))
      else assign_converted i h other s
on_operation (assign_move i j) s = do
  h ← handle_at s.handles i
  other ← handle_at s.handles j
  if same_kind h other
      then (do
        objects ← dec_handle h s.objects
        done (record {
          objects = objects;
          handles = set (set s.handles i (pointed_at h other)) j (emptied other);
        }))
      else assign_converted i h other s
on_operation (destroy i) s = do
  h ← handle_at s.handles i
  objects ← dec_handle h s.objects
  done (record { objects = objects; handles = remove_at s.handles i })

unfoldable pub run_operations : List RcOperation → Program → Outcome Program
run_operations [] s = done s
run_operations (op ∷ ops) s = do next ← on_operation op s; run_operations ops next

abbrev pub empty_program : Program
empty_program = record { objects = []; handles = [] }
