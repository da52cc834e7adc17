-- ===== src/Rc/Examples.antt =====
-- A handle that is copied, moved and destroyed.
use gamescope.Common.{List, [], arith, false, none, refl, some, true, ◌∷◌, ◌≡◌, ◌≢◌}
use gamescope.Rc.{
  dec_handle, dec_ref, dec_ref_private, done, inc_handle, inc_ref, inc_ref_private, modify,
  use_after_free,
}
use gamescope.Rc.Program.{
  Program, RcOperation, assign_copy, assign_null, copy, create, destroy, empty_program, handle_at,
  on_operation, run_operations,
}
use gamescope.Rc.Safety.{operations_are_safe}
use gamescope.Rc.Store.{IsConsistent}

abbrev session : List RcOperation
session =
    create true ∷ copy false 0 ∷ create true ∷ assign_copy 0 2 ∷ destroy 1 ∷ assign_null 1 ∷ []

abbrev after_session : Program
after_session = record {
  objects =
      record { ref_count = 1; ref_private = 1; deletions = 0 }
      ∷ record { ref_count = 0; ref_private = 2147483648; deletions = 1 }
      ∷ [];
  handles =
      record { is_public = true; object = some 0 }
      ∷ record { is_public = true; object = none }
      ∷ [];
}

session_run : run_operations session empty_program ≡ done after_session
unfolding run_operations on_operation inc_handle dec_handle modify handle_at inc_ref dec_ref
    inc_ref_private dec_ref_private
session_run = refl

operations_are_safe_example :
    (run_operations session empty_program ≢ use_after_free)
    × ((s : Program)
        → run_operations session empty_program ≡ done s
        → IsConsistent s.objects s.handles)
operations_are_safe_example = operations_are_safe session (omega arith)
