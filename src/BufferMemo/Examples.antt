-- ===== src/BufferMemo/Examples.antt =====
-- Two buffers, one of which is destroyed and then memoized anew.
use mathlib.Core.Option.{map as option_map}
use gamescope.Common.{List, [], map, none, refl, some, ◌∷◌, ◌≡◌}
use gamescope.BufferMemo.{
  BufferMemoizer, MemoEvent, destroyed, empty_memoizer, erase_memo, find_memo,
  lookup_vulkan_texture, memoize, memoize_buffer, on_buffer_destroyed, on_memo_event,
  remove_listener, run_memo_events, unmemoize_buffer,
}
use gamescope.BufferMemo.Refinement.{map_events, memoizer-IsMap, view}

abbrev two_buffers : List MemoEvent
two_buffers = memoize 16 1 ∷ memoize 32 2 ∷ destroyed 0 16 ∷ memoize 16 3 ∷ []

two_buffers_run :
    option_map (lookup_vulkan_texture 16) (run_memo_events two_buffers empty_memoizer)
    ≡ some (some 3)
unfolding run_memo_events on_memo_event memoize_buffer on_buffer_destroyed unmemoize_buffer
    find_memo erase_memo remove_listener lookup_vulkan_texture
two_buffers_run = refl

memoizer-IsMap_example :
    (option_map view (run_memo_events two_buffers empty_memoizer)
      ≡ map_events two_buffers (λ b. none))
    × ((z : BufferMemoizer)
        → run_memo_events two_buffers empty_memoizer ≡ some z
        → z.listeners ≡ map (λ m. m.buffer) z.memos)
memoizer-IsMap_example = memoizer-IsMap two_buffers
