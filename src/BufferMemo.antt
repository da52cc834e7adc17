-- ===== src/BufferMemo.antt =====
-- The textures of client buffers: CBufferMemoizer and CBufferMemo of src/BufferMemo.cpp and
-- src/BufferMemo.h. Buffers and textures are numbers; the hash map is an association list with the
-- latest memo first. None stands for an assertion that fails. The private reference that a memo holds is
-- that of Rc.
pub mod Refinement
mod Examples
use gamescope.Common.{List, Option, [], if◌then◌else◌, none, some, ℕ, ◌==◌, ◌>>=◌, ◌∷◌}
use gamescope.Rc.Handles.{references}

pub record BufferMemo : Type 0 where
  pub buffer : ℕ
  pub texture : ℕ

-- `listeners` are the buffers whose destroy signal a memo listens to.
pub record BufferMemoizer : Type 0 where
  pub memos : List BufferMemo
  pub listeners : List ℕ

-- find and erase of the map.
pub find_memo : ℕ → List BufferMemo → Option ℕ
find_memo b [] = none
find_memo b (m ∷ ms) = if m.buffer == b then some m.texture else find_memo b ms

pub erase_memo : ℕ → List BufferMemo → List BufferMemo
erase_memo b [] = []
erase_memo b (m ∷ ms) = if m.buffer == b then ms else m ∷ erase_memo b ms

pub remove_listener : ℕ → List ℕ → List ℕ
remove_listener b [] = []
remove_listener b (l ∷ ls) = if l == b then ls else l ∷ remove_listener b ls

pub lookup_vulkan_texture : ℕ → BufferMemoizer → Option ℕ
lookup_vulkan_texture b z = find_memo b z.memos

-- emplace fails for a buffer that has a memo; Finalize adds the listener.
pub memoize_buffer : ℕ → ℕ → BufferMemoizer → Option BufferMemoizer
memoize_buffer b texture z = elim (find_memo b z.memos) [
  | some t ↦ none
  | none ↦ some (record {
    memos = record { buffer = b; texture = texture } ∷ z.memos;
    listeners = b ∷ z.listeners;
  })
]

-- The destructor of the memo takes its listener off.
pub unmemoize_buffer : ℕ → BufferMemoizer → Option BufferMemoizer
unmemoize_buffer b z = elim (find_memo b z.memos) [
  | none ↦ none
  | some t ↦
      some (record { memos = erase_memo b z.memos; listeners = remove_listener b z.listeners })
]

-- OnBufferDestroyed, for the number of public references to the texture.
pub on_buffer_destroyed : ℕ → ℕ → BufferMemoizer → Option BufferMemoizer
on_buffer_destroyed references b z = if references == 0 then unmemoize_buffer b z else none

pub data MemoEvent : Type 0 where
  memoize : ℕ → ℕ → MemoEvent
  destroyed : ℕ → ℕ → MemoEvent

pub on_memo_event : MemoEvent → BufferMemoizer → Option BufferMemoizer
on_memo_event (memoize b texture) z = memoize_buffer b texture z
on_memo_event (destroyed references b) z = on_buffer_destroyed references b z

pub run_memo_events : List MemoEvent → BufferMemoizer → Option BufferMemoizer
run_memo_events [] z = some z
run_memo_events (e ∷ es) z = do next ← on_memo_event e z; run_memo_events es next

abbrev pub empty_memoizer : BufferMemoizer
empty_memoizer = record { memos = []; listeners = [] }
