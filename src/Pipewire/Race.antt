-- ===== src/Pipewire/Race.antt =====
-- A removal in the middle of what the compositor's thread does (src/pipewire.cpp).
use gamescope.Common.{false, none, refl, some, ℕ, ◌≡◌}
use gamescope.Pipewire.{
  PipewireState, detach_buffer, request_buffer, set_copying, stream_handle_add_buffer,
  stream_handle_remove_buffer,
}

-- A buffer that could not be made: when the stream gives it, and when it is removed, a null pointer is
-- followed.
unmade_buffer_fails :
    (b : ℕ) (s : PipewireState)
    → s.heap b ≡ none
    → let added = stream_handle_add_buffer b false s in
      (request_buffer (some b) added ≡ none) × (stream_handle_remove_buffer b added ≡ none)
unfolding stream_handle_add_buffer request_buffer stream_handle_remove_buffer detach_buffer
    set_copying
unmade_buffer_fails b s e = (
  simp (e, request_buffer, set_copying) refl,
  simp (e, stream_handle_remove_buffer, detach_buffer) refl,
)
