-- ===== src/Vulkan/Examples.antt =====
-- Recordings of two images, one of which comes from outside (src/rendervulkan.cpp).
use gamescope.Common.{
  All, List, Option, [], arith, false, length, none, refl, some, true, ℕ, ◌++◌, ◌+◌, ◌<◌, ◌>>=◌,
  ◌∷◌, ◌≡◌, ◌≤◌, ◌⊎◌,
}
use gamescope.Vulkan.Barriers.{
  CmdBuffer, CountedBuffer, Image, ImageBarrier2, add_image_use, change_state, find_texture_state,
  mark_dirty, prepare_dest_image, prepare_src_image, track_texture,
}
use gamescope.Vulkan.Barriers.Emit.{
  acquire_barrier, acquire_each, acquired, barrier_each, barriers_for, claim_family, compute_stage,
  copy_source, count_dispatch, dispatch, dispatch_targets, each, emit_external_acquire_barriers,
  emit_pre_dispatch_barriers, emit_sync2_barriers, emit_uses, insert_barrier, mark_each,
  needs_barrier, note_uses, sampled_use, state_after_use, storage_use, texture_barrier, use_barrier,
}
use gamescope.Vulkan.Barriers.Flush.{Any, IsClean, IsPublished}
use gamescope.Vulkan.Barriers.History.{
  copy_after_sample_unordered, needed_barrier, started, tracked, use_waits_for_outstanding,
}
use gamescope.Vulkan.Barriers.Recording.{
  Command, copies, dispatches, record_command, record_commands, recording_never_fails,
}
use gamescope.Vulkan.Submission.{
  Device, command_buffer, has_completed, new_device, submit, submit_internal, wait, wait_idle,
}
use gamescope.Vulkan.Submission.Retire.{pending_times, times}
use gamescope.Vulkan.Submission.Reuse.{
  follows, IsIdle, IsReachable, at_start, given_buffer-IsIdle, wait_recycles,
}
use gamescope.Vulkan.Submission.Run.{World, new_world, on_device_event, submits, taken, takes}

abbrev frame : Image
frame = record {
  address = 1;
  external = true;
  output = false;
  concurrent = false;
  width = 1920;
  height = 1080;
}

abbrev scanout : Image
scanout = record {
  address = 2;
  external = false;
  output = true;
  concurrent = false;
  width = 1920;
  height = 1080;
}

abbrev blank : CmdBuffer
blank = record {
  supports_sync2 = true;
  queue_family = 0;
  families = λ a. none;
  texture_state = [];
  barriers = [];
  barriers2 = [];
}

-- The number of barriers of both kinds.
abbrev counts : Option CmdBuffer → Option (ℕ × ℕ)
counts o = o >>= λ c. some (length c.barriers, length c.barriers2)

abbrev counted_blank : CountedBuffer
counted_blank = record {
  buffer = blank;
  is_framegen = true;
  framegen_dispatch_count = 0;
  framegen_capacity = 30;
}

-- A composite over an imported image: the import, the write of the scanout and, at the end, its flush and
-- the release of the imported image.
composite_barriers :
    counts (
      record_commands (dispatches (frame ∷ []) (some scanout) none ∷ []) counted_blank >>= λ r.
      insert_barrier true r.buffer)
    ≡ some (3, 1)
unfolding record_commands record_command dispatch dispatch_targets count_dispatch
    emit_pre_dispatch_barriers barriers_for emit_sync2_barriers emit_external_acquire_barriers
    acquire_each acquired acquire_barrier emit_uses use_barrier state_after_use note_uses
    insert_barrier barrier_each needs_barrier texture_barrier claim_family mark_each each
    sampled_use storage_use find_texture_state change_state track_texture prepare_src_image
    prepare_dest_image mark_dirty add_image_use
composite_barriers = refl

use_waits_for_outstanding_example :
    use_barrier
      (tracked (started true) (sampled_use frame ∷ storage_use frame ∷ []))
      (storage_use frame)
    ≡ needed_barrier true (sampled_use frame ∷ storage_use frame ∷ []) (storage_use frame)
unfolding sampled_use storage_use
use_waits_for_outstanding_example =
    use_waits_for_outstanding true (sampled_use frame ∷ storage_use frame ∷ []) (storage_use frame)
      (refl, (refl, tt))

copy_after_sample_unordered_example :
    let written = storage_use frame ∷ [] in
    (b : ImageBarrier2) × (use_barrier (tracked (started true) written) (sampled_use frame)
      ≡ some b)
    × (b.dst_stage ≡ compute_stage)
    × (use_barrier (tracked (started true) (sampled_use frame ∷ written)) (copy_source frame)
        ≡ none)
copy_after_sample_unordered_example = copy_after_sample_unordered true [] frame tt

abbrev session : List Command
session = dispatches (frame ∷ []) (some scanout) none ∷ copies scanout frame ∷ []

recording_never_fails_example :
    (d : CountedBuffer) × (ended : CmdBuffer) × (record_commands session counted_blank ≡ some d)
    × (insert_barrier true d.buffer ≡ some ended)
    × All IsClean ended.texture_state
    × All (λ p. p.1.dirty ≡ true → Any (IsPublished p.0) ended.barriers) d.buffer.texture_state
recording_never_fails_example =
    recording_never_fails session counted_blank tt ((scanout, refl), ((refl, refl), tt))
      (λ h. (omega arith, omega arith))

-- One submission of buffer 7, which the GPU has not run.
abbrev flying : World
flying = on_device_event (submits 7) (on_device_event (takes (some 7)) new_world)

flying-IsReachable : IsReachable flying
unfolding on_device_event taken command_buffer new_device
flying-IsReachable =
    follows (submits 7) (on_device_event (takes (some 7)) new_world) (omega arith, omega arith)
      (follows (takes (some 7)) new_world refl at_start)

abbrev spare : Option ℕ
spare = some 8

not_done : (has_completed flying.gpu 1 flying.device).0 ≡ false
unfolding on_device_event taken command_buffer new_device submit submit_internal has_completed
not_done = refl

given_buffer-IsIdle_example :
    ((flying.device.unused_cmd_bufs ≡ [])
      × (spare ≡ none)
      × (command_buffer spare flying.device ≡ none))
    ⊎ ((b : ℕ) × (d : Device) × (command_buffer spare flying.device ≡ some (b, d))
        × IsIdle b flying)
unfolding on_device_event taken command_buffer new_device submit submit_internal
given_buffer-IsIdle_example = given_buffer-IsIdle flying spare flying-IsReachable refl

wait_recycles_example :
    let waited = wait 1 true flying.device in
    let idle = wait_idle true flying.device in
    let before = flying.device.pending_cmd_bufs in
    let unused = flying.device.unused_cmd_bufs in
    ((older : List (ℕ × ℕ)) × (before ≡ older ++ waited.pending_cmd_bufs)
      × All (λ p. p.0 ≤ 1) older
      × ((b : ℕ) → times b waited.unused_cmd_bufs ≡ pending_times b older + times b unused))
    × All (λ p. 1 < p.0) waited.pending_cmd_bufs
    × (idle.pending_cmd_bufs ≡ [])
    × ((b : ℕ) → times b idle.unused_cmd_bufs ≡ pending_times b before + times b unused)
    × (idle.upload_buffer_offset ≡ 0)
wait_recycles_example = wait_recycles flying 1 flying-IsReachable
