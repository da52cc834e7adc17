-- ===== src/Vulkan/Barriers/Emit.antt =====
-- The barriers that a command buffer records: emitExternalAcquireBarriers, emitSync2Barriers, insertBarrier
-- and the commands that call them (src/rendervulkan.cpp). The commands themselves are left out.
use gamescope.Common.{
  Bool, List, Option, [], add_u32, false, if◌then◌else◌, leb, none, not, some, true, ◌&&◌, ◌==◌,
  ◌>>=◌, ◌||◌, ◌∷◌,
}
use gamescope.Vulkan.Barriers.{
  CmdBuffer, CountedBuffer, Image, ImageBarrier, ImageBarrier2, ImageUse, QueueFamily, Stages,
  TextureState, add_image_use, any_access, change_state, external_queue, family, find_texture_state,
  general, ignored, mark_dirty, no_accesses, no_stages, or_accesses, or_stages, prepare_dest_image,
  prepare_src_image, present_layout, undefined,
}

-- A texture's queueFamily, if IGNORED, becomes the command buffer's.
unfoldable pub claim_family : Image → CmdBuffer → CmdBuffer
claim_family image c = record c {
  families = λ a.
      if a == image.address
      then elim (c.families a) [ none ↦ some c.queue_family | some f ↦ some f ]
      else c.families a;
}

pub family_of : Image → CmdBuffer → QueueFamily
family_of image c = elim (c.families image.address) [ none ↦ ignored | some f ↦ family f ]

-- An import, as emitExternalAcquireBarriers records it.
unfoldable pub acquire_barrier : CmdBuffer → Image → TextureState → ImageBarrier
acquire_barrier c image state = record {
  image = image;
  writes = state.dirty;
  visible = true;
  old_layout = if state.discarded then undefined else general;
  new_layout = general;
  src_family = external_queue;
  dst_family = if image.concurrent then ignored else family c.queue_family;
}

unfoldable pub acquired : TextureState → TextureState
acquired state = record state { discarded = false; dirty = false; needs_import = false }

unfoldable pub acquire_each :
    List (Image × TextureState) → CmdBuffer → List (Image × TextureState) × CmdBuffer
acquire_each [] c = ([], c)
acquire_each ((image, state) ∷ rest) c =
    let claimed = claim_family image c in
    let importing =
      acquire_each rest
        (record claimed { barriers = acquire_barrier claimed image state ∷ claimed.barriers }) in
    let skipping = acquire_each rest c in
    if state.needs_import
    then ((image, acquired state) ∷ importing.0, importing.1)
    else ((image, state) ∷ skipping.0, skipping.1)

unfoldable pub emit_external_acquire_barriers : CmdBuffer → CmdBuffer
emit_external_acquire_barriers c =
    let (states, after) = acquire_each c.texture_state c in record after { texture_state = states }

-- The barrier of one use, if there is a hazard.
unfoldable pub use_barrier : TextureState → ImageUse → Option ImageBarrier2
use_barrier state u =
    let prior_use = any_access state.last_access in
    let write_hazard = prior_use && state.last_was_write in
    let read_to_write_hazard = prior_use && (not state.last_was_write && u.write) in
    if state.discarded || (write_hazard || read_to_write_hazard)
    then some (record {
      image = u.image;
      src_stage = if state.discarded then no_stages else state.last_stage;
      src_access = if not state.discarded && write_hazard then state.last_access else no_accesses;
      dst_stage = u.stage;
      dst_access = u.access;
      old_layout = if state.discarded then undefined else general;
    })
    else none

unfoldable pub state_after_use : ImageUse → TextureState → TextureState
state_after_use u state =
    let reads_on = any_access state.last_access && (not state.last_was_write && not u.write) in
    record state {
      last_stage = if reads_on then or_stages state.last_stage u.stage else u.stage;
      last_access = if reads_on then or_accesses state.last_access u.access else u.access;
      last_was_write = u.write;
      discarded = false;
    }

-- The first loop over the uses. None where the image of a use was not prepared.
unfoldable pub emit_uses : List ImageUse → CmdBuffer → Option CmdBuffer
emit_uses [] c = some c
emit_uses (u ∷ us) c = elim (find_texture_state u.image c.texture_state) [
  | none ↦ none
  | some state ↦
      let claimed = claim_family u.image c in
      emit_uses us (elim (use_barrier state u) [
        | none ↦ claimed
        | some b ↦ record claimed { barriers2 = b ∷ claimed.barriers2 }
      ])
]

-- The second loop.
unfoldable pub note_uses : List ImageUse → List (Image × TextureState) → List (Image × TextureState)
note_uses [] states = states
note_uses (u ∷ us) states = note_uses us (change_state u.image (state_after_use u) states)

unfoldable pub emit_sync2_barriers : List ImageUse → CmdBuffer → Option CmdBuffer
emit_sync2_barriers us c = do
  emitted ← emit_uses us (emit_external_acquire_barriers c)
  some (record emitted { texture_state = note_uses us emitted.texture_state })

-- The barrier of one texture in insertBarrier; `present_layout` is GetPresentLayout of the backend.
unfoldable pub texture_barrier : Bool → CmdBuffer → Image → TextureState → ImageBarrier
texture_barrier flush c image state =
    let exports = flush && state.needs_export in
    let presents = flush && state.needs_present_layout in
    let internal_flush = flush && (state.dirty && (not exports && not presents)) in
    record {
      image = image;
      writes = state.dirty;
      visible = not flush || internal_flush;
      old_layout = if state.discarded then undefined else general;
      new_layout = if presents then present_layout else general;
      src_family =
          if state.needs_import
          then external_queue
          else if image.concurrent
          then ignored
          else family_of image c;
      dst_family =
          if exports
          then external_queue
          else if image.concurrent
          then ignored
          else family c.queue_family;
    }

unfoldable pub needs_barrier : Bool → TextureState → Bool
needs_barrier flush state =
    state.discarded
    || (state.dirty
        || (state.needs_import
            || ((flush && state.needs_export) || (flush && state.needs_present_layout))))

-- The loop of insertBarrier. None where an image that is to be imported is flushed.
unfoldable pub barrier_each :
    Bool
    → List (Image × TextureState)
    → CmdBuffer
    → Option (List (Image × TextureState) × CmdBuffer)
barrier_each flush [] c = some ([], c)
barrier_each flush ((image, state) ∷ rest) c =
    let claimed = claim_family image c in
    let barred = barrier_each flush rest (record claimed {
      barriers = texture_barrier flush claimed image state ∷ claimed.barriers;
    }) in
    let skipped = barrier_each flush rest c in
    if flush && state.needs_import
    then none
    else if needs_barrier flush state
    then (barred >>= λ done. some ((image, acquired state) ∷ done.0, done.1))
    else (skipped >>= λ done. some ((image, state) ∷ done.0, done.1))

unfoldable pub insert_barrier : Bool → CmdBuffer → Option CmdBuffer
insert_barrier flush c =
    barrier_each flush c.texture_state c >>= λ done. some (record done.1 { texture_state = done.0 })

abbrev pub compute_stage : Stages
compute_stage = record { compute = true; transfer = false }

abbrev pub transfer_stage : Stages
transfer_stage = record { compute = false; transfer = true }

unfoldable pub sampled_use : Image → ImageUse
sampled_use image = record {
  image = image;
  stage = compute_stage;
  access = record no_accesses { sampled_read = true };
  write = false;
}

unfoldable pub storage_use : Image → ImageUse
storage_use image = record {
  image = image;
  stage = compute_stage;
  access = record no_accesses { storage_read = true; storage_write = true };
  write = true;
}

unfoldable pub copy_source : Image → ImageUse
copy_source image = record {
  image = image;
  stage = transfer_stage;
  access = record no_accesses { transfer_read = true };
  write = false;
}

unfoldable pub copy_target : Image → ImageUse
copy_target image = record {
  image = image;
  stage = transfer_stage;
  access = record no_accesses { transfer_write = true };
  write = true;
}

unfoldable pub each {ℓ} : {A B : Type ℓ} → (A → B → B) → List A → B → B
each f [] b = b
each f (a ∷ rest) b = each f rest (f a b)

unfoldable pub barriers_for : List ImageUse → CmdBuffer → Option CmdBuffer
barriers_for us c = if c.supports_sync2 then emit_sync2_barriers us c else insert_barrier false c

-- The barriers before a dispatch with the bound textures and one or two targets.
unfoldable pub emit_pre_dispatch_barriers : List Image → List Image → CmdBuffer → Option CmdBuffer
emit_pre_dispatch_barriers sources targets c =
    barriers_for
      (each (λ i. add_image_use (storage_use i)) targets
        (each (λ i. add_image_use (sampled_use i)) sources []))
      (each prepare_dest_image targets (each prepare_src_image sources c))

unfoldable pub mark_each : List Image → CmdBuffer → Option CmdBuffer
mark_each [] c = some c
mark_each (i ∷ is) c = mark_dirty i c >>= mark_each is

-- The barriers of a dispatch, and the marks after it.
unfoldable pub dispatch_targets : List Image → List Image → CmdBuffer → Option CmdBuffer
dispatch_targets sources targets c = do
  ready ← emit_pre_dispatch_barriers sources targets c
  mark_each targets ready

-- None where the descriptors of the frame generator are exhausted.
unfoldable pub count_dispatch : CountedBuffer → Option CountedBuffer
count_dispatch r =
    let counted = record r { framegen_dispatch_count = add_u32 r.framegen_dispatch_count 1 } in
    if r.is_framegen
    then if leb r.framegen_capacity r.framegen_dispatch_count then none else some counted
    else some r

abbrev pub both_targets : Image → Option Image → List Image
both_targets target none = target ∷ []
both_targets target (some target2) = target ∷ target2 ∷ []

-- With the bound textures and the two targets; none where there is no first one.
unfoldable pub dispatch :
    List Image → Option Image → Option Image → CountedBuffer → Option CountedBuffer
dispatch sources none target2 r = count_dispatch r >>= λ counted. none
dispatch sources (some target) target2 r = do
  counted ← count_dispatch r
  c ← dispatch_targets sources (both_targets target target2) counted.buffer
  some (record counted { buffer = c })

unfoldable pub copy_after_asserts : Image → Image → CmdBuffer → Option CmdBuffer
copy_after_asserts src dst c = do
  ready ←
      barriers_for (add_image_use (copy_target dst) (add_image_use (copy_source src) []))
        (prepare_dest_image dst (prepare_src_image src c))
  mark_dirty dst ready

unfoldable pub copy_image : Image → Image → CmdBuffer → Option CmdBuffer
copy_image src dst c =
    if (src.width == dst.width) && (src.height == dst.height)
    then copy_after_asserts src dst c
    else none

unfoldable pub copy_buffer_to_image : Image → CmdBuffer → Option CmdBuffer
copy_buffer_to_image dst c = do
  ready ← barriers_for (add_image_use (copy_target dst) []) (prepare_dest_image dst c)
  mark_dirty dst ready
