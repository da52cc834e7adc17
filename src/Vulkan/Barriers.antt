-- ===== src/Vulkan/Barriers.antt =====
-- The states of images in a command buffer and the barriers that it records: CVulkanCmdBuffer of
-- src/rendervulkan.cpp. Masks are records of the bits that the code uses; an image is its address with its
-- flags; the barriers of a command buffer are listed newest first.
pub mod Commands
pub mod Emit
pub mod Flush
pub mod Tracking
pub mod History
pub mod Recording
use gamescope.Common.{
  Bool, List, Option, [], false, if◌then◌else◌, none, some, true, ℕ, ◌++◌, ◌==◌, ◌||◌, ◌∷◌,
}

pub record Stages : Type 0 where
  pub compute : Bool
  pub transfer : Bool

pub record Accesses : Type 0 where
  pub transfer_read : Bool
  pub transfer_write : Bool
  pub sampled_read : Bool
  pub storage_read : Bool
  pub storage_write : Bool

abbrev pub no_stages : Stages
no_stages = record { compute = false; transfer = false }

abbrev pub no_accesses : Accesses
no_accesses = record {
  transfer_read = false;
  transfer_write = false;
  sampled_read = false;
  storage_read = false;
  storage_write = false;
}

abbrev pub or_stages : Stages → Stages → Stages
or_stages s t = record { compute = s.compute || t.compute; transfer = s.transfer || t.transfer }

abbrev pub or_accesses : Accesses → Accesses → Accesses
or_accesses a b = record {
  transfer_read = a.transfer_read || b.transfer_read;
  transfer_write = a.transfer_write || b.transfer_write;
  sampled_read = a.sampled_read || b.sampled_read;
  storage_read = a.storage_read || b.storage_read;
  storage_write = a.storage_write || b.storage_write;
}

-- `access != 0`
abbrev pub any_access : Accesses → Bool
any_access a =
    a.transfer_read || (a.transfer_write || (a.sampled_read || (a.storage_read || a.storage_write)))

pub record Image : Type 0 where
  pub address : ℕ
  pub external : Bool
  pub output : Bool
  pub concurrent : Bool
  pub width : ℕ
  pub height : ℕ

pub record TextureState : Type 0 where
  pub discarded : Bool
  pub dirty : Bool
  pub needs_import : Bool
  pub needs_export : Bool
  pub needs_present_layout : Bool
  pub last_stage : Stages
  pub last_access : Accesses
  pub last_was_write : Bool

abbrev pub new_state : TextureState
new_state = record {
  discarded = false;
  dirty = false;
  needs_import = false;
  needs_export = false;
  needs_present_layout = false;
  last_stage = no_stages;
  last_access = no_accesses;
  last_was_write = false;
}

pub record ImageUse : Type 0 where
  pub image : Image
  pub stage : Stages
  pub access : Accesses
  pub write : Bool

pub data Layout : Type 0 where
  undefined : Layout
  general : Layout
  present_layout : Layout

-- The other side of an ownership transfer, or no transfer.
pub data QueueFamily : Type 0 where
  ignored : QueueFamily
  external_queue : QueueFamily
  family : ℕ → QueueFamily

-- A VkImageMemoryBarrier between all commands. `writes` is that its source access is that of writes;
-- `visible` is that its destination access is that of all reads and writes.
pub record ImageBarrier : Type 0 where
  pub image : Image
  pub writes : Bool
  pub visible : Bool
  pub old_layout : Layout
  pub new_layout : Layout
  pub src_family : QueueFamily
  pub dst_family : QueueFamily

-- A VkImageMemoryBarrier2; the empty source stage is TOP_OF_PIPE.
pub record ImageBarrier2 : Type 0 where
  pub image : Image
  pub src_stage : Stages
  pub src_access : Accesses
  pub dst_stage : Stages
  pub dst_access : Accesses
  pub old_layout : Layout

-- `families` are the fields queueFamily of the images, where none is IGNORED.
pub record CmdBuffer : Type 0 where
  pub supports_sync2 : Bool
  pub queue_family : ℕ
  pub families : ℕ → Option ℕ
  pub texture_state : List (Image × TextureState)
  pub barriers : List ImageBarrier
  pub barriers2 : List ImageBarrier2

-- A CVulkanCmdBuffer with its count of dispatches, where the device has so many descriptor sets for the
-- frame generator.
pub record CountedBuffer : Type 0 where
  pub buffer : CmdBuffer
  pub is_framegen : Bool
  pub framegen_dispatch_count : ℕ
  pub framegen_capacity : ℕ

abbrev pub is_image : Image → Image → Bool
is_image a b = a.address == b.address

unfoldable pub find_texture_state : Image → List (Image × TextureState) → Option TextureState
find_texture_state image [] = none
find_texture_state image ((i, state) ∷ rest) =
    let later = find_texture_state image rest in if is_image i image then some state else later

unfoldable pub change_state :
    Image
    → (TextureState → TextureState)
    → List (Image × TextureState)
    → List (Image × TextureState)
change_state image f [] = []
change_state image f ((i, state) ∷ rest) =
    let later = change_state image f rest in
    if is_image i image then (i, f state) ∷ rest else (i, state) ∷ later

-- trackTexture and the changes to the state that it inserts.
unfoldable pub track_texture : Image → TextureState → CmdBuffer → CmdBuffer
track_texture image fresh c = elim (find_texture_state image c.texture_state) [
  | some state ↦ c
  | none ↦ record c { texture_state = c.texture_state ++ ((image, fresh) ∷ []) }
]

unfoldable pub prepare_src_image : Image → CmdBuffer → CmdBuffer
prepare_src_image image =
    track_texture image
      (record new_state { needs_import = image.external; needs_export = image.external })

unfoldable pub prepare_dest_image : Image → CmdBuffer → CmdBuffer
prepare_dest_image image = track_texture image (record new_state {
  discarded = true;
  needs_export = image.external;
  needs_present_layout = image.output;
})

pub discard_image : Image → CmdBuffer → CmdBuffer
discard_image image = track_texture image (record new_state { discarded = true })

-- None where the image was not prepared.
unfoldable pub mark_dirty : Image → CmdBuffer → Option CmdBuffer
mark_dirty image c = elim (find_texture_state image c.texture_state) [
  | none ↦ none
  | some state ↦ some (record c {
    texture_state = change_state image (λ s. record s { dirty = true }) c.texture_state;
  })
]

unfoldable pub add_image_use : ImageUse → List ImageUse → List ImageUse
add_image_use added [] = added ∷ []
add_image_use added (u ∷ us) =
    let later = add_image_use added us in
    if is_image u.image added.image
    then record u {
      stage = or_stages u.stage added.stage;
      access = or_accesses u.access added.access;
      write = u.write || added.write;
    }
      ∷ us
    else u ∷ later
