-- ===== src/Vulkan/Submission/Upload.antt =====
-- Slices of the upload buffer of CVulkanDevice (src/rendervulkan.hpp).
use gamescope.Common.{
  Bool, Option, add_u32, arith, false, if-true, if◌then◌else◌, leb, ltb, none, not, refl, some,
  true, ℕ, ◌&&◌, ◌*◌, ◌+◌, ◌-◌, ◌<◌, ◌==◌, ◌≡◌, ◌≤◌,
}
use gamescope.Common.Bits.{and_not, and_not_lem, bit_and, power_positive, ◌^◌}
use gamescope.Vulkan.Submission.{Device, wait_idle}

-- Up to a multiple of a power of two, on uint32_t.
pub align : ℕ → ℕ → ℕ
align what to = and_not (add_u32 what (to - 1)) (to - 1)

-- The assertion on an alignment.
pub is_alignment : ℕ → Bool
is_alignment to = not (to == 0) && (bit_and to (to - 1) == 0)

-- The offset of the slice, or none where an assertion fails.
pub upload_buffer_data : ℕ → ℕ → Device → Option (ℕ × Device)
upload_buffer_data size alignment d =
    let start = align d.upload_buffer_offset alignment in
    let moved = record d { upload_buffer_offset = start } in
    let ready =
      if ltb d.upload_buffer_capacity (add_u32 start size) then wait_idle false moved else moved in
    let next = add_u32 ready.upload_buffer_offset size in
    if leb size d.upload_buffer_capacity && is_alignment alignment
    then if leb next ready.upload_buffer_capacity
      then some (ready.upload_buffer_offset, record ready { upload_buffer_offset = next })
      else none
    else none

pub reserve_persistent_uniform_buffer_data : ℕ → ℕ → Device → Option (ℕ × Device)
reserve_persistent_uniform_buffer_data size alignment d =
    let aligned = align size alignment in
    let left = and_not (d.upload_buffer_capacity - aligned) (alignment - 1) in
    if (d.upload_buffer_offset == 0) && leb aligned d.upload_buffer_capacity
    then some (left, record d { upload_buffer_capacity = left })
    else none

align_bounds :
    (what k : ℕ)
    → what + 2 ^ k ≤ 4294967296
    → (what ≤ align what (2 ^ k))
      × (align what (2 ^ k) < what + 2 ^ k)
      × ((q : ℕ) × (align what (2 ^ k) ≡ q * 2 ^ k))
unfolding align
align_bounds what k small =
    let positive = power_positive k in
    let wraps : add_u32 what (2 ^ k - 1) ≡ what + (2 ^ k - 1) = omega arith in
    let (multiple, low, high) = and_not_lem k (what + (2 ^ k - 1)) in
    rw wraps (omega arith, omega arith, (_, multiple))

-- An offset that fits gives its slice.
slice_of : ℕ → Device → Option (ℕ × Device)
slice_of size d =
    let next = add_u32 d.upload_buffer_offset size in
    if leb next d.upload_buffer_capacity
    then some (d.upload_buffer_offset, record d { upload_buffer_offset = next })
    else none

-- A slice that is reserved lies between the new capacity and the old one.
reserved_slice :
    (size k : ℕ) (d : Device)
    → d.upload_buffer_offset ≡ 0
    → align size (2 ^ k) ≤ d.upload_buffer_capacity
    → size + 2 ^ k ≤ 4294967296
    → (start : ℕ) × (after : Device) × (reserve_persistent_uniform_buffer_data size (2 ^ k) d
        ≡ some (start, after))
      × (after.upload_buffer_capacity ≡ start)
      × (start + size ≤ d.upload_buffer_capacity)
unfolding reserve_persistent_uniform_buffer_data
reserved_slice size k d unused fits small =
    let (above, near, multiple) = align_bounds size k small in
    let aligned = align size (2 ^ k) in
    let (whole, low, high) = and_not_lem k (d.upload_buffer_capacity - aligned) in
    let allowed : ((d.upload_buffer_offset == 0) && leb aligned d.upload_buffer_capacity) ≡ true =
      ground arith in
    (_, _, if-true _ _ allowed, refl, omega arith)
