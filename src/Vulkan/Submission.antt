-- ===== src/Vulkan/Submission.antt =====
-- The command buffers of the compositor's queue, their submission and their reuse: CVulkanDevice of
-- src/rendervulkan.cpp. A command buffer is a number, and the lists of unused ones start with the back of
-- the vector. The value of the timeline semaphore is an input, since the GPU raises it.
pub mod Retire
pub mod Run
pub mod Reuse
pub mod Safety
pub mod Upload
use gamescope.Common.{
  Bool, List, Option, [], add_u64, if◌then◌else◌, leb, ltb, none, some, true, ℕ, ◌*◌, ◌++◌, ◌+◌,
  ◌==◌, ◌||◌, ◌∷◌,
}

pub record Device : Type 0 where
  pub submission_seq_no : ℕ
  pub submission_completed_seq_no : ℕ
  pub unused_cmd_bufs : List ℕ
  pub pending_cmd_bufs : List (ℕ × ℕ)
  pub upload_buffer_offset : ℕ
  pub upload_buffer_capacity : ℕ

unfoldable pub new_device : Device
new_device = record {
  submission_seq_no = 0;
  submission_completed_seq_no = 0;
  unused_cmd_bufs = [];
  pending_cmd_bufs = [];
  upload_buffer_offset = 0;
  upload_buffer_capacity = 1920 * 1080 * 4 + 4096;
}

-- `allocated` is what vkAllocateCommandBuffers gives, if it succeeds.
unfoldable pub command_buffer : Option ℕ → Device → Option (ℕ × Device)
command_buffer allocated d = elim d.unused_cmd_bufs [
  | [] ↦ elim allocated [ none ↦ none | some b ↦ some (b, d) ]
  | b ∷ rest ↦ some (b, record d { unused_cmd_bufs = rest })
]

-- The sequence number that the timeline semaphore is to signal.
unfoldable pub submit_internal : Device → ℕ × Device
submit_internal d =
    let next = add_u64 d.submission_seq_no 1 in (next, record d { submission_seq_no = next })

unfoldable pub submit : ℕ → Device → ℕ × Device
submit b d =
    let (next, submitted) = submit_internal d in
    (next, record submitted { pending_cmd_bufs = submitted.pending_cmd_bufs ++ ((next, b) ∷ []) })

-- With no other thread between the load and the exchange.
pub cache_timeline_completion : ℕ → Device → Device
cache_timeline_completion value d =
    if ltb d.submission_completed_seq_no value
    then record d { submission_completed_seq_no = value }
    else d

-- The loop of resetCmdBuffers: what stays pending, and the unused buffers.
pub retire : ℕ → List (ℕ × ℕ) → List ℕ → List (ℕ × ℕ) × List ℕ
retire sequence [] unused = ([], unused)
retire sequence ((n, b) ∷ rest) unused =
    let later = retire sequence rest (b ∷ unused) in
    if leb n sequence then later else ((n, b) ∷ rest, unused)

pub reset_cmd_buffers : ℕ → Device → Device
reset_cmd_buffers sequence d =
    let (pending, unused) = retire sequence d.pending_cmd_bufs d.unused_cmd_bufs in
    record d { pending_cmd_bufs = pending; unused_cmd_bufs = unused }

-- `current` is the value that vkGetSemaphoreCounterValue gives.
pub garbage_collect : ℕ → Device → Device
garbage_collect current d = reset_cmd_buffers current (cache_timeline_completion current d)

-- Once vkWaitSemaphores returns.
pub wait : ℕ → Bool → Device → Device
wait sequence reset d =
    let rewound =
      if d.submission_seq_no == sequence then record d { upload_buffer_offset = 0 } else d in
    let value = cache_timeline_completion sequence rewound in
    if reset then reset_cmd_buffers sequence value else value

-- The part for the compositor's queue.
pub wait_idle : Bool → Device → Device
wait_idle reset d = wait d.submission_seq_no reset d

unfoldable pub has_completed : ℕ → ℕ → Device → Bool × Device
has_completed current sequence d =
    if (sequence == 0) || leb sequence d.submission_completed_seq_no
    then (true, d)
    else (leb sequence current, cache_timeline_completion current d)
