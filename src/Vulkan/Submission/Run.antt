-- ===== src/Vulkan/Submission/Run.antt =====
-- Runs of the submissions with the GPU: what is outside CVulkanDevice (src/rendervulkan.cpp), the events, and
-- the invariant that they keep.
use gamescope.Common.{
  Bool, Bool-cases, List, Option, [], arith, if◌then◌else◌, inl, inr, ltb, none, some, suc, true, ℕ,
  ◌+◌, ◌<◌, ◌==◌, ◌∷◌, ◌≡◌, ◌≤◌,
}
use gamescope.Vulkan.Submission.{
  Device, cache_timeline_completion, command_buffer, garbage_collect, has_completed, new_device,
  reset_cmd_buffers, submit, wait,
}
use gamescope.Vulkan.Submission.Retire.{
  IsRising, is_pending, pending_times, retire-IsRising, retire-is_pending, retire-times, times,
}

-- `gpu` is the value of the timeline semaphore, `recording` are the buffers given out and not submitted,
-- `submitted` is every submission, with its number and buffer.
pub record World : Type 0 where
  pub device : Device
  pub gpu : ℕ
  pub recording : List ℕ
  pub submitted : List (ℕ × ℕ)

abbrev pub new_world : World
new_world = record { device = new_device; gpu = 0; recording = []; submitted = [] }

pub data DeviceEvent : Type 0 where
  takes : Option ℕ → DeviceEvent
  submits : ℕ → DeviceEvent
  collects : DeviceEvent
  waits : ℕ → Bool → DeviceEvent
  asks : ℕ → DeviceEvent
  gpu_reaches : ℕ → DeviceEvent

abbrev pub without : ℕ → List ℕ → List ℕ
without b [] = []
without b (c ∷ cs) = if c == b then cs else c ∷ without b cs

unfoldable pub taken : World → Option (ℕ × Device) → World
taken w none = w
taken w (some (b, d)) = record w { device = d; recording = b ∷ w.recording }

unfoldable pub on_device_event : DeviceEvent → World → World
on_device_event (takes allocated) w = taken w (command_buffer allocated w.device)
on_device_event (submits b) w =
    let (sequence, d) = submit b w.device in
    record w {
      device = d;
      recording = without b w.recording;
      submitted = (sequence, b) ∷ w.submitted;
    }
on_device_event collects w = record w { device = garbage_collect w.gpu w.device }
on_device_event (waits sequence reset) w = record w { device = wait sequence reset w.device }
on_device_event (asks sequence) w = record w { device = (has_completed w.gpu sequence w.device).1 }
on_device_event (gpu_reaches value) w = record w { gpu = value }

abbrev pub held_times : ℕ → World → ℕ
held_times b w =
    pending_times b w.device.pending_cmd_bufs
    + (times b w.device.unused_cmd_bufs + times b w.recording)

-- A buffer that is allocated is none that lives; one that is submitted was given out, and the number does
-- not overflow; a wait returns when the GPU has reached the number; and the GPU only reaches numbers
-- that were submitted.
abbrev pub IsAllowed : DeviceEvent → World → Type 0
IsAllowed (takes none) w = Unit
IsAllowed (takes (some b)) w = held_times b w ≡ 0
IsAllowed (submits b) w =
    (1 ≤ times b w.recording) × (suc w.device.submission_seq_no < 18446744073709551616)
IsAllowed collects w = Unit
IsAllowed (waits sequence reset) w = sequence ≤ w.gpu
IsAllowed (asks sequence) w = Unit
IsAllowed (gpu_reaches value) w = (w.gpu ≤ value) × (value ≤ w.device.submission_seq_no)

pub record IsSound (w : World) : Type 0 where
  pub seen : w.device.submission_completed_seq_no ≤ w.gpu
  pub rising : IsRising 0 w.device.submission_seq_no w.device.pending_cmd_bufs
  pub reached : w.gpu ≤ w.device.submission_seq_no
  pub owned : (b : ℕ) → held_times b w ≤ 1
  pub flying :
      (n b : ℕ)
      → is_pending n b w.submitted ≡ true
      → w.gpu < n
      → is_pending n b w.device.pending_cmd_bufs ≡ true

pub new-IsSound : IsSound new_world
unfolding new_device
new-IsSound = record {
  seen = omega arith;
  rising = omega arith;
  reached = omega arith;
  owned = λ b. omega arith;
  flying = λ n b h above. h;
}

pub without-times :
    (b c : ℕ) (bs : List ℕ)
    → 1 ≤ times b bs
    → times c (without b bs) + (if b == c then 1 else 0) ≡ times c bs
without-times b c [] h = ground arith
without-times b c (d ∷ bs) h = elim (Bool-cases (d == b)) [
  | inl same ↦ rw same (ground arith)
  | inr other ↦
      let later : times c (without b bs) + (if b == c then 1 else 0) ≡ times c bs =
        without-times b c bs (ground arith) in
      rw other (omega arith)
]

-- What the caching of a value that the GPU has reached keeps.
pub cached-IsSound :
    (value : ℕ) (w : World)
    → value ≤ w.gpu
    → IsSound w
    → IsSound (record w { device = cache_timeline_completion value w.device })
unfolding cache_timeline_completion
cached-IsSound value w h sound =
    elim (Bool-cases (ltb w.device.submission_completed_seq_no value)) [
      | inl newer ↦ rw newer (record {
        seen = h;
        rising = sound.rising;
        reached = sound.reached;
        owned = sound.owned;
        flying = sound.flying;
      })
      | inr older ↦ rw older (record {
        seen = sound.seen;
        rising = sound.rising;
        reached = sound.reached;
        owned = sound.owned;
        flying = sound.flying;
      })
    ]

-- Buffers are retired only up to a number that the GPU has reached.
pub reset-IsSound :
    (sequence : ℕ) (w : World)
    → sequence ≤ w.gpu
    → IsSound w
    → IsSound (record w { device = reset_cmd_buffers sequence w.device })
unfolding reset_cmd_buffers
reset-IsSound sequence w h sound =
    let pending = w.device.pending_cmd_bufs in
    let unused = w.device.unused_cmd_bufs in
    record {
      seen = sound.seen;
      rising = (retire-IsRising sequence 0 _ pending unused sound.rising).0;
      reached = sound.reached;
      owned = λ b.
          let same = retire-times sequence b pending unused in
          let once = sound.owned b in omega arith;
      flying = λ n b logged above.
          retire-is_pending sequence n b pending unused (omega arith)
            (sound.flying n b logged above);
    }
