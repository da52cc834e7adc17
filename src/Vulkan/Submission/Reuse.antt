-- ===== src/Vulkan/Submission/Reuse.antt =====
-- No command buffer is given out while the GPU runs it, and what the queries and waits say of the GPU
-- (src/rendervulkan.cpp).
use gamescope.Common.{
  All, Bool-cases, List, Option, Option-cases, [], ap, arith, if◌then◌else◌, inl, inr, leb, ltb,
  none, refl, some, subst, sym, true, ℕ, ◌++◌, ◌+◌, ◌<◌, ◌==◌, ◌||◌, ◌∙◌, ◌∷◌, ◌≡◌, ◌≤◌, ◌⊎◌,
}
use gamescope.Vulkan.Submission.{
  Device, cache_timeline_completion, command_buffer, has_completed, reset_cmd_buffers, retire, wait,
  wait_idle,
}
use gamescope.Vulkan.Submission.Retire.{
  IsRising, is_pending, is_pending-times, pending_times, retire-IsRising, retire-times,
  retire_splits, rising_bound, times,
}
use gamescope.Vulkan.Submission.Run.{
  DeviceEvent, IsAllowed, IsSound, World, held_times, new-IsSound, new_world, on_device_event,
  takes,
}
use gamescope.Vulkan.Submission.Safety.{event-IsSound, unused-cases}

pub data IsReachable : World → Type 0 where
  at_start : IsReachable new_world
  follows :
      (e : DeviceEvent) (w : World)
      → IsAllowed e w
      → IsReachable w
      → IsReachable (on_device_event e w)

reachable-IsSound : (w : World) → IsReachable w → IsSound w
reachable-IsSound w at_start = new-IsSound
reachable-IsSound w (follows e v allowed way) = event-IsSound e v allowed (reachable-IsSound v way)

abbrev pub IsIdle : ℕ → World → Type 0
IsIdle b w = (times b w.recording ≡ 0) × ((n : ℕ) → is_pending n b w.submitted ≡ true → n ≤ w.gpu)

buffer-IsIdle :
    (b : ℕ) (w : World)
    → IsSound w
    → pending_times b w.device.pending_cmd_bufs + times b w.recording ≡ 0
    → IsIdle b w
buffer-IsIdle b w sound free = (
  omega arith,
  λ n logged. elim (Bool-cases (ltb w.gpu n)) [
    | inl later ↦
        let held = is_pending-times n b _ (sound.flying n b logged (ground arith)) in
        absurd (omega arith)
    | inr past ↦ ground arith
  ],
)

-- In every state that allowed events lead to, commandBuffer fails only where no buffer is unused and the
-- allocation fails, and the buffer that it gives is idle: it is not being recorded, and the GPU has reached
-- the number of every submission of it.
pub given_buffer-IsIdle :
    (w : World) (allocated : Option ℕ)
    → IsReachable w
    → IsAllowed (takes allocated) w
    → ((w.device.unused_cmd_bufs ≡ [])
        × (allocated ≡ none)
        × (command_buffer allocated w.device ≡ none))
      ⊎ ((b : ℕ) × (d : Device) × (command_buffer allocated w.device ≡ some (b, d)) × IsIdle b w)
unfolding command_buffer
given_buffer-IsIdle w allocated way allowed =
    let sound = reachable-IsSound w way in
    elim (unused-cases w.device.unused_cmd_bufs) [
      | inl none_left ↦ elim (Option-cases allocated) [
        | inl failed ↦ inl (none_left, failed, simp (none_left, failed, command_buffer) refl)
        | inr (b, given) ↦
            let fresh : held_times b w ≡ 0 = subst (λ o. IsAllowed (takes o) w) given allowed in
            inr (
              b,
              w.device,
              simp (none_left, given, command_buffer) refl,
              buffer-IsIdle b w sound (omega arith),
            )
      ]
      | inr (b, rest, e) ↦
          let once = sound.owned b in
          let counted : times b w.device.unused_cmd_bufs
              ≡ (if b == b then 1 else 0) + times b rest =
            ap (times b) e in
          inr (
            b,
            record w.device { unused_cmd_bufs = rest },
            simp (e, command_buffer) refl,
            buffer-IsIdle b w sound (ground arith),
          )
    ]

-- In every state that allowed events lead to, hasCompleted is exact for every number, also where it answers
-- from the value that was seen last: it says yes if and only if the GPU has reached the number.
has_completed_exact :
    (w : World) (sequence : ℕ)
    → IsReachable w
    → (has_completed w.gpu sequence w.device).0 ≡ leb sequence w.gpu
unfolding has_completed
has_completed_exact w sequence way =
    let seen = (reachable-IsSound w way).seen in
    elim (Bool-cases ((sequence == 0) || leb sequence w.device.submission_completed_seq_no)) [
      | inl known ↦ rw known (ground arith)
      | inr unknown ↦ rw unknown refl
    ]

none_between :
    (low high : ℕ) (ps : List (ℕ × ℕ)) → IsRising low high ps → All (λ p. high < p.0) ps → ps ≡ []
none_between low high [] rises above = refl
none_between low high ((n, b) ∷ ps) (first, rises) (beyond, above) =
    let bound = rising_bound n high ps rises in absurd (omega arith)

-- The lists after a wait with reset.
waited-lists :
    (sequence : ℕ) (d : Device)
    → let retired = retire sequence d.pending_cmd_bufs d.unused_cmd_bufs in
      ((wait sequence true d).pending_cmd_bufs ≡ retired.0)
      × ((wait sequence true d).unused_cmd_bufs ≡ retired.1)
      × ((d.submission_seq_no == sequence) ≡ true → (wait sequence true d).upload_buffer_offset ≡ 0)
unfolding wait cache_timeline_completion reset_cmd_buffers
waited-lists sequence d = elim (Bool-cases (ltb d.submission_completed_seq_no sequence)) [
  | inl newer ↦ elim (Bool-cases (d.submission_seq_no == sequence)) [
    | inl last ↦ simp (newer, last) (refl, refl, λ h. refl)
    | inr earlier ↦ simp (newer, earlier) (refl, refl, λ h. absurd (ground arith))
  ]
  | inr older ↦ elim (Bool-cases (d.submission_seq_no == sequence)) [
    | inl last ↦ simp (older, last) (refl, refl, λ h. refl)
    | inr earlier ↦ simp (older, earlier) (refl, refl, λ h. absurd (ground arith))
  ]
]

-- In every state that allowed events lead to, a wait with reset for a number retires a first part of the
-- pending buffers: those submitted with at most that number, each of which becomes unused once more, and no
-- other does; what stays pending, in its order, are the buffers of later submissions. waitIdle with
-- reset leaves nothing pending, every pending buffer unused once more, and the upload buffer empty.
pub wait_recycles :
    (w : World) (sequence : ℕ)
    → IsReachable w
    → let waited = wait sequence true w.device in
      let idle = wait_idle true w.device in
      let before = w.device.pending_cmd_bufs in
      let unused = w.device.unused_cmd_bufs in
      ((older : List (ℕ × ℕ)) × (before ≡ older ++ waited.pending_cmd_bufs)
        × All (λ p. p.0 ≤ sequence) older
        × ((b : ℕ) → times b waited.unused_cmd_bufs ≡ pending_times b older + times b unused))
      × All (λ p. sequence < p.0) waited.pending_cmd_bufs
      × (idle.pending_cmd_bufs ≡ [])
      × ((b : ℕ) → times b idle.unused_cmd_bufs ≡ pending_times b before + times b unused)
      × (idle.upload_buffer_offset ≡ 0)
unfolding wait_idle
wait_recycles w sequence way =
    let d = w.device in
    let rising = (reachable-IsSound w way).rising in
    let last = d.submission_seq_no in
    let (pending, unused, offset) = waited-lists sequence d in
    let (idle_pending, idle_unused, idle_offset) = waited-lists last d in
    let later = retire-IsRising sequence 0 last d.pending_cmd_bufs d.unused_cmd_bufs rising in
    let (older, split, all, count) = retire_splits sequence d.pending_cmd_bufs d.unused_cmd_bufs in
    let (rises, above) = retire-IsRising last 0 last d.pending_cmd_bufs d.unused_cmd_bufs rising in
    let nothing : (retire last d.pending_cmd_bufs d.unused_cmd_bufs).0 ≡ [] =
      none_between 0 last _ rises above in
    (
      (older, rw pending split, all, λ b. ap (times b) unused ∙ count b),
      subst (All (λ p. sequence < p.0)) (sym pending) later.1,
      idle_pending ∙ nothing,
      (λ b.
          let same = ap (times b) idle_unused in
          let emptied : pending_times b (retire last d.pending_cmd_bufs d.unused_cmd_bufs).0 ≡ 0 =
            ap (pending_times b) nothing in
          let total = retire-times last b d.pending_cmd_bufs d.unused_cmd_bufs in
          same ∙ omega arith),
      idle_offset (ground arith),
    )
