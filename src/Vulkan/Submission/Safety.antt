-- ===== src/Vulkan/Submission/Safety.antt =====
-- No command buffer is given out while the GPU runs it, and what the queries and waits say of the GPU
-- (src/rendervulkan.cpp).
use gamescope.Common.{
  Bool, Bool-cases, List, Option, [], add_u64, ap, arith, if◌then◌else◌, inl, inr, leb, none, refl,
  some, subst, suc, ℕ, ◌&&◌, ◌+◌, ◌<◌, ◌==◌, ◌||◌, ◌∷◌, ◌≡◌, ◌≤◌, ◌⊎◌,
}
use gamescope.Vulkan.Submission.{
  command_buffer, garbage_collect, has_completed, submit, submit_internal, wait,
}
use gamescope.Vulkan.Submission.Retire.{
  append-IsRising, is_pending-append, is_pending-last, times, times-append,
}
use gamescope.Vulkan.Submission.Run.{
  DeviceEvent, IsAllowed, IsSound, World, asks, cached-IsSound, collects, gpu_reaches, held_times,
  on_device_event, reset-IsSound, submits, taken, takes, waits, without-times,
}

rewound-IsSound :
    (sequence : ℕ) (w : World)
    → IsSound w
    → IsSound (record w {
      device =
          if w.device.submission_seq_no == sequence
          then record w.device { upload_buffer_offset = 0 }
          else w.device;
    })
rewound-IsSound sequence w sound = elim (Bool-cases (w.device.submission_seq_no == sequence)) [
  | inl last ↦ rw last (record {
    seen = sound.seen;
    rising = sound.rising;
    reached = sound.reached;
    owned = sound.owned;
    flying = sound.flying;
  })
  | inr earlier ↦ rw earlier sound
]

wait-IsSound :
    (sequence : ℕ) (reset : Bool) (w : World)
    → sequence ≤ w.gpu
    → IsSound w
    → IsSound (record w { device = wait sequence reset w.device })
unfolding wait
wait-IsSound sequence reset w h sound =
    let back = rewound-IsSound sequence w sound in
    let cached = cached-IsSound sequence _ h back in
    elim (Bool-cases reset) [
      | inl resets ↦ rw resets (reset-IsSound sequence _ h cached)
      | inr keeps ↦ rw keeps cached
    ]

asks-IsSound :
    (sequence : ℕ) (w : World)
    → IsSound w
    → IsSound (record w { device = (has_completed w.gpu sequence w.device).1 })
unfolding has_completed
asks-IsSound sequence w sound =
    elim (Bool-cases ((sequence == 0) || leb sequence w.device.submission_completed_seq_no)) [
      | inl known ↦ rw known sound
      | inr unknown ↦ rw unknown (cached-IsSound w.gpu w (omega arith) sound)
    ]

submit-IsSound :
    (b : ℕ) (w : World)
    → 1 ≤ times b w.recording
    → suc w.device.submission_seq_no < 18446744073709551616
    → IsSound w
    → IsSound (on_device_event (submits b) w)
unfolding on_device_event submit submit_internal
submit-IsSound b w given fits sound =
    let next = suc w.device.submission_seq_no in
    let pending = w.device.pending_cmd_bufs in
    let numbered : add_u64 w.device.submission_seq_no 1 ≡ next = omega arith in
    rw numbered (record {
      seen = sound.seen;
      rising =
          append-IsRising 0 w.device.submission_seq_no next b pending (omega arith) sound.rising;
      reached = let far = sound.reached in omega arith;
      owned = λ c.
          let more = times-append c next b pending in
          let fewer = without-times b c w.recording given in
          let once = sound.owned c in omega arith;
      flying = λ n c logged above. elim (Bool-cases ((next == n) && (b == c))) [
        | inl last ↦ is_pending-last n c next b pending last
        | inr earlier ↦ is_pending-append n c next b pending (sound.flying n c (ground arith) above)
      ];
    })

pub unused-cases :
    (unused : List ℕ) → (unused ≡ []) ⊎ ((b : ℕ) × (rest : List ℕ) × (unused ≡ b ∷ rest))
unused-cases [] = inl refl
unused-cases (b ∷ rest) = inr (b, rest, refl)

fresh-IsSound :
    (allocated : Option ℕ) (w : World)
    → IsAllowed (takes allocated) w
    → IsSound w
    → w.device.unused_cmd_bufs ≡ []
    → IsSound (on_device_event (takes allocated) w)
unfolding on_device_event command_buffer taken
fresh-IsSound none w allowed sound none_left =
    simp (none_left, command_buffer, taken, on_device_event) sound
fresh-IsSound (some b) w allowed sound none_left =
    simp (none_left, command_buffer, taken, on_device_event)
      (record {
        seen = sound.seen;
        rising = sound.rising;
        reached = sound.reached;
        owned = λ c.
            let once = sound.owned c in
            elim (Bool-cases (b == c)) [
              | inl same ↦
                  let alike : b ≡ c = ground arith in
                  let zero : held_times c w ≡ 0 = subst (λ x. held_times x w ≡ 0) alike allowed in
                  ground arith
              | inr other ↦ ground arith
            ];
        flying = sound.flying;
      })

take-IsSound :
    (allocated : Option ℕ) (w : World)
    → IsAllowed (takes allocated) w
    → IsSound w
    → IsSound (on_device_event (takes allocated) w)
unfolding on_device_event command_buffer taken
take-IsSound allocated w allowed sound = elim (unused-cases w.device.unused_cmd_bufs) [
  | inl none_left ↦ fresh-IsSound allocated w allowed sound none_left
  | inr (b, rest, e) ↦
      simp (e, command_buffer, taken, on_device_event)
        (record {
          seen = sound.seen;
          rising = sound.rising;
          reached = sound.reached;
          owned = λ c.
              let once = sound.owned c in
              let same : times c w.device.unused_cmd_bufs
                  ≡ (if b == c then 1 else 0) + times c rest =
                ap (times c) e in
              omega arith;
          flying = sound.flying;
        })
]

pub event-IsSound :
    (e : DeviceEvent) (w : World) → IsAllowed e w → IsSound w → IsSound (on_device_event e w)
unfolding on_device_event garbage_collect
event-IsSound (takes allocated) w allowed sound = take-IsSound allocated w allowed sound
event-IsSound (submits b) w (given, fits) sound = submit-IsSound b w given fits sound
event-IsSound collects w allowed sound =
    reset-IsSound w.gpu _ (omega arith) (cached-IsSound w.gpu w (omega arith) sound)
event-IsSound (waits sequence reset) w allowed sound = wait-IsSound sequence reset w allowed sound
event-IsSound (asks sequence) w allowed sound = asks-IsSound sequence w sound
event-IsSound (gpu_reaches value) w (forward, issued) sound = record {
  seen = let before = sound.seen in omega arith;
  rising = sound.rising;
  reached = issued;
  owned = sound.owned;
  flying = λ n b logged above. sound.flying n b logged (omega arith);
}
