-- ===== src/Vulkan/Barriers/Flush.antt =====
-- What insertBarrier leaves when a command buffer ends (src/rendervulkan.cpp).
use gamescope.Common.{
  All, Bool-cases, List, Option, [], ap, arith, false, if-false, if-true, inl, inr, refl, some,
  true, ◌>>=◌, ◌∙◌, ◌∷◌, ◌≡◌, ◌⊎◌,
}
use gamescope.Vulkan.Barriers.{
  CmdBuffer, Image, ImageBarrier, TextureState, external_queue, present_layout,
}
use gamescope.Vulkan.Barriers.Emit.{
  acquired, barrier_each, claim_family, insert_barrier, needs_barrier, texture_barrier,
}

abbrev pub Any {ℓ} : {A : Type ℓ} → (A → Type 0) → List A → Type 0
Any P [] = ⊥
Any P (x ∷ xs) = P x ⊎ Any P xs

-- A barrier that makes the writes of an image available: to every later access of the queue, to another
-- queue family, or to the presentation.
abbrev pub IsPublished : Image → ImageBarrier → Type 0
IsPublished image b =
    (b.image ≡ image)
    × (b.writes ≡ true)
    × ((b.visible ≡ true) ⊎ ((b.dst_family ≡ external_queue) ⊎ (b.new_layout ≡ present_layout)))

abbrev pub IsClean : Image × TextureState → Type 0
IsClean p = (p.1.dirty ≡ false) × (p.1.discarded ≡ false) × (p.1.needs_import ≡ false)

abbrev pub IsImported : Image × TextureState → Type 0
IsImported p = p.1.needs_import ≡ false

flushed-IsPublished :
    (c : CmdBuffer) (image : Image) (state : TextureState)
    → state.dirty ≡ true
    → IsPublished image (texture_barrier true c image state)
unfolding texture_barrier
flushed-IsPublished c image state dirty = elim (Bool-cases state.needs_export) [
  | inl exports ↦ (refl, dirty, inr (inl (rw exports refl)))
  | inr stays ↦ elim (Bool-cases state.needs_present_layout) [
    | inl presents ↦ (refl, dirty, inr (inr (rw presents refl)))
    | inr internal ↦ (refl, dirty, inl (simp (stays, internal, dirty) refl))
  ]
]

clean_of :
    (state : TextureState)
    → needs_barrier true state ≡ false
    → state.needs_import ≡ false
    → (state.dirty ≡ false) × (state.discarded ≡ false) × (state.needs_import ≡ false)
unfolding needs_barrier
clean_of state idle imported = (ground arith, ground arith, imported)

idle_not_dirty : (state : TextureState) → needs_barrier true state ≡ false → state.dirty ≡ true → ⊥
unfolding needs_barrier
idle_not_dirty state idle dirty = ground arith

-- The loop with the flush, from a command buffer on.
abbrev IsFlushed : List (Image × TextureState) → CmdBuffer → Type 0
IsFlushed states c =
    (after : List (Image × TextureState)) × (d : CmdBuffer) × (barrier_each true states c
      ≡ some (after, d))
    × All IsClean after
    × ((i : Image) → Any (IsPublished i) c.barriers → Any (IsPublished i) d.barriers)
    × All (λ p. p.1.dirty ≡ true → Any (IsPublished p.0) d.barriers) states

flush-IsFlushed :
    (states : List (Image × TextureState)) (c : CmdBuffer)
    → All IsImported states
    → IsFlushed states c
unfolding acquired barrier_each claim_family
flush-IsFlushed [] c h = ([], c, refl, tt, (λ i x. x), tt)
flush-IsFlushed ((image, state) ∷ rest) c (imported, h) =
    elim (Bool-cases (needs_barrier true state)) [
      | inl needs ↦
          let claimed = claim_family image c in
          let first = texture_barrier true claimed image state in
          let (after, d, e, clean, kept, published) =
            flush-IsFlushed rest (record claimed { barriers = first ∷ claimed.barriers }) h in
          (
            (image, acquired state) ∷ after,
            d,
            if-false _ _ imported
                ∙ if-true _ _ needs
                ∙ ap
                    (λ (o : Option (List (Image × TextureState) × CmdBuffer)).
                      o >>= λ done. some ((image, acquired state) ∷ done.0, done.1))
                    e,
            ((refl, refl, refl), clean),
            (λ i x. kept i (inr x)),
            (
              (λ dirty. kept image (inl (flushed-IsPublished claimed image state dirty))),
              published,
            ),
          )
      | inr idle ↦
          let (after, d, e, clean, kept, published) = flush-IsFlushed rest c h in
          (
            (image, state) ∷ after,
            d,
            if-false _ _ imported
                ∙ if-false _ _ idle
                ∙ ap
                    (λ (o : Option (List (Image × TextureState) × CmdBuffer)).
                      o >>= λ done. some ((image, state) ∷ done.0, done.1))
                    e,
            ((clean_of state idle imported), clean),
            kept,
            ((λ dirty. absurd (idle_not_dirty state idle dirty)), published),
          )
    ]

-- When a command buffer ends and no tracked image is still to be imported, the assertion of insertBarrier
-- holds, every tracked image is left clean, and every image that was dirty has a barrier that makes its
-- writes available to later accesses, to another queue family or to the presentation.
pub end_publishes_writes :
    (c : CmdBuffer)
    → All IsImported c.texture_state
    → (d : CmdBuffer) × (insert_barrier true c ≡ some d)
      × All IsClean d.texture_state
      × All (λ p. p.1.dirty ≡ true → Any (IsPublished p.0) d.barriers) c.texture_state
unfolding insert_barrier
end_publishes_writes c h =
    let (after, d, e, clean, kept, published) = flush-IsFlushed c.texture_state c h in
    (
      record d { texture_state = after },
      ap
          (λ (o : Option (List (Image × TextureState) × CmdBuffer)).
            o >>= λ done. some (record done.1 { texture_state = done.0 }))
          e,
      clean,
      published,
    )
