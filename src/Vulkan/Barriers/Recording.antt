-- ===== src/Vulkan/Barriers/Recording.antt =====
-- A whole recording: commands, then the barrier that ends the command buffer (src/rendervulkan.cpp).
use gamescope.Common.{
  All, Bool-cases, List, Option, Option-cases, [], add_u32, ap, arith, false, if-false, if-true,
  inl, inr, leb, refl, some, subst, suc, sym, true, ℕ, ◌&&◌, ◌++◌, ◌+◌, ◌<◌, ◌==◌, ◌>>=◌, ◌∙◌, ◌∷◌,
  ◌≡◌, ◌≤◌,
}
use gamescope.Vulkan.Barriers.{
  CmdBuffer, CountedBuffer, Image, TextureState, discard_image, find_texture_state, track_texture,
}
use gamescope.Vulkan.Barriers.Commands.{Succeeds, copy-Succeeds, dispatch-Succeeds, upload-Succeeds}
use gamescope.Vulkan.Barriers.Emit.{
  both_targets, copy_buffer_to_image, copy_image, count_dispatch, dispatch, dispatch_targets,
  insert_barrier,
}
use gamescope.Vulkan.Barriers.Flush.{Any, IsClean, IsImported, IsPublished, end_publishes_writes}

pub data Command : Type 0 where
  dispatches : List Image → Option Image → Option Image → Command
  copies : Image → Image → Command
  uploads : Image → Command
  discards : Image → Command

abbrev pub on_buffer : CountedBuffer → Option CmdBuffer → Option CountedBuffer
on_buffer r o = o >>= λ c. some (record r { buffer = c })

-- None where an assertion of the code fails, or it aborts.
unfoldable pub record_command : Command → CountedBuffer → Option CountedBuffer
record_command (dispatches sources target target2) r = dispatch sources target target2 r
record_command (copies src dst) r = on_buffer r (copy_image src dst r.buffer)
record_command (uploads dst) r = on_buffer r (copy_buffer_to_image dst r.buffer)
record_command (discards image) r = some (record r { buffer = discard_image image r.buffer })

unfoldable pub record_commands : List Command → CountedBuffer → Option CountedBuffer
record_commands [] r = some r
record_commands (k ∷ ks) r = record_command k r >>= record_commands ks

-- The assertions on the arguments of a command: a dispatch has a target, and a copy is between images of
-- one size.
abbrev pub IsWellFormed : Command → Type 0
IsWellFormed (dispatches sources target target2) = (image : Image) × (target ≡ some image)
IsWellFormed (copies src dst) = (src.width ≡ dst.width) × (src.height ≡ dst.height)
IsWellFormed (uploads dst) = Unit
IsWellFormed (discards image) = Unit

abbrev pub dispatches_of : List Command → ℕ
dispatches_of [] = 0
dispatches_of (dispatches sources target target2 ∷ ks) = suc (dispatches_of ks)
dispatches_of (copies src dst ∷ ks) = dispatches_of ks
dispatches_of (uploads dst ∷ ks) = dispatches_of ks
dispatches_of (discards image ∷ ks) = dispatches_of ks

-- The descriptors of the frame generator, if it is its recording, are enough for so many dispatches.
abbrev pub HasRoom : ℕ → CountedBuffer → Type 0
HasRoom n r =
    r.is_framegen ≡ true
    → (r.framegen_dispatch_count + n ≤ r.framegen_capacity) × (r.framegen_capacity < 4294967296)

appended-IsImported :
    (image : Image) (fresh : TextureState) (states : List (Image × TextureState))
    → fresh.needs_import ≡ false
    → All IsImported states
    → All IsImported (states ++ ((image, fresh) ∷ []))
appended-IsImported image fresh [] e h = (e, tt)
appended-IsImported image fresh (p ∷ rest) e (i, h) = (i, appended-IsImported image fresh rest e h)

discard-Succeeds :
    (image : Image) (c : CmdBuffer)
    → All IsImported c.texture_state
    → Succeeds (some (discard_image image c))
unfolding discard_image track_texture
discard-Succeeds image c h = elim (Option-cases (find_texture_state image c.texture_state)) [
  | inl missing ↦
      simp (missing, track_texture) (_, refl, appended-IsImported image _ c.texture_state refl h)
  | inr (state, found) ↦ simp (found, track_texture) (c, refl, h)
]

-- A command succeeds, leaves no image to be imported, and leaves room for so many dispatches.
abbrev Records : ℕ → Option CountedBuffer → Type 0
Records n o =
    (r : CountedBuffer) × (o ≡ some r) × All IsImported r.buffer.texture_state × HasRoom n r

on_buffer-Records :
    (n : ℕ) (r : CountedBuffer) (o : Option CmdBuffer)
    → Succeeds o
    → HasRoom n r
    → Records n (on_buffer r o)
on_buffer-Records n r o (c, e, imported) room =
    (record r { buffer = c }, ap (on_buffer r) e, imported, room)

counted-Records :
    (n : ℕ) (r : CountedBuffer)
    → HasRoom (suc n) r
    → (counted : CountedBuffer) × (count_dispatch r ≡ some counted)
      × (counted.buffer ≡ r.buffer)
      × HasRoom n counted
unfolding count_dispatch
counted-Records n r room = elim (Bool-cases r.is_framegen) [
  | inl framegen ↦
      let (enough, small) = room framegen in
      let left : leb r.framegen_capacity r.framegen_dispatch_count ≡ false = ground arith in
      (
        record r { framegen_dispatch_count = add_u32 r.framegen_dispatch_count 1 },
        if-true _ _ framegen ∙ if-false _ _ left,
        refl,
        λ h. omega arith,
      )
  | inr other ↦ (r, if-false _ _ other, refl, λ h. absurd (ground arith))
]

dispatch-Records :
    (sources : List Image) (target : Image) (target2 : Option Image) (n : ℕ) (r : CountedBuffer)
    → HasRoom (suc n) r
    → Records n (dispatch sources (some target) target2 r)
unfolding dispatch
dispatch-Records sources target target2 n r room =
    let (counted, e, same, left) = counted-Records n r room in
    let targets = both_targets target target2 in
    let (made, done_is, imported, kept) =
      on_buffer-Records n counted (dispatch_targets sources targets counted.buffer)
        (dispatch-Succeeds sources targets counted.buffer) left in
    (
      made,
      ap
            (λ (o : Option CountedBuffer). o >>= λ r.
              dispatch_targets sources targets r.buffer >>= λ c. some (record r { buffer = c }))
            e
          ∙ done_is,
      imported,
      kept,
    )

command-Records :
    (k : Command) (ks : List Command) (r : CountedBuffer)
    → All IsImported r.buffer.texture_state
    → IsWellFormed k
    → HasRoom (dispatches_of (k ∷ ks)) r
    → Records (dispatches_of ks) (record_command k r)
unfolding record_command copy_image
command-Records (dispatches sources target target2) ks r h (image, e) room =
    subst (λ t. Records (dispatches_of ks) (dispatch sources t target2 r)) (sym e)
      (dispatch-Records sources image target2 (dispatches_of ks) r room)
command-Records (copies src dst) ks r h (wide, high) room =
    let sizes : ((src.width == dst.width) && (src.height == dst.height)) ≡ true = ground arith in
    let (c, e, imported) = copy-Succeeds src dst r.buffer in
    on_buffer-Records _ r _ (c, if-true _ _ sizes ∙ e, imported) room
command-Records (uploads dst) ks r h form room =
    on_buffer-Records _ r _ (upload-Succeeds dst r.buffer) room
command-Records (discards image) ks r h form room =
    on_buffer-Records _ r _ (discard-Succeeds image r.buffer h) room

commands-Records :
    (ks : List Command) (r : CountedBuffer)
    → All IsImported r.buffer.texture_state
    → All IsWellFormed ks
    → HasRoom (dispatches_of ks) r
    → Records 0 (record_commands ks r)
unfolding record_commands
commands-Records [] r h forms room = (r, refl, h, room)
commands-Records (k ∷ ks) r h (form, forms) room =
    let (d, e, imported, left) = command-Records k ks r h form room in
    let (after, made, all, rest) = commands-Records ks d imported forms left in
    (after, ap (λ (o : Option CountedBuffer). o >>= record_commands ks) e ∙ made, all, rest)

-- From a recording in which no image is to be imported, every sequence of dispatches, copies, uploads and
-- discards fails no assertion and does not abort, over any images, if its dispatches have targets, its
-- copies are between images of one size, and a recording of the frame generator has as many descriptor
-- sets left as dispatches. Nor does the barrier that ends the recording fail, after which every tracked image
-- is clean, and every image that the recording left dirty has a barrier that makes its writes available.
pub recording_never_fails :
    (ks : List Command) (r : CountedBuffer)
    → All IsImported r.buffer.texture_state
    → All IsWellFormed ks
    → HasRoom (dispatches_of ks) r
    → (d : CountedBuffer) × (ended : CmdBuffer) × (record_commands ks r ≡ some d)
      × (insert_barrier true d.buffer ≡ some ended)
      × All IsClean ended.texture_state
      × All (λ p. p.1.dirty ≡ true → Any (IsPublished p.0) ended.barriers) d.buffer.texture_state
recording_never_fails ks r h forms room =
    let (d, e, imported, rest) = commands-Records ks r h forms room in
    let (ended, made, clean, published) = end_publishes_writes d.buffer imported in
    (d, ended, e, made, clean, published)
