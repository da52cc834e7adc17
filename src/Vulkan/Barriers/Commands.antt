-- ===== src/Vulkan/Barriers/Commands.antt =====
-- The commands of a command buffer, and its end (src/rendervulkan.cpp).
use gamescope.Common.{
  All, All-map, Bool-cases, List, Option, Option-cases, [], ap, arith, if-false, if-true, inl, inr,
  refl, some, subst, sym, true, ◌++◌, ◌>>=◌, ◌∙◌, ◌∷◌, ◌≡◌,
}
use gamescope.Vulkan.Barriers.{
  CmdBuffer, Image, ImageUse, TextureState, add_image_use, change_state, find_texture_state,
  is_image, mark_dirty, prepare_dest_image, prepare_src_image, track_texture,
}
use gamescope.Vulkan.Barriers.Emit.{
  copy_after_asserts, copy_buffer_to_image, copy_source, copy_target, dispatch_targets, each,
  emit_pre_dispatch_barriers, mark_each, sampled_use, storage_use,
}
use gamescope.Vulkan.Barriers.Flush.{IsImported}
use gamescope.Vulkan.Barriers.History.{tracked}
use gamescope.Vulkan.Barriers.Tracking.{
  AreTracked, Extends, Settles, barriers_for-Settles, change_state-Extends, change_state-IsImported,
  cons-Extends, find_tracked, is_tracked, or_map,
}

tracked_at_end :
    (image : Image) (fresh : TextureState) (states : List (Image × TextureState))
    → is_tracked image (states ++ ((image, fresh) ∷ [])) ≡ true
tracked_at_end image fresh [] = ground arith
tracked_at_end image fresh ((j, s) ∷ rest) =
    or_map (is_image j image) true _ (λ t. tracked_at_end image fresh rest) (ground arith)

append-Extends : (states more : List (Image × TextureState)) → Extends states (states ++ more)
append-Extends [] more = λ i h. absurd (ground arith)
append-Extends ((j, s) ∷ rest) more =
    cons-Extends j s s rest (rest ++ more) (append-Extends rest more)

found_is_tracked :
    (image : Image) (states : List (Image × TextureState)) (state : TextureState)
    → find_texture_state image states ≡ some state
    → is_tracked image states ≡ true
unfolding find_texture_state
found_is_tracked image [] state e = ground arith
found_is_tracked image ((j, s) ∷ rest) state e = elim (Bool-cases (is_image j image)) [
  | inl same ↦ rw same refl
  | inr other ↦
      or_map (is_image j image) true _
        (λ t. found_is_tracked image rest state (sym (if-false _ _ other) ∙ e)) (ground arith)
]

-- An image is tracked after it is prepared, and so are those that were.
abbrev Prepares : Image → (CmdBuffer → CmdBuffer) → Type 0
Prepares image f =
    (c : CmdBuffer)
    → (is_tracked image (f c).texture_state ≡ true) × Extends c.texture_state (f c).texture_state

track-Prepares : (image : Image) (fresh : TextureState) → Prepares image (track_texture image fresh)
unfolding track_texture
track-Prepares image fresh c = elim (Option-cases (find_texture_state image c.texture_state)) [
  | inl missing ↦
      simp (missing, track_texture)
        (
          tracked_at_end image fresh c.texture_state,
          append-Extends c.texture_state ((image, fresh) ∷ []),
        )
  | inr (state, found) ↦
      simp (found, track_texture) (found_is_tracked image c.texture_state state found, λ i h. h)
]

added-AreTracked :
    (states : List (Image × TextureState)) (added : ImageUse) (us : List ImageUse)
    → is_tracked added.image states ≡ true
    → AreTracked states us
    → AreTracked states (add_image_use added us)
unfolding add_image_use
added-AreTracked states added [] t h = (t, tt)
added-AreTracked states added (u ∷ us) t (h, hs) =
    elim (Bool-cases (is_image u.image added.image)) [
      | inl same ↦ subst (AreTracked states) (sym (if-true _ _ same)) (h, hs)
      | inr other ↦
          subst (AreTracked states) (sym (if-false _ _ other))
            (h, added-AreTracked states added us t hs)
    ]

AreTracked-Extends :
    (states after : List (Image × TextureState)) (us : List ImageUse)
    → Extends states after
    → AreTracked states us
    → AreTracked after us
AreTracked-Extends states after us ext = All-map (λ u t. ext u.image t) us

-- A list of images that are prepared one after the other, with a use of each.
prepared_each :
    (prepare : Image → CmdBuffer → CmdBuffer) (used : Image → ImageUse)
    (prepares : (i : Image) → Prepares i (prepare i)) (same : (i : Image) → (used i).image ≡ i)
    (is : List Image) (us : List ImageUse) (c : CmdBuffer)
    → AreTracked c.texture_state us
    → AreTracked (each prepare is c).texture_state (each (λ i. add_image_use (used i)) is us)
      × Extends c.texture_state (each prepare is c).texture_state
unfolding each
prepared_each prepare used prepares same [] us c h = (h, λ i t. t)
prepared_each prepare used prepares same (i ∷ is) us c h =
    let (tracked, ext) = prepares i c in
    let states = (prepare i c).texture_state in
    let grown =
      added-AreTracked states (used i) us
        (subst (λ j. is_tracked j states ≡ true) (sym (same i)) tracked)
        (AreTracked-Extends c.texture_state states us ext h) in
    let (all, further) = prepared_each prepare used prepares same is _ (prepare i c) grown in
    (all, λ j t. further j (ext j t))

marked-Settles :
    (image : Image) (c : CmdBuffer)
    → is_tracked image c.texture_state ≡ true
    → All IsImported c.texture_state
    → Settles c (mark_dirty image c)
unfolding mark_dirty
marked-Settles image c t h =
    let (state, found) = find_tracked image c.texture_state t in
    let dirty = λ (s : TextureState). record s { dirty = true } in
    (
      record c { texture_state = change_state image dirty c.texture_state },
      simp (found, mark_dirty) refl,
      change_state-Extends image dirty c.texture_state,
      change_state-IsImported image dirty c.texture_state (λ s. refl) h,
    )

prepared-All :
    (prepare : Image → CmdBuffer → CmdBuffer) (prepares : (i : Image) → Prepares i (prepare i))
    (is : List Image) (c : CmdBuffer)
    → All (λ i. is_tracked i (each prepare is c).texture_state ≡ true) is
      × Extends c.texture_state (each prepare is c).texture_state
unfolding each
prepared-All prepare prepares [] c = (tt, λ j t. t)
prepared-All prepare prepares (i ∷ is) c =
    let (tracked, ext) = prepares i c in
    let (all, further) = prepared-All prepare prepares is (prepare i c) in
    ((further i tracked, all), λ j t. further j (ext j t))

-- A step that succeeds after the barriers of a command.
then_Settles :
    (c : CmdBuffer) (o : Option CmdBuffer) (f : CmdBuffer → Option CmdBuffer)
    → Settles c o
    → ((d : CmdBuffer)
        → Extends c.texture_state d.texture_state
        → All IsImported d.texture_state
        → Settles d (f d))
    → Settles c (o >>= f)
then_Settles c o f (d, e, ext, imported) next =
    let (after, made, further, all) = next d ext imported in
    (after, ap (λ (p : Option CmdBuffer). p >>= f) e ∙ made, (λ i t. further i (ext i t)), all)

mark_each-Settles :
    (is : List Image) (c : CmdBuffer)
    → All (λ i. is_tracked i c.texture_state ≡ true) is
    → All IsImported c.texture_state
    → Settles c (mark_each is c)
unfolding mark_each
mark_each-Settles [] c t h = (c, refl, (λ i x. x), h)
mark_each-Settles (i ∷ is) c (t, ts) h =
    then_Settles c (mark_dirty i c) (mark_each is) (marked-Settles i c t h)
      (λ d ext imported. mark_each-Settles is d (All-map (λ j x. ext j x) is ts) imported)

-- A command succeeds, and leaves no image to be imported.
abbrev pub Succeeds : Option CmdBuffer → Type 0
Succeeds o = (d : CmdBuffer) × (o ≡ some d) × All IsImported d.texture_state

Settles-Succeeds : (c : CmdBuffer) (o : Option CmdBuffer) → Settles c o → Succeeds o
Settles-Succeeds c o (d, e, ext, imported) = (d, e, imported)

src-Prepares : (i : Image) → Prepares i (prepare_src_image i)
unfolding prepare_src_image
src-Prepares i = track-Prepares i _

dest-Prepares : (i : Image) → Prepares i (prepare_dest_image i)
unfolding prepare_dest_image
dest-Prepares i = track-Prepares i _

pub dispatch-Succeeds :
    (sources targets : List Image) (c : CmdBuffer) → Succeeds (dispatch_targets sources targets c)
unfolding dispatch_targets emit_pre_dispatch_barriers sampled_use storage_use
dispatch-Succeeds sources targets c =
    let read = each prepare_src_image sources c in
    let bound =
      prepared_each prepare_src_image sampled_use src-Prepares (λ i. refl) sources [] c tt in
    let uses =
      prepared_each prepare_dest_image storage_use dest-Prepares (λ i. refl) targets _ read
        bound.0 in
    let written = prepared-All prepare_dest_image dest-Prepares targets read in
    let ready = each prepare_dest_image targets read in
    Settles-Succeeds ready _ (
      then_Settles ready _ (mark_each targets) (barriers_for-Settles _ ready uses.0)
        (λ d ext imported.
          mark_each-Settles targets d (All-map (λ i t. ext i t) targets written.0) imported))

pub copy-Succeeds : (src dst : Image) (c : CmdBuffer) → Succeeds (copy_after_asserts src dst c)
unfolding copy_after_asserts copy_source copy_target
copy-Succeeds src dst c =
    let first = prepare_src_image src c in
    let ready = prepare_dest_image dst first in
    let source = src-Prepares src c in
    let target = dest-Prepares dst first in
    let uses =
      added-AreTracked ready.texture_state (copy_target dst) (add_image_use (copy_source src) [])
        target.0
        (added-AreTracked ready.texture_state (copy_source src) [] (target.1 src source.0) tt) in
    Settles-Succeeds ready _ (
      then_Settles ready _ (mark_dirty dst) (barriers_for-Settles _ ready uses)
        (λ d ext imported. marked-Settles dst d (ext dst target.0) imported))

pub upload-Succeeds : (dst : Image) (c : CmdBuffer) → Succeeds (copy_buffer_to_image dst c)
unfolding copy_buffer_to_image copy_target
upload-Succeeds dst c =
    let ready = prepare_dest_image dst c in
    let target = dest-Prepares dst c in
    let uses = added-AreTracked ready.texture_state (copy_target dst) [] target.0 tt in
    Settles-Succeeds ready _ (
      then_Settles ready _ (mark_dirty dst) (barriers_for-Settles _ ready uses)
        (λ d ext imported. marked-Settles dst d (ext dst target.0) imported))
