-- ===== src/Vulkan/Barriers/Tracking.antt =====
-- The list of tracked images through the steps of a command (src/rendervulkan.cpp).
use gamescope.Common.{
  All, All-map, Bool, Bool-cases, List, Option, Option-cases, [], ap, arith, false, if-false,
  if-true, inl, inr, refl, some, subst, sym, true, ◌>>=◌, ◌||◌, ◌∙◌, ◌∷◌, ◌≡◌,
}
use gamescope.Vulkan.Barriers.{
  CmdBuffer, Image, ImageUse, TextureState, change_state, find_texture_state, is_image,
}
use gamescope.Vulkan.Barriers.Emit.{
  acquire_each, acquired, barrier_each, barriers_for, claim_family, emit_external_acquire_barriers,
  emit_sync2_barriers, emit_uses, insert_barrier, needs_barrier, note_uses, state_after_use,
  texture_barrier, use_barrier,
}
use gamescope.Vulkan.Barriers.Flush.{IsImported}

abbrev States : Type 0
States = List (Image × TextureState)

abbrev pub is_tracked : Image → List (Image × TextureState) → Bool
is_tracked image [] = false
is_tracked image ((i, state) ∷ rest) = is_image i image || is_tracked image rest

-- The same images are tracked, and more may be.
abbrev pub Extends : List (Image × TextureState) → List (Image × TextureState) → Type 0
Extends states after = (i : Image) → is_tracked i states ≡ true → is_tracked i after ≡ true

or_second : (p q : Bool) → (p || q) ≡ true → p ≡ false → q ≡ true
or_second true q h e = ground arith
or_second false q h e = h

pub or_map : (p q r : Bool) → (q ≡ true → r ≡ true) → (p || q) ≡ true → (p || r) ≡ true
or_map true q r f h = refl
or_map false q r f h = f h

pub cons-Extends :
    (j : Image) (s t : TextureState) (states after : States)
    → Extends states after
    → Extends ((j, s) ∷ states) ((j, t) ∷ after)
cons-Extends j s t states after ext i h = or_map (is_image j i) _ _ (ext i) h

pub find_tracked :
    (image : Image) (states : States)
    → is_tracked image states ≡ true
    → (state : TextureState) × (find_texture_state image states ≡ some state)
unfolding find_texture_state
find_tracked image [] h = ground arith
find_tracked image ((i, state) ∷ rest) h = elim (Bool-cases (is_image i image)) [
  | inl same ↦ (state, if-true _ _ same)
  | inr other ↦
      let (found, e) = find_tracked image rest (or_second (is_image i image) _ h other) in
      (found, if-false _ _ other ∙ e)
]

pub change_state-Extends :
    (image : Image) (f : TextureState → TextureState) (states : States)
    → Extends states (change_state image f states)
unfolding change_state
change_state-Extends image f [] = λ i h. h
change_state-Extends image f ((j, state) ∷ rest) = elim (Bool-cases (is_image j image)) [
  | inl same ↦
      subst (Extends ((j, state) ∷ rest)) (sym (if-true _ _ same))
        (cons-Extends j state (f state) rest rest (λ i h. h))
  | inr other ↦
      subst (Extends ((j, state) ∷ rest)) (sym (if-false _ _ other))
        (cons-Extends j state state rest _ (change_state-Extends image f rest))
]

pub change_state-IsImported :
    (image : Image) (f : TextureState → TextureState) (states : States)
    → ((s : TextureState) → (f s).needs_import ≡ s.needs_import)
    → All IsImported states
    → All IsImported (change_state image f states)
unfolding change_state
change_state-IsImported image f [] keeps h = tt
change_state-IsImported image f ((j, state) ∷ rest) keeps (imported, h) =
    elim (Bool-cases (is_image j image)) [
      | inl same ↦ subst (All IsImported) (sym (if-true _ _ same)) (keeps state ∙ imported, h)
      | inr other ↦
          subst (All IsImported) (sym (if-false _ _ other))
            (imported, change_state-IsImported image f rest keeps h)
    ]

acquire_each-Extends : (states : States) (c : CmdBuffer) → Extends states (acquire_each states c).0
unfolding acquire_each
acquire_each-Extends [] c = λ i h. h
acquire_each-Extends ((j, state) ∷ rest) c = elim (Bool-cases state.needs_import) [
  | inl imports ↦
      simp (imports, acquire_each)
        (cons-Extends j state (acquired state) rest _ (acquire_each-Extends rest _))
  | inr stays ↦
      simp (stays, acquire_each) (cons-Extends j state state rest _ (acquire_each-Extends rest c))
]

acquire_each-IsImported :
    (states : States) (c : CmdBuffer) → All IsImported (acquire_each states c).0
unfolding acquire_each acquired
acquire_each-IsImported [] c = tt
acquire_each-IsImported ((j, state) ∷ rest) c = elim (Bool-cases state.needs_import) [
  | inl imports ↦ simp (imports, acquire_each) (refl, acquire_each-IsImported rest _)
  | inr stays ↦ simp (stays, acquire_each) (refl, acquire_each-IsImported rest _)
]

abbrev pub AreTracked : List (Image × TextureState) → List ImageUse → Type 0
AreTracked states = All (λ u. is_tracked u.image states ≡ true)

-- The first loop of emitSync2Barriers finds every image that is tracked, and changes no state.
emit_uses-some :
    (us : List ImageUse) (c : CmdBuffer)
    → AreTracked c.texture_state us
    → (d : CmdBuffer) × (emit_uses us c ≡ some d) × (d.texture_state ≡ c.texture_state)
unfolding emit_uses claim_family
emit_uses-some [] c h = (c, refl, refl)
emit_uses-some (u ∷ us) c (h, hs) =
    let (state, e) = find_tracked u.image c.texture_state h in
    elim (Option-cases (use_barrier state u)) [
      | inl quiet ↦
          let (d, made, same) = emit_uses-some us (claim_family u.image c) hs in
          (d, simp (e, quiet, emit_uses) made, same)
      | inr (b, barred) ↦
          let claimed = claim_family u.image c in
          let (d, made, same) =
            emit_uses-some us (record claimed { barriers2 = b ∷ claimed.barriers2 }) hs in
          (d, simp (e, barred, emit_uses) made, same)
    ]

note_uses-Extends : (us : List ImageUse) (states : States) → Extends states (note_uses us states)
unfolding note_uses
note_uses-Extends [] states i h = h
note_uses-Extends (u ∷ us) states i h =
    note_uses-Extends us _ i (change_state-Extends u.image (state_after_use u) states i h)

note_uses-IsImported :
    (us : List ImageUse) (states : States)
    → All IsImported states
    → All IsImported (note_uses us states)
unfolding note_uses state_after_use
note_uses-IsImported [] states h = h
note_uses-IsImported (u ∷ us) states h =
    note_uses-IsImported us _
      (change_state-IsImported u.image (state_after_use u) states (λ s. refl) h)

idle_is_imported :
    (state : TextureState) → needs_barrier false state ≡ false → state.needs_import ≡ false
unfolding needs_barrier
idle_is_imported state idle = ground arith

-- Barriers keep the tracked images, and leave none to be imported.
abbrev pub Settles : CmdBuffer → Option CmdBuffer → Type 0
Settles c o =
    (d : CmdBuffer) × (o ≡ some d)
    × Extends c.texture_state d.texture_state
    × All IsImported d.texture_state

sync2-Settles :
    (us : List ImageUse) (c : CmdBuffer)
    → AreTracked c.texture_state us
    → Settles c (emit_sync2_barriers us c)
unfolding emit_sync2_barriers emit_external_acquire_barriers
sync2-Settles us c h =
    let before = emit_external_acquire_barriers c in
    let ext = acquire_each-Extends c.texture_state c in
    let (d, e, same) = emit_uses-some us before (All-map (λ u t. ext u.image t) us h) in
    (
      record d { texture_state = note_uses us d.texture_state },
      ap
          (λ (o : Option CmdBuffer). o >>= λ emitted.
            some (record emitted { texture_state = note_uses us emitted.texture_state }))
          e,
      (λ i t.
          note_uses-Extends us d.texture_state i
            (subst (λ x. is_tracked i x ≡ true) (sym same) (ext i t))),
      note_uses-IsImported us d.texture_state
          (subst (All IsImported) (sym same) (acquire_each-IsImported c.texture_state c)),
    )

sync1_each :
    (states : States) (c : CmdBuffer)
    → (after : States) × (d : CmdBuffer) × (barrier_each false states c ≡ some (after, d))
      × Extends states after
      × All IsImported after
unfolding barrier_each acquired
sync1_each [] c = ([], c, refl, (λ i h. h), tt)
sync1_each ((j, state) ∷ rest) c = elim (Bool-cases (needs_barrier false state)) [
  | inl needs ↦
      let claimed = claim_family j c in
      let (after, d, e, ext, imported) =
        sync1_each rest (record claimed {
          barriers = texture_barrier false claimed j state ∷ claimed.barriers;
        }) in
      (
        (j, acquired state) ∷ after,
        d,
        if-true _ _ needs
            ∙ ap
                (λ (o : Option (States × CmdBuffer)).
                  o >>= λ done. some ((j, acquired state) ∷ done.0, done.1))
                e,
        cons-Extends j state (acquired state) rest after ext,
        (refl, imported),
      )
  | inr idle ↦
      let (after, d, e, ext, imported) = sync1_each rest c in
      (
        (j, state) ∷ after,
        d,
        if-false _ _ idle
            ∙ ap
                (λ (o : Option (States × CmdBuffer)).
                  o >>= λ done. some ((j, state) ∷ done.0, done.1))
                e,
        cons-Extends j state state rest after ext,
        (idle_is_imported state idle, imported),
      )
]

pub barriers_for-Settles :
    (us : List ImageUse) (c : CmdBuffer)
    → AreTracked c.texture_state us
    → Settles c (barriers_for us c)
unfolding barriers_for insert_barrier
barriers_for-Settles us c h = elim (Bool-cases c.supports_sync2) [
  | inl sync2 ↦
      let (d, e, ext, imported) = sync2-Settles us c h in (d, if-true _ _ sync2 ∙ e, ext, imported)
  | inr sync1 ↦
      let (after, d, e, ext, imported) = sync1_each c.texture_state c in
      (
        record d { texture_state = after },
        if-false _ _ sync1
            ∙ ap
                (λ (o : Option (States × CmdBuffer)).
                  o >>= λ done. some (record done.1 { texture_state = done.0 }))
                e,
        ext,
        imported,
      )
]
