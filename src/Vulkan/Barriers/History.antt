-- ===== src/Vulkan/Barriers/History.antt =====
-- What the tracked stage and access of an image stand for: the uses that a later one waits for
-- (src/rendervulkan.cpp).
use gamescope.Common.{
  All, Bool, Bool-cases, List, Option, [], ap, arith, false, if◌then◌else◌, inl, inr, none, refl,
  some, subst, sym, true, ◌||◌, ◌∙◌, ◌∷◌, ◌≡◌,
}
use gamescope.Vulkan.Barriers.{
  Accesses, Image, ImageBarrier2, ImageUse, Layout, Stages, TextureState, any_access, general,
  new_state, no_accesses, no_stages, or_accesses, or_stages, undefined,
}
use gamescope.Vulkan.Barriers.Emit.{
  compute_stage, copy_source, sampled_use, state_after_use, storage_use, use_barrier,
}

-- Uses newest first. Those that are outstanding: the last write, or the reads since it.
reads_first : List ImageUse → List ImageUse
reads_first [] = []
reads_first (u ∷ us) = if u.write then [] else u ∷ reads_first us

pub outstanding : List ImageUse → List ImageUse
outstanding [] = []
outstanding (u ∷ us) = if u.write then u ∷ [] else u ∷ reads_first us

pub stages_of : List ImageUse → Stages
stages_of [] = no_stages
stages_of (u ∷ us) = or_stages (stages_of us) u.stage

pub accesses_of : List ImageUse → Accesses
accesses_of [] = no_accesses
accesses_of (u ∷ us) = or_accesses (accesses_of us) u.access

abbrev pub is_write_first : List ImageUse → Bool
is_write_first [] = false
is_write_first (u ∷ us) = u.write

-- The state that the uses of an image leave.
pub tracked : TextureState → List ImageUse → TextureState
tracked state [] = state
tracked state (u ∷ us) = state_after_use u (tracked state us)

abbrev pub IsAccess : ImageUse → Type 0
IsAccess u = any_access u.access ≡ true

-- The tracked state is that of the outstanding uses.
pub record IsOutstanding (state : TextureState) (us : List ImageUse) : Type 0 where
  pub stage : state.last_stage ≡ stages_of (outstanding us)
  pub access : state.last_access ≡ accesses_of (outstanding us)
  pub write : state.last_was_write ≡ is_write_first us

any-or : (a b : Accesses) → any_access b ≡ true → any_access (or_accesses a b) ≡ true
any-or a b h = ground arith

outstanding_head :
    (v : ImageUse) (vs : List ImageUse) → (rest : List ImageUse) × (outstanding (v ∷ vs) ≡ v ∷ rest)
unfolding outstanding
outstanding_head v vs = elim (Bool-cases v.write) [
  | inl write ↦ ([], rw write refl)
  | inr read ↦ (reads_first vs, rw read refl)
]

prior_access :
    (v : ImageUse) (vs : List ImageUse)
    → IsAccess v
    → any_access (accesses_of (outstanding (v ∷ vs))) ≡ true
unfolding accesses_of
prior_access v vs h =
    let (rest, e) = outstanding_head v vs in
    subst (λ us. any_access (accesses_of us) ≡ true) (sym e) (any-or (accesses_of rest) v.access h)

-- One use after others.
use_after-IsOutstanding :
    (u v : ImageUse) (vs : List ImageUse) (st : TextureState)
    → IsOutstanding st (v ∷ vs)
    → any_access st.last_access ≡ true
    → IsOutstanding (state_after_use u st) (u ∷ v ∷ vs)
unfolding state_after_use outstanding reads_first stages_of accesses_of
use_after-IsOutstanding u v vs st before prior = elim (Bool-cases u.write) [
  | inl write ↦ record {
    stage = rw (prior, before.write, write) (ground arith);
    access = rw (prior, before.write, write) (ground arith);
    write = refl;
  }
  | inr read ↦ elim (Bool-cases v.write) [
    | inl wrote ↦ record {
      stage = rw (prior, before.write, read, wrote) refl;
      access = rw (prior, before.write, read, wrote) refl;
      write = refl;
    }
    | inr also ↦
        let outs : outstanding (v ∷ vs) ≡ v ∷ reads_first vs = rw also refl in
        record {
          stage =
              rw (prior, before.write, read, also)
                (ap (λ s. or_stages s u.stage) (before.stage ∙ ap stages_of outs));
          access =
              rw (prior, before.write, read, also)
                (ap (λ s. or_accesses s u.access) (before.access ∙ ap accesses_of outs));
          write = refl;
        }
  ]
]

-- The state of an image that prepareDestImage or prepareSrcImage starts to track.
abbrev pub started : Bool → TextureState
started discarded = record new_state { discarded = discarded }

tracked-IsOutstanding :
    (discarded : Bool) (us : List ImageUse)
    → All IsAccess us
    → IsOutstanding (tracked (started discarded) us) us
unfolding tracked state_after_use outstanding reads_first stages_of accesses_of
tracked-IsOutstanding discarded [] h = record { stage = refl; access = refl; write = refl }
tracked-IsOutstanding discarded (u ∷ []) h = elim (Bool-cases u.write) [
  | inl write ↦ record { stage = rw write refl; access = rw write refl; write = refl }
  | inr read ↦ record { stage = rw read refl; access = rw read refl; write = refl }
]
tracked-IsOutstanding discarded (u ∷ v ∷ vs) (a, h) =
    let st = tracked (started discarded) (v ∷ vs) in
    let before = tracked-IsOutstanding discarded (v ∷ vs) h in
    let prior : any_access st.last_access ≡ true =
      subst (λ x. any_access x ≡ true) (sym before.access) (prior_access v vs h.0) in
    use_after-IsOutstanding u v vs st before prior

-- A use conflicts with those before it when there are any, and it or the last one writes.
abbrev pub conflicts : List ImageUse → ImageUse → Bool
conflicts [] u = false
conflicts (v ∷ vs) u = v.write || u.write

abbrev pub full_barrier : ImageUse → Stages → Accesses → Layout → ImageBarrier2
full_barrier u stage access layout = record {
  image = u.image;
  src_stage = stage;
  src_access = access;
  dst_stage = u.stage;
  dst_access = u.access;
  old_layout = layout;
}

-- The barrier that a use needs, by the uses before it and not by a tracked state.
abbrev pub needed_barrier : Bool → List ImageUse → ImageUse → Option ImageBarrier2
needed_barrier discarded [] u =
    if discarded then some (full_barrier u no_stages no_accesses undefined) else none
needed_barrier discarded (v ∷ vs) u =
    if conflicts (v ∷ vs) u
    then some (
        full_barrier u (stages_of (outstanding (v ∷ vs)))
          (if v.write then accesses_of (outstanding (v ∷ vs)) else no_accesses) general)
    else none

barrier_lem :
    (st : TextureState) (v u : ImageUse) (vs : List ImageUse)
    → IsOutstanding st (v ∷ vs)
    → any_access st.last_access ≡ true
    → st.discarded ≡ false
    → use_barrier st u ≡ needed_barrier false (v ∷ vs) u
unfolding use_barrier
barrier_lem st v u vs before prior kept = elim (Bool-cases v.write) [
  | inl wrote ↦
      simp (kept, prior, before.write, wrote)
        (ap (λ s. some (full_barrier u s st.last_access general)) before.stage
          ∙ ap (λ a. some (full_barrier u (stages_of (outstanding (v ∷ vs))) a general))
              before.access)
  | inr read ↦ elim (Bool-cases u.write) [
    | inl writes ↦
        simp (kept, prior, before.write, read, writes)
          (ap (λ s. some (full_barrier u s no_accesses general)) before.stage)
    | inr reads ↦ simp (kept, prior, before.write, read, reads) refl
  ]
]

-- The barrier before a use that follows others of its image in the command buffer, each with an access:
-- there is one exactly if there are others and the use or the last of them writes. It waits for the stages
-- of all outstanding uses, the last write or the reads since it, makes the last write available if there
-- was no read since, and is for the stage and access of the use. Before the first use of an image there is
-- one exactly if its contents are discarded, and it waits for nothing.
pub use_waits_for_outstanding :
    (discarded : Bool) (us : List ImageUse) (u : ImageUse)
    → All IsAccess us
    → use_barrier (tracked (started discarded) us) u ≡ needed_barrier discarded us u
unfolding tracked use_barrier state_after_use
use_waits_for_outstanding true [] u h = refl
use_waits_for_outstanding false [] u h = refl
use_waits_for_outstanding discarded (v ∷ vs) u h =
    let before = tracked-IsOutstanding discarded (v ∷ vs) h in
    let prior = subst (λ x. any_access x ≡ true) (sym before.access) (prior_access v vs h.0) in
    barrier_lem (tracked (started discarded) (v ∷ vs)) v u vs before prior refl

-- An image that a dispatch writes and a later one samples, and that is then copied from: the barrier
-- after the write is for the compute stage only, and none comes before the copy, so the copy does not wait
-- for the write.
pub copy_after_sample_unordered :
    (discarded : Bool) (us : List ImageUse) (image : Image)
    → All IsAccess us
    → let written = storage_use image ∷ us in
      (b : ImageBarrier2) × (use_barrier (tracked (started discarded) written) (sampled_use image)
        ≡ some b)
      × (b.dst_stage ≡ compute_stage)
      × (use_barrier (tracked (started discarded) (sampled_use image ∷ written)) (copy_source image)
          ≡ none)
unfolding storage_use sampled_use copy_source
copy_after_sample_unordered discarded us image h =
    let written = storage_use image ∷ us in
    (
      _,
      use_waits_for_outstanding discarded written (sampled_use image) (refl, h),
      refl,
      use_waits_for_outstanding discarded (sampled_use image ∷ written) (copy_source image)
          (refl, (refl, h)),
    )
