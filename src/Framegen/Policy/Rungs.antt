-- ===== src/Framegen/Policy/Rungs.antt =====
-- effective_config of src/framegen/policy.hpp against single steps down the ladder of rungs.
use gamescope.Common.{
  Bool-cases, ap, arith, if◌then◌else◌, inl, inr, ltb, max, refl, suc, sym, true, zero, ℕ, ◌&&◌,
  ◌+◌, ◌-◌, ◌<◌, ◌∙◌, ◌≡◌, ◌≤◌,
}
use gamescope.Common.Int.{max_ℤ, negsuc, of_i64, pos, pos_part, ℤ, ◌-ℤ◌}
use gamescope.Framegen.Policy.{
  EffectiveConfig, GamescopeFramegenMode, GamescopeFramegenPipeline, below, blend, effective_config,
  extrapolate, int_minus_two, is_motion, max_degrade_steps, motion, rank, shed_motion,
  shed_multiplier, shed_passes, warp,
}

-- One rung down: a pipeline pass, then motion, then the multiplier; the bottom rung stays.
step_down : EffectiveConfig → EffectiveConfig
step_down c =
    if is_motion c.mode && ltb 0 (rank c.pipeline)
    then record c { pipeline = below c.pipeline }
    else if is_motion c.mode
    then record c { mode = extrapolate }
    else if ltb 2 c.multiplier
    then record c { multiplier = c.multiplier - 1 }
    else c

descend : ℕ → EffectiveConfig → EffectiveConfig
descend zero c = c
descend (suc n) c = descend n (step_down c)

-- The three stages of `effective_config` after one another.
shed : EffectiveConfig → ℕ → EffectiveConfig
shed c n = let (config, k) = shed_motion (shed_passes c n) in shed_multiplier config k

abbrev config : GamescopeFramegenMode → GamescopeFramegenPipeline → ℕ → EffectiveConfig
config m p k = record { mode = m; multiplier = k; pipeline = p }

shed_fields :
    (m : GamescopeFramegenMode) (p : GamescopeFramegenPipeline) (k n : ℕ)
    → shed (config m p k) (suc n) ≡ shed (step_down (config m p k)) n
unfolding shed step_down shed_passes shed_motion shed_multiplier is_motion rank below
shed_fields motion warp k zero = refl
shed_fields motion warp k (suc n) = refl
shed_fields motion _ k n = refl
shed_fields extrapolate _ k zero = elim (Bool-cases (ltb 2 k)) [ inl h ↦ rw h | inr h ↦ rw h ]
shed_fields extrapolate _ k (suc n) = elim (Bool-cases (ltb 2 k)) [
  | inl h ↦ rw h
  | inr h ↦ rw (h, h)
]
shed_fields blend _ k zero = elim (Bool-cases (ltb 2 k)) [ inl h ↦ rw h | inr h ↦ rw h ]
shed_fields blend _ k (suc n) = elim (Bool-cases (ltb 2 k)) [ inl h ↦ rw h | inr h ↦ rw (h, h) ]

shed-suc : (c : EffectiveConfig) (n : ℕ) → shed c (suc n) ≡ shed (step_down c) n
shed-suc c n = shed_fields c.mode c.pipeline c.multiplier n

shed-descend : (n : ℕ) (c : EffectiveConfig) → shed c n ≡ descend n c
unfolding descend
shed-descend zero c = unfold shed shed_passes shed_motion shed_multiplier in refl
shed-descend (suc n) c = shed-suc c n ∙ shed-descend n (step_down c)

-- The configuration before any degradation.
abbrev full : GamescopeFramegenMode → GamescopeFramegenPipeline → ℤ → EffectiveConfig
full mode pipeline multiplier = config mode pipeline (of_i64 (max_ℤ (pos 2) multiplier))

-- `effective_config` takes one rung at a time.
effective_config-descend :
    (mode : GamescopeFramegenMode) (pipeline : GamescopeFramegenPipeline) (multiplier : ℤ) (n : ℕ)
    → effective_config mode pipeline multiplier n ≡ descend n (full mode pipeline multiplier)
unfolding effective_config
effective_config-descend mode pipeline multiplier n =
    unfold shed in shed-descend n (full mode pipeline multiplier)

-- The rungs that are left below a configuration.
abbrev pub rungs_left : EffectiveConfig → ℕ
rungs_left c = max_degrade_steps c.mode c.pipeline (pos c.multiplier)

rungs_fields :
    (m : GamescopeFramegenMode) (p : GamescopeFramegenPipeline) (k : ℕ)
    → k < 2147483648
    → rungs_left (step_down (config m p k)) ≡ rungs_left (config m p k) - 1
unfolding step_down max_degrade_steps int_minus_two is_motion rank below max_ℤ ◌-ℤ◌ of_i64
rungs_fields motion warp k h = ground arith
rungs_fields motion _ k h = ground arith
rungs_fields extrapolate _ k h = ground arith
rungs_fields blend _ k h = ground arith

step_down_multiplier :
    (c : EffectiveConfig)
    → ((step_down c).multiplier ≤ c.multiplier) × (2 ≤ c.multiplier → 2 ≤ (step_down c).multiplier)
unfolding step_down
step_down_multiplier c = ground arith

descend_multiplier :
    (n : ℕ) (c : EffectiveConfig)
    → ((descend n c).multiplier ≤ c.multiplier) × (2 ≤ c.multiplier → 2 ≤ (descend n c).multiplier)
unfolding descend
descend_multiplier zero c = omega arith
descend_multiplier (suc n) c =
    grind (arith, descend_multiplier n (step_down c), step_down_multiplier c)

rungs_left-descend :
    (n : ℕ) (c : EffectiveConfig)
    → c.multiplier < 2147483648
    → rungs_left (descend n c) ≡ rungs_left c - n
unfolding descend
rungs_left-descend zero c h = omega arith
rungs_left-descend (suc n) c h = omega (
  arith,
  rungs_left-descend n (step_down c) (omega (arith, step_down_multiplier c)),
  rungs_fields c.mode c.pipeline c.multiplier h,
)

-- An int from which 2 can be subtracted.
abbrev pub IsInRange : ℤ → Type 0
IsInRange (pos n) = n < 2147483648
IsInRange (negsuc n) = n < 2147483646

in_range_bound : (multiplier : ℤ) → IsInRange multiplier → pos_part multiplier < 2147483648
in_range_bound (pos n) h = h
in_range_bound (negsuc n) h = omega arith

full_lem :
    (mode : GamescopeFramegenMode) (pipeline : GamescopeFramegenPipeline) (multiplier : ℤ)
    → IsInRange multiplier
    → (rungs_left (full mode pipeline multiplier) ≡ max_degrade_steps mode pipeline multiplier)
      × (2 ≤ (full mode pipeline multiplier).multiplier)
      × ((full mode pipeline multiplier).multiplier ≡ max 2 (pos_part multiplier))
unfolding max_degrade_steps int_minus_two max_ℤ ◌-ℤ◌ of_i64
full_lem mode pipeline (pos n) h = ground arith
full_lem mode pipeline (negsuc n) h =
    let enough : ltb n 2147483646 ≡ true = ground arith in rw enough (ground arith)

descend_add : (n k : ℕ) (c : EffectiveConfig) → descend k (descend n c) ≡ descend (n + k) c
unfolding descend
descend_add zero k c = ap (λ j. descend j c) {x = k} {y = 0 + k} (omega arith)
descend_add (suc n) k c = descend_add n k (step_down c) ∙ ap (λ j. descend j c) (suc_add n k)
  where
    suc_add : (n k : ℕ) → suc (n + k) ≡ suc n + k
    suc_add n k = omega arith

full_again :
    (c : EffectiveConfig) → 2 ≤ c.multiplier → full c.mode c.pipeline (pos c.multiplier) ≡ c
full_again c h = ap (λ k. config c.mode c.pipeline k) (unfold max_ℤ of_i64 in ground arith)

-- For a multiplier that is an int above the two smallest ones, n degradation steps take n of the `max_degrade_steps` rungs, or all of
-- them, and the multiplier stays between 2 and the configured one (or 2).
pub effective_config_rungs :
    (mode : GamescopeFramegenMode) (pipeline : GamescopeFramegenPipeline) (multiplier : ℤ) (n : ℕ)
    → IsInRange multiplier
    → let c = effective_config mode pipeline multiplier n in
      (rungs_left c ≡ max_degrade_steps mode pipeline multiplier - n)
      × (2 ≤ c.multiplier)
      × (c.multiplier ≤ max 2 (pos_part multiplier))
effective_config_rungs mode pipeline multiplier n h =
    rw (effective_config-descend mode pipeline multiplier n) (
      omega (arith, f, in_range_bound multiplier h, rungs_left-descend n start),
      d.1 f.1,
      omega (arith, d.0, f),
    )
  where
    start : EffectiveConfig
    start = full mode pipeline multiplier

    f :
        (rungs_left start ≡ max_degrade_steps mode pipeline multiplier)
        × (2 ≤ start.multiplier)
        × (start.multiplier ≡ max 2 (pos_part multiplier))
    f = full_lem mode pipeline multiplier h

    d :
        ((descend n start).multiplier ≤ start.multiplier)
        × (2 ≤ start.multiplier → 2 ≤ (descend n start).multiplier)
    d = descend_multiplier n start

-- For such a multiplier, resolving n steps and degrading the result by k more is resolving
-- n + k steps at once.
effective_config_compose :
    (mode : GamescopeFramegenMode) (pipeline : GamescopeFramegenPipeline) (multiplier : ℤ) (n k : ℕ)
    → IsInRange multiplier
    → let c = effective_config mode pipeline multiplier n in
      effective_config c.mode c.pipeline (pos c.multiplier) k
      ≡ effective_config mode pipeline multiplier (n + k)
effective_config_compose mode pipeline multiplier n k h =
    effective_config-descend c.mode c.pipeline (pos c.multiplier) k
    ∙ ap (descend k) (full_again c (effective_config_rungs mode pipeline multiplier n h).1)
    ∙ ap (descend k) (effective_config-descend mode pipeline multiplier n)
    ∙ descend_add n k (full mode pipeline multiplier)
    ∙ sym (effective_config-descend mode pipeline multiplier (n + k))
  where
    c : EffectiveConfig
    c = effective_config mode pipeline multiplier n
