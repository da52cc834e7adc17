-- ===== src/Framegen/Policy.antt =====
-- src/framegen/types.hpp and src/framegen/policy.hpp: modes, pipelines, and the rungs of the
-- degradation ladder below a startup configuration.
pub mod Rungs
mod Examples
use Prim.Native.String.{String}
use gamescope.Common.{
  Bool, add_u32, false, if◌then◌else◌, ltb, suc, true, zero, ℕ, ◌&&◌, ◌*◌, ◌+◌, ◌-◌,
}
use gamescope.Common.Int.{clamp_ℤ, max_ℤ, negsuc, of_i64, pos, ℤ, ◌-ℤ◌}
use gamescope.Pipewire.Safety.{start}

pub data GamescopeFramegenMode : Type 0 where
  extrapolate blend motion : GamescopeFramegenMode

pub data GamescopeFramegenPipeline : Type 0 where
  warp checked learned predict guided : GamescopeFramegenPipeline

mode_name : GamescopeFramegenMode → String
mode_name extrapolate = "extrapolate"
mode_name blend = "blend"
mode_name motion = "motion"

pipeline_name : GamescopeFramegenPipeline → String
pipeline_name warp = "warp"
pipeline_name checked = "checked"
pipeline_name learned = "learned"
pipeline_name predict = "predict"
pipeline_name guided = "guided"

pub record EffectiveConfig : Type 0 where
  pub mode : GamescopeFramegenMode
  pub multiplier : ℕ
  pub pipeline : GamescopeFramegenPipeline

output_ring_size_for_multiplier : ℤ → ℕ
output_ring_size_for_multiplier multiplier = 4 + 2 * of_i64 (clamp_ℤ multiplier (pos 2) (pos 4))

-- static_cast<uint32_t>( pipeline ), and the enumerator below.
pub rank : GamescopeFramegenPipeline → ℕ
rank warp = 0
rank checked = 1
rank learned = 2
rank predict = 3
rank guided = 4

pub below : GamescopeFramegenPipeline → GamescopeFramegenPipeline
below warp = warp
below checked = warp
below learned = checked
below predict = learned
below guided = predict

pub is_motion : GamescopeFramegenMode → Bool
is_motion motion = true
is_motion _ = false

-- Equality of enumerators.
pub same_mode : GamescopeFramegenMode → GamescopeFramegenMode → Bool
same_mode extrapolate extrapolate = true
same_mode blend blend = true
same_mode motion motion = true
same_mode _ _ = false

-- `multiplier - 2` in int. Below the smallest int it wraps, as compiled code does.
pub int_minus_two : ℤ → ℤ
int_minus_two (pos n) = pos n -ℤ pos 2
int_minus_two (negsuc n) = if ltb n 2147483646 then negsuc n -ℤ pos 2 else pos (4294967293 - n)

pub max_degrade_steps : GamescopeFramegenMode → GamescopeFramegenPipeline → ℤ → ℕ
max_degrade_steps mode pipeline multiplier =
    let motion_rungs = if is_motion mode then rank pipeline + 1 else 0 in
    let multiplier_rungs = of_i64 (max_ℤ (pos 0) (int_minus_two multiplier)) in
    add_u32 motion_rungs multiplier_rungs

-- The first loop of `effective_config`: one pipeline pass less on each round.
pub shed_passes : EffectiveConfig → ℕ → EffectiveConfig × ℕ
shed_passes config zero = (config, zero)
shed_passes config (suc n) =
    let rest = shed_passes (record config { pipeline = below config.pipeline }) n in
    if is_motion config.mode && ltb 0 (rank config.pipeline) then rest else (config, suc n)

-- The fallback to extrapolation.
pub shed_motion : EffectiveConfig × ℕ → EffectiveConfig × ℕ
shed_motion (config, zero) = (config, zero)
shed_motion (config, suc n) =
    if is_motion config.mode then (record config { mode = extrapolate }, n) else (config, suc n)

-- The second loop: the multiplier goes down to 2.
pub shed_multiplier : EffectiveConfig → ℕ → EffectiveConfig
shed_multiplier config zero = config
shed_multiplier config (suc n) =
    let rest = shed_multiplier (record config { multiplier = config.multiplier - 1 }) n in
    if ltb 2 config.multiplier then rest else config

pub effective_config : GamescopeFramegenMode → GamescopeFramegenPipeline → ℤ → ℕ → EffectiveConfig
effective_config mode pipeline multiplier steps =
    let start : EffectiveConfig = record {
      mode = mode;
      multiplier = of_i64 (max_ℤ (pos 2) multiplier);
      pipeline = pipeline;
    } in
    let (config, n) = shed_motion (shed_passes start steps) in shed_multiplier config n
