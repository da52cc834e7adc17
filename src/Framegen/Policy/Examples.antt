-- ===== src/Framegen/Policy/Examples.antt =====
-- Runs down the rungs.
use gamescope.Common.{arith, max, ◌-◌, ◌≡◌, ◌≤◌}
use gamescope.Common.Int.{pos, pos_part}
use gamescope.Framegen.Policy.{effective_config, max_degrade_steps, motion, predict}
use gamescope.Framegen.Policy.Rungs.{effective_config_rungs, rungs_left}

effective_config_rungs_example :
    let c = effective_config motion predict (pos 4) 3 in
    (rungs_left c ≡ max_degrade_steps motion predict (pos 4) - 3)
    × (2 ≤ c.multiplier)
    × (c.multiplier ≤ max 2 (pos_part (pos 4)))
effective_config_rungs_example = effective_config_rungs motion predict (pos 4) 3 (omega arith)
