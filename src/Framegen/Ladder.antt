-- ===== src/Framegen/Ladder.antt =====
-- The deadline ladder of src/framegen/scheduling.hpp: degradation, its hysteresis on missed
-- presents, and the slow recovery. Counters are uint32_t, costs and budgets uint64_t; operations
-- that the code leaves unguarded wrap. A span of rung costs is a list.
pub mod Budget
pub mod Miss
pub mod Recovery
pub mod Backoff
pub mod Target
mod Examples
use gamescope.Common.{
  Bool, List, Option, [], add_u32, add_u64, false, get_or, if◌then◌else◌, leb, length, ltb, max,
  min, mul_u32, mul_u64, none, not, some, suc, to_u32, true, u32_max, u64_max, zero, ℕ, ◌%◌, ◌&&◌,
  ◌+◌, ◌-◌, ◌/◌, ◌==◌, ◌^◌, ◌||◌, ◌∷◌,
}
use gamescope.Framegen.Policy.{EffectiveConfig, rank, same_mode}

abbrev pub deadline_percent : ℕ
deadline_percent = 85

abbrev deadline_min_samples : ℕ
deadline_min_samples = 3

abbrev deadline_hold_frames : ℕ
deadline_hold_frames = 4

abbrev deadline_miss_window_decisions : ℕ
deadline_miss_window_decisions = 16

abbrev recovery_headroom_decisions : ℕ
recovery_headroom_decisions = 90

abbrev pub recovery_base_backoff_decisions : ℕ
recovery_base_backoff_decisions = 90

abbrev pub recovery_probation_decisions : ℕ
recovery_probation_decisions = 225

abbrev pub recovery_max_backoff_decisions : ℕ
recovery_max_backoff_decisions = 2700

abbrev recovery_known_headroom_percent : ℕ
recovery_known_headroom_percent = 70

abbrev recovery_cold_headroom_percent : ℕ
recovery_cold_headroom_percent = 50

pub record DeadlineLadderState : Type 0 where
  pub degrade_steps : ℕ
  pub hold_frames : ℕ

pub record DeadlineLadderEvaluation : Type 0 where
  pub state : DeadlineLadderState
  pub try_degrade : Bool

pub record RecoveryState : Type 0 where
  pub streak : ℕ
  pub backoff_decisions : ℕ
  pub probation_remaining : ℕ
  pub decisions_since_climb : ℕ
  pub blocked_threshold_reported : Bool

-- Default construction: the reset of a scene.
abbrev pub scene_reset : RecoveryState
scene_reset = record {
  streak = 0;
  backoff_decisions = recovery_base_backoff_decisions;
  probation_remaining = 0;
  decisions_since_climb = 0;
  blocked_threshold_reported = false;
}

pub record LadderRecoveryEvaluation : Type 0 where
  pub state : RecoveryState
  pub try_recover : Bool
  pub report_blocked_threshold : Bool

pub record LadderRungCost : Type 0 where
  pub cost_ns : ℕ
  pub samples : ℕ

pub record LadderRecoveryTarget : Type 0 where
  pub rung : ℕ
  pub evidence : LadderRungCost

pub record DeadlineMissEvaluation : Type 0 where
  pub recent_misses : ℕ
  pub degrade : Bool
  pub skip : Bool

pub saturating_increment_decisions : ℕ → ℕ
saturating_increment_decisions decisions = if decisions == u32_max then decisions else decisions + 1

pub advance_ladder_recovery_decision : RecoveryState → Bool → RecoveryState
unfolding saturating_increment_decisions
advance_ladder_recovery_decision state admitted = record state {
  decisions_since_climb = saturating_increment_decisions state.decisions_since_climb;
  probation_remaining = state.probation_remaining - 1;
  backoff_decisions =
      if ltb 0 state.probation_remaining && (state.probation_remaining - 1 == 0 && admitted)
      then max recovery_base_backoff_decisions (state.backoff_decisions / 2)
      else state.backoff_decisions;
}

pub note_ladder_recovery_failure : RecoveryState → RecoveryState
unfolding advance_ladder_recovery_decision
note_ladder_recovery_failure state = record (advance_ladder_recovery_decision state false) {
  streak = 0;
}

pub reset_ladder_recovery_streak : RecoveryState → RecoveryState
reset_ladder_recovery_streak state = record state { streak = 0 }

pub note_ladder_recovery_degradation : RecoveryState → RecoveryState
note_ladder_recovery_degradation state = record {
  streak = 0;
  backoff_decisions =
      if ltb 0 state.probation_remaining
      then (if leb (recovery_max_backoff_decisions / 2) state.backoff_decisions
          then recovery_max_backoff_decisions
          else min recovery_max_backoff_decisions (mul_u32 state.backoff_decisions 2))
      else state.backoff_decisions;
  probation_remaining = 0;
  decisions_since_climb = 0;
  blocked_threshold_reported = false;
}

pub commit_ladder_recovery : RecoveryState → RecoveryState
commit_ladder_recovery state = record state {
  streak = 0;
  probation_remaining = recovery_probation_decisions;
  decisions_since_climb = 0;
  blocked_threshold_reported = false;
}

-- ( n / 100 ) * percent + ( ( n % 100 ) * percent ) / 100, as the code writes it three times.
unfoldable pub percent_of : ℕ → ℕ → ℕ
percent_of percent n = add_u64 (mul_u64 (n / 100) percent) (mul_u64 (n % 100) percent / 100)

pub deadline_budget_ns : ℕ → ℕ
unfolding percent_of
deadline_budget_ns available = percent_of deadline_percent available

pub fixed_refresh_slot_budget_ns : ℕ → ℕ → ℕ → ℕ
unfolding deadline_budget_ns
fixed_refresh_slot_budget_ns vblank lead margin =
    let reserved = if ltb (u64_max - margin) lead then u64_max else lead + margin in
    deadline_budget_ns (if ltb reserved vblank then vblank - reserved else 0)

pub deadline_shortfall_is_phase_only : ℕ → ℕ → ℕ → ℕ → Bool
deadline_shortfall_is_phase_only cost samples remaining slot =
    not (cost == 0) && (leb deadline_min_samples samples && (ltb remaining cost && leb cost slot))

-- The loop of `deadline_miss_count`, on fuel for the 32 bits of a uint32_t.
pub count_bits : ℕ → ℕ → ℕ → ℕ
count_bits zero misses count = count
count_bits (suc fuel) misses count =
    let rest = count_bits fuel (misses / 2) (add_u32 count (misses % 2)) in
    if misses == 0 then count else rest

pub deadline_miss_count : ℕ → ℕ
deadline_miss_count misses = count_bits 32 misses 0

-- `x << 1 | bit`, under the mask of the window's 16 bits.
pub shift_in : ℕ → Bool → ℕ
shift_in misses bit =
    (mul_u32 misses 2 + (if bit then 1 else 0)) % 2 ^ deadline_miss_window_decisions

pub evaluate_deadline_miss_hysteresis : ℕ → Bool → Bool → ℕ → ℕ → ℕ → DeadlineMissEvaluation
evaluate_deadline_miss_hysteresis recent missed hitch cost samples slot =
    let count_miss = missed && not hitch in
    let recent' = shift_in recent count_miss in
    let does_not_fit = not (cost == 0) && (leb deadline_min_samples samples && ltb slot cost) in
    let degrade = count_miss && (does_not_fit || leb 2 (deadline_miss_count recent')) in
    record { recent_misses = recent'; degrade = degrade; skip = missed && not degrade }

pub deadline_recovery_headroom : ℕ → ℕ → ℕ → ℕ → ℕ → Bool
unfolding percent_of
deadline_recovery_headroom cost samples richer_cost richer_samples budget =
    let richer_mature = not (richer_cost == 0) && leb deadline_min_samples richer_samples in
    if cost == 0 || (ltb samples deadline_min_samples || budget == 0)
    then false
    else if richer_mature
    then leb richer_cost budget && leb cost (percent_of recovery_known_headroom_percent budget)
    else leb cost (percent_of recovery_cold_headroom_percent budget)

pub is_mature : LadderRungCost → Bool
is_mature sample = not (sample.cost_ns == 0 || ltb sample.samples deadline_min_samples)

-- The first mature rung is kept as evidence.
pub note_evidence : LadderRungCost → Option LadderRungCost → Option LadderRungCost
note_evidence sample none = if is_mature sample then some sample else none
note_evidence sample (some e) = some e

-- The loop of `select_ladder_recovery_target`: the rungs before `end`, the next one first, and the
-- first mature evidence so far. The answer is the rung that fits, or the evidence.
pub scan_rungs :
    List LadderRungCost
    → ℕ
    → ℕ
    → ℕ
    → Option LadderRungCost
    → Option LadderRecoveryTarget × Option LadderRungCost
scan_rungs [] end rung budget found = (none, found)
scan_rungs (sample ∷ rungs) end rung budget found =
    let found' = note_evidence sample found in
    let rest = scan_rungs rungs end (rung + 1) budget found' in
    if leb end rung
    then (none, found)
    else if is_mature sample && leb sample.cost_ns budget
    then (some (record { rung = rung; evidence = sample }), found')
    else rest

abbrev pub no_evidence : LadderRungCost
no_evidence = record { cost_ns = 0; samples = 0 }

-- What is returned after the loop, if the loop itself returned nothing.
pub choose_target :
    List LadderRungCost
    → ℕ
    → Option LadderRecoveryTarget × Option LadderRungCost
    → LadderRecoveryTarget
choose_target rungs current (some target, found) = target
choose_target rungs current (none, some e) = record { rung = current; evidence = e }
choose_target rungs current (none, none) =
    if ltb 0 current
    then record { rung = current - 1; evidence = get_or rungs (current - 1) no_evidence }
    else record { rung = current; evidence = no_evidence }

pub select_ladder_recovery_target : List LadderRungCost → ℕ → ℕ → LadderRecoveryTarget
select_ladder_recovery_target rungs current budget =
    choose_target rungs current
      (scan_rungs rungs (min current (to_u32 (length rungs))) 0 budget none)

pub evaluate_ladder_recovery : RecoveryState → ℕ → ℕ → ℕ → ℕ → ℕ → ℕ → ℕ → LadderRecoveryEvaluation
unfolding advance_ladder_recovery_decision
evaluate_ladder_recovery before degrade_steps hold cost samples richer_cost richer_samples budget =
    let state = advance_ladder_recovery_decision before true in
    let streak = saturating_increment_decisions state.streak in
    let elapsed = leb state.backoff_decisions state.decisions_since_climb in
    let reached = leb recovery_headroom_decisions streak in
    let blocked = not (hold == 0) || (not (state.probation_remaining == 0) || not elapsed) in
    let report = reached && (blocked && not state.blocked_threshold_reported) in
    if degrade_steps == 0
      || not (deadline_recovery_headroom cost samples richer_cost richer_samples budget)
    then record {
      state = record state { streak = 0 };
      try_recover = false;
      report_blocked_threshold = false;
    }
    else record {
      state = record state {
        streak = streak;
        blocked_threshold_reported = state.blocked_threshold_reported || report;
      };
      try_recover = reached && not blocked;
      report_blocked_threshold = report;
    }

pub evaluate_deadline_ladder : DeadlineLadderState → ℕ → ℕ → ℕ → ℕ → DeadlineLadderEvaluation
evaluate_deadline_ladder before max_steps cost samples vblank =
    let held = ltb 0 before.hold_frames in
    let state = record before { hold_frames = before.hold_frames - 1 } in
    let deadline = mul_u64 vblank deadline_percent / 100 in
    if held
      || (max_steps == 0
          || (cost == 0 || (ltb samples deadline_min_samples || leb max_steps state.degrade_steps)))
    then record { state = state; try_degrade = false }
    else record { state = state; try_degrade = ltb deadline cost }

degradation_reduces_work : EffectiveConfig → EffectiveConfig → ℕ → ℕ → Bool
degradation_reduces_work current next count next_count =
    not (same_mode next.mode current.mode)
    || (not (rank next.pipeline == rank current.pipeline) || ltb next_count count)

commit_deadline_degradation : DeadlineLadderState → DeadlineLadderState
commit_deadline_degradation state = record {
  degrade_steps = add_u32 state.degrade_steps 1;
  hold_frames = deadline_hold_frames;
}

-- The two submission shapes that deadline pacing measures.
data DeadlineWorkClass : Type 0 where
  full_preparation_and_warp cached_warp : DeadlineWorkClass

deadline_work_class_cost_key : DeadlineWorkClass → ℕ
deadline_work_class_cost_key full_preparation_and_warp = 1
deadline_work_class_cost_key cached_warp = 2
