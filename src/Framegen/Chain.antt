-- ===== src/Framegen/Chain.antt =====
-- The display-chain learners' lifetime (src/framegen/deadline.hpp): their key, and the transition
-- that resets them. The generation is a uint64_t that skips 0.
use gamescope.Common.{
  Bool, IsU64, add_u64, arith, false, if◌then◌else◌, not, true, ℕ, ◌&&◌, ◌==◌, ◌||◌, ◌↔◌, ◌≡◌, ◌≢◌,
  ◌≤◌,
}
use gamescope.Common.Int.{pos, ℤ}
use gamescope.Framegen.Anchor.{PresentBiasState, untrained_bias}

abbrev pub present_lead_warmup_samples : ℕ
present_lead_warmup_samples = 4

pub record PresentLeadState : Type 0 where
  pub ema_ns : ℤ
  pub samples : ℕ

pub record MinimumViablePresentLeadState : Type 0 where
  pub low_water_ns : ℕ
  pub backoff_floor_ns : ℕ
  pub samples : ℕ

abbrev pub untrained_lead : PresentLeadState
untrained_lead = record { ema_ns = pos 0; samples = 0 }

abbrev pub untrained_minimum : MinimumViablePresentLeadState
untrained_minimum = record { low_water_ns = 0; backoff_floor_ns = 0; samples = 0 }

pub record DisplayChainKey : Type 0 where
  pub backend_id : ℕ
  pub connector_id : ℕ
  pub interval_ns : ℕ
  pub vrr_active : Bool
  pub source_timestamps_reliable : Bool

-- Equality of two bool members.
abbrev same_bool : Bool → Bool → Bool
same_bool true b = b
same_bool false b = not b

same_display_chain : DisplayChainKey → DisplayChainKey → Bool
same_display_chain a b =
    a.backend_id == b.backend_id
    && (a.connector_id == b.connector_id
        && (a.interval_ns == b.interval_ns
            && (same_bool a.vrr_active b.vrr_active
                && same_bool a.source_timestamps_reliable b.source_timestamps_reliable)))

pub record DisplayChainTimingState : Type 0 where
  pub present_bias : PresentBiasState
  pub present_lead : PresentLeadState
  pub minimum_viable : MinimumViablePresentLeadState
  pub key : DisplayChainKey
  pub generation : ℕ
  pub initialized : Bool

pub record DisplayChainTimingTransition : Type 0 where
  pub state : DisplayChainTimingState
  pub display_chain_changed : Bool

pub observe_display_chain : DisplayChainTimingState → DisplayChainKey → DisplayChainTimingTransition
observe_display_chain state key =
    let changed = state.initialized && not (same_display_chain state.key key) in
    let next = add_u64 state.generation 1 in
    record {
      state = record {
        present_bias = if changed then untrained_bias else state.present_bias;
        present_lead = if changed then untrained_lead else state.present_lead;
        minimum_viable = if changed then untrained_minimum else state.minimum_viable;
        key = key;
        generation =
            if not state.initialized || changed
            then (if next == 0 then 1 else next)
            else state.generation;
        initialized = true;
      };
      display_chain_changed = changed;
    }

-- Two keys are the same exactly if every member is.
same_chain_iff : (a b : DisplayChainKey) → (same_display_chain a b ≡ true) ↔ (a ≡ b)
unfolding same_display_chain
same_chain_iff a b = ground arith

-- In an initialized state, the stored key is no change and leaves the whole state as it is.
same_chain_keeps :
    (s : DisplayChainTimingState)
    → s.initialized ≡ true
    → let t = observe_display_chain s s.key in (t.state ≡ s) × (t.display_chain_changed ≡ false)
unfolding observe_display_chain
same_chain_keeps s i = ground (arith, same_chain_iff s.key s.key)

-- In an initialized state with a generation in uint64_t, a key that differs is reported as a change,
-- resets the three learners, is stored, and moves the generation to another value that is not 0.
new_chain_resets :
    (s : DisplayChainTimingState) (k : DisplayChainKey)
    → s.initialized ≡ true
    → IsU64 s.generation
    → k ≢ s.key
    → let t = observe_display_chain s k in
      (t.display_chain_changed ≡ true)
      × (t.state.present_bias ≡ untrained_bias)
      × (t.state.present_lead ≡ untrained_lead)
      × (t.state.minimum_viable ≡ untrained_minimum)
      × (t.state.key ≡ k)
      × (t.state.generation ≢ s.generation)
      × (1 ≤ t.state.generation)
unfolding observe_display_chain
new_chain_resets s k i g ne = ground (arith, same_chain_iff s.key k)
