-- ===== src/Framegen/Bidir/Epoch.antt =====
-- The source/display translation of the bidirectional timeline and its cut episodes
-- (src/framegen/deadline.hpp).
use gamescope.Common.{
  Bool, IsU64, List, [], arith, false, if◌then◌else◌, refl, suc, true, u64_max, ℕ, ◌+◌, ◌-◌, ◌∷◌,
  ◌≡◌, ◌≤◌,
}
use gamescope.Framegen.Bidir.{
  BidirEpoch, apply_bidir_endpoint_feedback, endpoint_display_time, observe_bidir_scene_cut,
}
use gamescope.Framegen.Cadence.{saturating_add_ns}

-- Applied feedback maps the endpoint's source time to its real flip and each later source time to the
-- flip plus the difference, where that is in uint64_t, and keeps the source epoch and its number.
feedback_translates :
    (e : BidirEpoch) (ready flip later : ℕ)
    → (apply_bidir_endpoint_feedback e ready flip).applied ≡ true
    → ready ≤ later
    → flip + (later - ready) ≤ u64_max
    → let c = apply_bidir_endpoint_feedback e ready flip in
      (endpoint_display_time c.epoch ready ≡ flip)
      × (endpoint_display_time c.epoch later ≡ flip + (later - ready))
      × (c.epoch.source_epoch_ns ≡ e.source_epoch_ns)
      × (c.epoch.epoch ≡ e.epoch)
unfolding apply_bidir_endpoint_feedback endpoint_display_time saturating_add_ns
feedback_translates e ready flip later a h1 h2 = ground arith

-- Endpoint times keep the order of their source times and stay in uint64_t.
endpoint_time_mono :
    (e : BidirEpoch) (a b : ℕ)
    → IsU64 e.display_epoch_ns
    → IsU64 b
    → a ≤ b
    → (endpoint_display_time e a ≤ endpoint_display_time e b)
      × (endpoint_display_time e b ≤ u64_max)
unfolding endpoint_display_time saturating_add_ns
endpoint_time_mono e a b hd hb h = ground arith

-- The cut episode over the measurements of a scene, newest first.
abbrev episode : List Bool → Bool
episode [] = false
episode (c ∷ cs) = (observe_bidir_scene_cut (episode cs) c).active

abbrev invalidations : List Bool → ℕ
invalidations [] = 0
invalidations (c ∷ cs) =
    (if (observe_bidir_scene_cut (episode cs) c).invalidate_epoch then 1 else 0) + invalidations cs

-- The rising edges of the measurements.
abbrev rising_edges : List Bool → ℕ
rising_edges [] = 0
rising_edges (false ∷ cs) = rising_edges cs
rising_edges (true ∷ []) = 1
rising_edges (true ∷ true ∷ cs) = rising_edges (true ∷ cs)
rising_edges (true ∷ false ∷ cs) = suc (rising_edges (false ∷ cs))

-- Over any measurements of a scene, the epoch is invalidated once for each rising edge of the cut.
invalidations-edges : (cs : List Bool) → invalidations cs ≡ rising_edges cs
unfolding observe_bidir_scene_cut
invalidations-edges [] = refl
invalidations-edges (false ∷ cs) = omega (arith, invalidations-edges cs)
invalidations-edges (true ∷ []) = refl
invalidations-edges (true ∷ true ∷ cs) = omega (arith, invalidations-edges (true ∷ cs))
invalidations-edges (true ∷ false ∷ cs) = omega (arith, invalidations-edges (false ∷ cs))
