-- ===== src/Framegen/Anchor/Feedback.antt =====
-- What flip feedback does to the anchor and to the bias (src/framegen/deadline.hpp).
use gamescope.Common.{
  Bool, List, [], arith, false, if◌then◌else◌, ltb, not, suc, true, ℕ, ◌+◌, ◌==◌, ◌||◌, ◌↔◌, ◌∷◌,
  ◌≡◌, ◌≤◌, ◌⊎◌,
}
use gamescope.Common.Int.{IsI64, neg_part, pos_part}
use gamescope.Framegen.Anchor.{
  PresentBiasState, PresentBiasUpdate, RealAnchorState, apply_flip_feedback, discards_sample,
  display_time, present_bias_outlier_bound_ns, untrained_bias, update_present_bias,
}
use gamescope.Framegen.Timestamp.{signed_ns_delta, signed_ns_magnitude}
use gamescope.Framegen.Timestamp.Saturation.{magnitude-parts}

-- One flip feedback, as `update_present_bias` gets it.
pub record Flip : Type 0 where
  pub target_ns : ℕ
  pub actual_ns : ℕ
  pub guard_ns : ℕ
  pub vblank_ns : ℕ
  pub hitch : Bool

abbrev pub learn : PresentBiasState → Flip → PresentBiasUpdate
learn s f = update_present_bias s f.target_ns f.actual_ns f.guard_ns f.vblank_ns f.hitch

-- The bias after a history of feedbacks, newest first.
pub learned : List Flip → PresentBiasState
learned [] = untrained_bias
learned (f ∷ h) = (learn (learned h) f).state

-- A feedback with both timestamps, and one whose error leaves the guard.
abbrev is_timed : Flip → Bool
is_timed f = not (f.target_ns == 0 || f.actual_ns == 0)

abbrev is_outside : Flip → Bool
is_outside f = ltb f.guard_ns (signed_ns_magnitude (signed_ns_delta f.actual_ns f.target_ns))

-- The newest timed feedbacks that left the guard, one after the other.
abbrev pub outside_run : List Flip → ℕ
outside_run [] = 0
outside_run (f ∷ h) =
    if is_timed f then (if is_outside f then suc (outside_run h) else 0) else outside_run h

exceeds-le : (h : List Flip) → (learned h).consecutive_guard_exceeds ≤ outside_run h
unfolding learned update_present_bias
exceeds-le [] = omega arith
exceeds-le (f ∷ h) = ground (arith, exceeds-le h)

-- After any history of feedbacks, one discards provisional pixels only if it and the timed one before
-- it were outside the guard, and the bias has four samples or more.
discard_needs_two :
    (h : List Flip) (f : Flip)
    → (learn (learned h) f).discard_provisional ≡ true
    → (2 ≤ outside_run (f ∷ h)) × (4 ≤ (learned h).samples)
unfolding update_present_bias
discard_needs_two h f e = ground (arith, exceeds-le h)

-- With four samples or more and a bias in int64_t, a feedback that is a hitch, or is off by the size
-- of the bias and a (positive) vblank or more, changes neither the bias nor its samples.
outlier_ignored :
    (s : PresentBiasState) (f : Flip)
    → 4 ≤ s.samples
    → 1 ≤ f.vblank_ns
    → IsI64 s.ema_ns
    → (f.hitch ≡ true)
      ⊎ (pos_part s.ema_ns + neg_part s.ema_ns + f.vblank_ns
          ≤ signed_ns_magnitude (signed_ns_delta f.actual_ns f.target_ns))
    → ((learn s f).state.ema_ns ≡ s.ema_ns) × ((learn s f).state.samples ≡ s.samples)
unfolding update_present_bias discards_sample present_bias_outlier_bound_ns
outlier_ignored s f m v i h = ground (arith, magnitude-parts s.ema_ns)

-- Feedback (with a positive time) matches exactly if its positive id is the anchor's; then it sets the
-- display time, and a second one for that id sets it again, but neither trains the bias nor discards
-- pixels.
feedback_once :
    (a : RealAnchorState) (s : PresentBiasState) (id first second guard vblank : ℕ) (hitch : Bool)
    → 1 ≤ first
    → 1 ≤ second
    → let c = apply_flip_feedback a s id first guard vblank hitch in
      let d = apply_flip_feedback c.anchor c.present_bias id second guard vblank hitch in
      (d.present_bias ≡ c.present_bias)
      × ((c.matched ≡ false) ⊎ ((display_time c.anchor ≡ first) × (display_time d.anchor ≡ second)))
      × (d.discard_provisional ≡ false)
      × ((c.matched ≡ true) ↔ ((1 ≤ id) × (id ≡ a.real_frame_id)))
unfolding apply_flip_feedback display_time
feedback_once a s id first second guard vblank hitch h1 h2 = ground arith
