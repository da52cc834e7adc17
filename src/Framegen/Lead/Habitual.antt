-- ===== src/Framegen/Lead/Habitual.antt =====
-- The habitual present lead (src/framegen/deadline.hpp) over histories of latches.
use gamescope.Common.{All, List, [], arith, refl, ℕ, ◌-◌, ◌<◌, ◌∷◌, ◌≡◌, ◌≤◌}
use gamescope.Common.Int.{div_ℤ, i64_max, neg_part, pos_part, ◌+ℤ◌, ◌-ℤ◌}
use gamescope.Framegen.Chain.{PresentLeadState, untrained_lead}
use gamescope.Framegen.Lead.{update_present_lead}
use gamescope.Framegen.Timestamp.{update_present_timing_ema_residual}
use gamescope.Framegen.Timestamp.Saturation.{delta-parts}

-- Pairs of a commit and its flip, and the learner after them, newest first.
abbrev pub Latch : Type 0
Latch = ℕ × ℕ

pub learned_lead : List Latch → PresentLeadState
learned_lead [] = untrained_lead
learned_lead ((submit, flip) ∷ h) = update_present_lead (learned_lead h) submit flip

-- A proper latch: a commit that is known, and a flip after it by a lead in the range.
abbrev LeadIn : ℕ → ℕ → Latch → Type 0
LeadIn lo hi l = (1 ≤ l.0) × (l.0 < l.1) × (lo ≤ l.1 - l.0) × (l.1 - l.0 ≤ hi)

-- The average is in the range, and is no longer the initial one.
abbrev AverageIn : ℕ → ℕ → PresentLeadState → Type 0
AverageIn lo hi s =
    (neg_part s.ema_ns ≡ 0) × (lo ≤ pos_part s.ema_ns) × (pos_part s.ema_ns ≤ hi) × (1 ≤ s.samples)

first_lead :
    (lo hi : ℕ) (s : PresentLeadState) (l : Latch)
    → hi ≤ i64_max
    → s ≡ untrained_lead
    → LeadIn lo hi l
    → AverageIn lo hi (update_present_lead s l.0 l.1)
unfolding update_present_lead update_present_timing_ema_residual ◌-ℤ◌
first_lead lo hi s l h e i = ground (arith, delta-parts l.1 l.0)

next_lead :
    (lo hi : ℕ) (s : PresentLeadState) (l : Latch)
    → hi ≤ i64_max
    → AverageIn lo hi s
    → LeadIn lo hi l
    → AverageIn lo hi (update_present_lead s l.0 l.1)
unfolding update_present_lead update_present_timing_ema_residual ◌-ℤ◌ ◌+ℤ◌ div_ℤ
next_lead lo hi s l h v i = ground (arith, delta-parts l.1 l.0)

-- After at least one latch, all of them proper with leads from lo to hi and hi in int64_t, the average
-- is from lo to hi and has a sample.
habitual_between :
    (lo hi : ℕ) (l : Latch) (h : List Latch)
    → hi ≤ i64_max
    → All (LeadIn lo hi) (l ∷ h)
    → AverageIn lo hi (learned_lead (l ∷ h))
unfolding learned_lead
habitual_between lo hi l [] b v = first_lead lo hi untrained_lead l b refl v.0
habitual_between lo hi l (k ∷ h) b v =
    next_lead lo hi (learned_lead (k ∷ h)) l b (habitual_between lo hi k h b v.1) v.0
