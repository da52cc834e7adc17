-- ===== src/Framegen/Gap/Slots.antt =====
-- The gap arithmetic of src/framegen/scheduling.hpp against its meaning, and the cadence score over
-- a history.
use gamescope.Common.{
  Bool, List, [], arith, false, if◌then◌else◌, max, min, refl, suc, true, ℕ, ◌%◌, ◌*◌, ◌++◌, ◌+◌,
  ◌-◌, ◌/◌, ◌<◌, ◌∷◌, ◌≡◌, ◌≤◌, ◌⊎◌,
}
use gamescope.Framegen.Gap.{
  cadence_confidence_required, generated_slots_for_gap, ladder_generated_count,
  measured_gap_vblanks, reactive_generation_ready, update_cadence_confidence,
}

-- The submitter's count of frames for a gap is the ladder's cost key for the gap minus one, with no
-- hold. It is at most the gap minus one and at most the multiplier minus one (or one), is positive
-- for a gap of two or more, and is at most one with no dedicated queue.
generated_slots-ladder :
    (gap multiplier : ℕ) (dedicated : Bool)
    → let n = generated_slots_for_gap gap multiplier dedicated in
      (n ≡ ladder_generated_count (gap - 1) multiplier false dedicated)
      × (n ≤ gap - 1)
      × (n ≤ max 1 (multiplier - 1))
      × (min 1 (gap - 1) ≤ n)
      × (n ≤ (if dedicated then gap - 1 else 1))
unfolding generated_slots_for_gap ladder_generated_count
generated_slots-ladder gap multiplier dedicated = ground arith

div_bounds : (a b : ℕ) → 1 ≤ b → (a / b * b ≤ a) × (a < a / b * b + b)
div_bounds a b h = omega arith

at_least_one :
    (interval vblank : ℕ)
    → 1 ≤ vblank
    → let gap = max 1 ((interval + vblank / 2) / vblank) in
      (interval < gap * vblank + (vblank - vblank / 2))
      × ((gap ≡ 1) ⊎ (gap * vblank ≤ interval + vblank / 2))
at_least_one interval vblank h = grind (arith, div_bounds (interval + vblank / 2) vblank h)

-- For a positive vblank and an interval that the C types hold, the gap is the interval rounded to
-- the nearest number of vblanks, and one if that is less.
measured_gap_nearest :
    (interval vblank : ℕ)
    → 1 ≤ vblank
    → interval + vblank / 2 < 18446744073709551616
    → (interval + vblank / 2) / vblank < 4294967296
    → let gap = measured_gap_vblanks interval vblank in
      (interval < gap * vblank + (vblank - vblank / 2))
      × ((gap ≡ 1) ⊎ (gap * vblank ≤ interval + vblank / 2))
unfolding measured_gap_vblanks
measured_gap_nearest interval vblank h1 h2 h3 =
    let sum = interval + vblank / 2 in
    let q = sum / vblank in
    let whole : sum % 18446744073709551616 ≡ sum = omega arith in
    let short : q % 4294967296 ≡ q = omega arith in
    rw (whole, short) (at_least_one interval vblank h1)

-- The score after a history of decisions.
pub score : ℕ → List Bool → ℕ
score c [] = c
score c (b ∷ bs) = score (update_cadence_confidence c b) bs

abbrev pub generatable_count : List Bool → ℕ
generatable_count [] = 0
generatable_count (true ∷ bs) = suc (generatable_count bs)
generatable_count (false ∷ bs) = generatable_count bs

update-le :
    (c : ℕ) (b : Bool)
    → c ≤ cadence_confidence_required
    → (update_cadence_confidence c b ≤ cadence_confidence_required)
      × (update_cadence_confidence c b ≤ c + (if b then 2 else 0))
unfolding update_cadence_confidence
update-le c b h = ground arith

score-le :
    (c : ℕ) (bs : List Bool)
    → c ≤ cadence_confidence_required
    → (score c bs ≤ cadence_confidence_required) × (score c bs ≤ c + 2 * generatable_count bs)
unfolding score
score-le c [] h = omega arith
score-le c (true ∷ bs) h =
    omega (arith, update-le c true h, score-le (update_cadence_confidence c true) bs)
score-le c (false ∷ bs) h =
    omega (arith, update-le c false h, score-le (update_cadence_confidence c false) bs)

score-append : (c : ℕ) (xs ys : List Bool) → score c (xs ++ ys) ≡ score (score c xs) ys
unfolding score
score-append c [] ys = refl
score-append c (x ∷ xs) ys = score-append (update_cadence_confidence c x) xs ys

arms :
    (c : ℕ)
    → c ≤ cadence_confidence_required
    → (score c (true ∷ true ∷ []) ≡ 4) × (c ≡ 4 → score c (false ∷ true ∷ []) ≡ 4)
unfolding score update_cadence_confidence
arms c h = ground arith

-- After any history of decisions: two generatable ones in a row arm the path, an armed path is armed
-- again after a miss and a generatable one, and the path is not ready unless the history has two
-- generatable ones.
confidence_history :
    (bs : List Bool)
    → (score 0 (bs ++ (true ∷ true ∷ [])) ≡ 4)
      × ((score 0 bs < 4) ⊎ (score 0 (bs ++ (false ∷ true ∷ [])) ≡ 4))
      × ((reactive_generation_ready true (score 0 bs) ≡ false) ⊎ (2 ≤ generatable_count bs))
unfolding reactive_generation_ready
confidence_history bs =
    let (low, counted) = score-le 0 bs (omega arith) in
    rw (score-append 0 bs (true ∷ true ∷ []), score-append 0 bs (false ∷ true ∷ []))
      ((arms (score 0 bs) low).0, ground (arith, arms (score 0 bs) low), ground arith)
