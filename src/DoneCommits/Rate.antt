-- ===== src/DoneCommits/Rate.antt =====
-- When a window gets a vertical blank: steamcompmgr_should_vblank_window of src/steamcompmgr.cpp.
use native.Mathlib.Decide.{dec_lt}
use gamescope.Common.{
  Bool, Option, add_u64, ap, arith, false, if-false, if-true, if◌then◌else◌, inl, inr, ltb, min,
  none, not, quotient_bounds, refl, remainder_step, some, sym, true, ℕ, ◌%◌, ◌&&◌, ◌*◌, ◌+◌, ◌-◌,
  ◌/◌, ◌<◌, ◌==◌, ◌↔◌, ◌∙◌, ◌≡◌, ◌≤◌,
}
use gamescope.DoneCommits.{DoneInputs}
use gamescope.Framegen.Policy.{below}
use gamescope.Vblank.Refresh.{convert_mhz_to_hz}

unfoldable pub refresh_hz : DoneInputs → ℕ
refresh_hz i =
    convert_mhz_to_hz (if i.nested_refresh == 0 then i.output_refresh else i.nested_refresh)

pub vrr_schedule_fudge : ℕ
vrr_schedule_fudge = 200_000

-- `abs( target - refresh ) < 2`
pub close_enough : DoneInputs → Bool
close_enough i = ltb ((i.target_fps - refresh_hz i) + (refresh_hz i - i.target_fps)) 2

unfoldable pub is_vrr : DoneInputs → Bool
is_vrr i = elim i.is_vrr_active [ none ↦ false | some active ↦ active ]

pub earlier_schedule : Option ℕ → ℕ → Option ℕ
earlier_schedule none schedule = some schedule
earlier_schedule (some lowest) schedule = some (min lowest schedule)

-- With VRR, for a window with a limited rate, that was latched first at a time.
pub vrr_callback : DoneInputs → ℕ → ℕ → Option ℕ → Bool × Option ℕ
vrr_callback i latched now lowest =
    let schedule = add_u64 latched i.limited_app_refresh_cycle in
    if ltb (add_u64 now vrr_schedule_fudge) schedule
    then (false, earlier_schedule lowest schedule)
    else (true, lowest)

-- Whether to send the callback, and s_oLowestFPSLimitScheduleVRR. The window is given by its first latch
-- time.
unfoldable pub should_vblank_window :
    DoneInputs → Bool → ℕ → Option ℕ → ℕ → Option ℕ → Bool × Option ℕ
should_vblank_window i should_limit vblank_idx window now lowest =
    let limited = not (i.target_fps == 0) && should_limit in
    if is_vrr i
    then elim window [
      | none ↦ (true, lowest)
      | some latched ↦
          if limited && not (close_enough i)
          then vrr_callback i latched now lowest
          else (true, lowest)
    ]
    else if limited && ltb i.target_fps (refresh_hz i)
    then (vblank_idx % (refresh_hz i / i.target_fps) == 0, lowest)
    else (true, lowest)

-- The first step from an index to a multiple of the divisor.
abbrev steps_left : ℕ → ℕ → ℕ
steps_left idx divisor = if idx % divisor == 0 then 0 else divisor - idx % divisor

multiple_iff : (idx d j : ℕ) → 1 ≤ d → j < d → ((idx + j) % d == 0) ≡ true ↔ (j ≡ steps_left idx d)
multiple_iff idx d j positive h = elim (remainder_step idx d j positive h) [
  | inl (below, e) ↦ rw e (ground arith)
  | inr (above, e) ↦ rw e (ground arith)
]

whole_multiples :
    (r t : ℕ) → 1 ≤ t → t < r → (1 ≤ r / t) × (t * (r / t) ≤ r) × (r < 2 * (t * (r / t)))
whole_multiples r t positive above =
    let (low, high) = quotient_bounds r t positive in
    let swap : t * (r / t) ≡ r / t * t = grind arith in
    elim (dec_lt 0 (r / t)) [
      | yes some_steps ↦
          let once : t ≤ r / t * t = grind arith in (omega arith, omega arith, omega arith)
      | no no_step ↦ let nothing : r / t * t ≡ 0 = grind arith in absurd (omega arith)
    ]

-- With a fixed refresh above a target rate, and a limit: of as many vertical blanks as the refresh is in
-- whole multiples of the target, exactly one gets the callback, whatever the index starts at; and so the
-- rate is at least the target and below twice it.
pub limited_rate :
    (i : DoneInputs) (idx now : ℕ) (window lowest : Option ℕ)
    → is_vrr i ≡ false
    → 1 ≤ i.target_fps
    → i.target_fps < refresh_hz i
    → let divisor = refresh_hz i / i.target_fps in
      (k : ℕ) × (k < divisor)
      × (should_vblank_window i true (idx + k) window now lowest ≡ (true, lowest))
      × ((j : ℕ)
          → j < divisor
          → (should_vblank_window i true (idx + j) window now lowest).0 ≡ true
          → j ≡ k)
      × (i.target_fps * divisor ≤ refresh_hz i)
      × (refresh_hz i < 2 * (i.target_fps * divisor))
unfolding should_vblank_window
limited_rate i idx now window lowest fixed target above =
    let divisor = refresh_hz i / i.target_fps in
    let (some_steps, low, high) = whole_multiples (refresh_hz i) i.target_fps target above in
    let k = steps_left idx divisor in
    let short : k < divisor = ground arith in
    let limited : ((not (i.target_fps == 0) && true) && ltb i.target_fps (refresh_hz i)) ≡ true =
      ground arith in
    let answer : (j : ℕ)
        → should_vblank_window i true (idx + j) window now lowest
          ≡ ((idx + j) % divisor == 0, lowest) =
      λ j. if-false _ _ fixed ∙ if-true _ _ limited in
    (
      k,
      short,
      answer k ∙ ap (λ b. (b, lowest)) ((multiple_iff idx divisor k some_steps short).1 refl),
      λ j h sent.
          (multiple_iff idx divisor j some_steps h).0 (sym (ap (λ p. p.0) (answer j)) ∙ sent),
      low,
      high,
    )
