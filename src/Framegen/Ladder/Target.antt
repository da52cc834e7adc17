-- ===== src/Framegen/Ladder/Target.antt =====
-- The rung that a recovery climbs to (select_ladder_recovery_target, src/framegen/scheduling.hpp).
use gamescope.Common.{
  All, Bool-cases, List, Option, [], ap, arith, false, get_elem?, get_or, if◌then◌else◌, inl, inr,
  leb, length, ltb, min, none, refl, some, suc, sym, take, to_u32, true, zero, ℕ, ◌&&◌, ◌+◌, ◌-◌,
  ◌<◌, ◌∙◌, ◌∷◌, ◌≡◌, ◌≤◌, ◌⊎◌,
}
use gamescope.Framegen.Ladder.{
  LadderRecoveryTarget, LadderRungCost, choose_target, is_mature, no_evidence, note_evidence,
  scan_rungs, select_ladder_recovery_target,
}

-- The mature rungs of the first `n` all cost more than the budget.
abbrev Refuses : ℕ → List LadderRungCost → ℕ → Type 0
Refuses budget rungs n =
    (j : ℕ) (c : LadderRungCost)
    → j < n
    → get_elem? rungs j ≡ some c
    → is_mature c ≡ true
    → budget < c.cost_ns

-- The result of the scan is the first mature rung that fits.
abbrev Found : List LadderRungCost → ℕ → ℕ → ℕ → LadderRecoveryTarget → Type 0
Found rungs end i budget t =
    (k : ℕ) × (t.rung ≡ i + k)
    × (i + k < end)
    × (get_elem? rungs k ≡ some t.evidence)
    × (is_mature t.evidence ≡ true)
    × (t.evidence.cost_ns ≤ budget)
    × Refuses budget rungs k

Refuses-zero : (budget : ℕ) (rungs : List LadderRungCost) → Refuses budget rungs 0
Refuses-zero budget rungs j c lt e m = absurd (omega arith)

Refuses-cons :
    (budget n : ℕ) (x : LadderRungCost) (rungs : List LadderRungCost)
    → (is_mature x && leb x.cost_ns budget) ≡ false
    → Refuses budget rungs n
    → Refuses budget (x ∷ rungs) (suc n)
Refuses-cons budget n x rungs h r zero c lt e m = ground arith
Refuses-cons budget n x rungs h r (suc j) c lt e m = r j c (omega arith) e m

Found-cons :
    (x : LadderRungCost) (rungs : List LadderRungCost) (end i budget : ℕ) (t : LadderRecoveryTarget)
    → (is_mature x && leb x.cost_ns budget) ≡ false
    → Found rungs end (i + 1) budget t
    → Found (x ∷ rungs) end i budget t
Found-cons x rungs end i budget t h (k, e, lt, at, m, fits, r) =
    (suc k, omega arith, omega arith, at, m, fits, Refuses-cons budget k x rungs h r)

module _ (x : LadderRungCost) (rungs : List LadderRungCost) (end i budget : ℕ)
    (found : Option LadderRungCost) where
  scan_stop : leb end i ≡ true → scan_rungs (x ∷ rungs) end i budget found ≡ (none, found)
  unfolding scan_rungs
  scan_stop h = rw h

  scan_hit :
      leb end i ≡ false
      → (is_mature x && leb x.cost_ns budget) ≡ true
      → (scan_rungs (x ∷ rungs) end i budget found).0 ≡ some (record { rung = i; evidence = x })
  unfolding scan_rungs
  scan_hit h m = rw (h, m)

  scan_next :
      leb end i ≡ false
      → (is_mature x && leb x.cost_ns budget) ≡ false
      → scan_rungs (x ∷ rungs) end i budget found
        ≡ scan_rungs rungs end (i + 1) budget (note_evidence x found)
  unfolding scan_rungs
  scan_next h m = rw (h, m)

scan-Found :
    (rungs : List LadderRungCost) (end i budget : ℕ) (found : Option LadderRungCost)
    (t : LadderRecoveryTarget)
    → (scan_rungs rungs end i budget found).0 ≡ some t
    → Found rungs end i budget t
scan-Found [] end i budget found t h = unfold scan_rungs in cc
scan-Found (x ∷ rungs) end i budget found t h = elim (Bool-cases (leb end i)) [
  | inl stop ↦ absurd (cc (scan_stop x rungs end i budget found stop))
  | inr go ↦ elim (Bool-cases (is_mature x && leb x.cost_ns budget)) [
    | inl hit ↦
        let here = sym (scan_hit x rungs end i budget found go hit) ∙ h in
        (
          0,
          ground arith,
          ground arith,
          ground arith,
          ground arith,
          ground arith,
          Refuses-zero budget (x ∷ rungs),
        )
    | inr miss ↦ Found-cons x rungs end i budget t miss (
        scan-Found rungs end (i + 1) budget (note_evidence x found) t
          (rw (scan_next x rungs end i budget found go miss) at h))
  ]
]

scan_none :
    (rungs : List LadderRungCost) (end i budget : ℕ) (found : Option LadderRungCost)
    → (scan_rungs rungs end i budget found).0 ≡ none
    → Refuses budget rungs (end - i)
scan_none [] end i budget found h = λ j c lt e m. cc
scan_none (x ∷ rungs) end i budget found h = elim (Bool-cases (leb end i)) [
  | inl stop ↦ λ j c lt e m. absurd (ground arith)
  | inr go ↦ elim (Bool-cases (is_mature x && leb x.cost_ns budget)) [
    | inl hit ↦ absurd (cc (scan_hit x rungs end i budget found go hit))
    | inr miss ↦
        let rest =
          scan_none rungs end (i + 1) budget (note_evidence x found)
            (rw (scan_next x rungs end i budget found go miss) at h) in
        let n : end - i ≡ suc (end - (i + 1)) = ground arith in
        rw n (Refuses-cons budget (end - (i + 1)) x rungs miss rest)
  ]
]

-- Nothing noted means that no rung was mature.
note_evidence-none :
    (x : LadderRungCost) (found : Option LadderRungCost)
    → note_evidence x found ≡ none
    → (found ≡ none) × (is_mature x ≡ false)
unfolding note_evidence
note_evidence-none x none h = ground arith
note_evidence-none x (some e) h = cc

abbrev Immature : List LadderRungCost → ℕ → Type 0
Immature rungs n =
    (j : ℕ) (c : LadderRungCost) → j < n → get_elem? rungs j ≡ some c → is_mature c ≡ false

Immature-cons :
    (x : LadderRungCost) (rungs : List LadderRungCost) (n : ℕ)
    → is_mature x ≡ false
    → Immature rungs n
    → Immature (x ∷ rungs) (suc n)
Immature-cons x rungs n h r zero c lt e = ground arith
Immature-cons x rungs n h r (suc j) c lt e = r j c (omega arith) e

scan-Immature :
    (rungs : List LadderRungCost) (end i budget : ℕ) (found : Option LadderRungCost)
    → (scan_rungs rungs end i budget found).0 ≡ none
    → (scan_rungs rungs end i budget found).1 ≡ none
    → (found ≡ none) × Immature rungs (end - i)
scan-Immature [] end i budget found h g = (unfold scan_rungs in g, λ j c lt e. cc)
scan-Immature (x ∷ rungs) end i budget found h g = elim (Bool-cases (leb end i)) [
  | inl stop ↦ (cc (scan_stop x rungs end i budget found stop), λ j c lt e. absurd (ground arith))
  | inr go ↦ elim (Bool-cases (is_mature x && leb x.cost_ns budget)) [
    | inl hit ↦ absurd (cc (scan_hit x rungs end i budget found go hit))
    | inr miss ↦
        let next = scan_next x rungs end i budget found go miss in
        let (noted, rest) =
          scan-Immature rungs end (i + 1) budget (note_evidence x found) (rw next at h)
            (rw next at g) in
        let (clear, young) = note_evidence-none x found noted in
        let n : end - i ≡ suc (end - (i + 1)) = ground arith in
        (clear, rw n (Immature-cons x rungs (end - (i + 1)) young rest))
  ]
]

-- The first mature rung of a list.
abbrev pub first_mature : List LadderRungCost → Option LadderRungCost
first_mature [] = none
first_mature (c ∷ cs) = if is_mature c then some c else first_mature cs

abbrev or_first : Option LadderRungCost → Option LadderRungCost → Option LadderRungCost
or_first none later = later
or_first (some c) later = some c

noted_first :
    (x : LadderRungCost) (found later : Option LadderRungCost)
    → or_first (note_evidence x found) later
      ≡ or_first found (if is_mature x then some x else later)
unfolding note_evidence
noted_first x none later = elim (Bool-cases (is_mature x)) [
  | inl mature ↦ rw mature refl
  | inr young ↦ rw young refl
]
noted_first x (some e) later = refl

or_first-none : (found : Option LadderRungCost) → or_first found none ≡ found
or_first-none none = refl
or_first-none (some c) = refl

-- A scan that finds no rung that fits keeps the first mature one.
scan_evidence :
    (rungs : List LadderRungCost) (end i budget : ℕ) (found : Option LadderRungCost)
    → (scan_rungs rungs end i budget found).0 ≡ none
    → (scan_rungs rungs end i budget found).1 ≡ or_first found (first_mature (take (end - i) rungs))
scan_evidence [] end i budget found h =
    let nothing : first_mature (take (end - i) []) ≡ none = first_of_none (end - i) in
    unfold scan_rungs in rw nothing (sym (or_first-none found))
  where
    first_of_none : (n : ℕ) → first_mature (take n []) ≡ none
    first_of_none zero = refl
    first_of_none (suc n) = refl
scan_evidence (x ∷ rungs) end i budget found h = elim (Bool-cases (leb end i)) [
  | inl stop ↦
      let n : end - i ≡ 0 = ground arith in
      rw n (ap (λ p. p.1) (scan_stop x rungs end i budget found stop) ∙ sym (or_first-none found))
  | inr go ↦ elim (Bool-cases (is_mature x && leb x.cost_ns budget)) [
    | inl hit ↦ absurd (cc (scan_hit x rungs end i budget found go hit))
    | inr miss ↦
        let next = scan_next x rungs end i budget found go miss in
        let rest = scan_evidence rungs end (i + 1) budget (note_evidence x found) (rw next at h) in
        let n : end - i ≡ suc (end - (i + 1)) = ground arith in
        rw n (
          ap (λ p. p.1) next
          ∙ rest
          ∙ noted_first x found (first_mature (take (end - (i + 1)) rungs)))
  ]
]

-- The same over the list of the first `n` rungs.
abbrev AllDear : ℕ → List LadderRungCost → Type 0
AllDear budget = All (λ c. (is_mature c ≡ false) ⊎ (budget < c.cost_ns))

abbrev AllYoung : List LadderRungCost → Type 0
AllYoung = All (λ c. is_mature c ≡ false)

Refuses-AllDear :
    (budget n : ℕ) (rungs : List LadderRungCost)
    → Refuses budget rungs n
    → AllDear budget (take n rungs)
Refuses-AllDear budget zero rungs r = tt
Refuses-AllDear budget (suc n) [] r = tt
Refuses-AllDear budget (suc n) (x ∷ rungs) r = (
  elim (Bool-cases (is_mature x)) [ inl m ↦ inr (r 0 x (omega arith) refl m) | inr m ↦ inl m ],
  Refuses-AllDear budget n rungs (λ j c lt. r (suc j) c (omega arith)),
)

Immature-AllYoung :
    (n : ℕ) (rungs : List LadderRungCost) → Immature rungs n → AllYoung (take n rungs)
Immature-AllYoung zero rungs r = tt
Immature-AllYoung (suc n) [] r = tt
Immature-AllYoung (suc n) (x ∷ rungs) r =
    (r 0 x (omega arith) refl, Immature-AllYoung n rungs (λ j c lt. r (suc j) c (omega arith)))

module _ (rungs : List LadderRungCost) (current budget : ℕ)
    (short : length rungs < 4294967296) where
  abbrev Fits : LadderRecoveryTarget → Type 0
  Fits t =
      (get_elem? rungs t.rung ≡ some t.evidence)
      × (is_mature t.evidence ≡ true)
      × (t.evidence.cost_ns ≤ budget)
      × AllDear budget (take t.rung rungs)

  abbrev visible : ℕ
  visible = min current (length rungs)

  -- A rung that fits; one rung up with no rung mature; no climb with all mature ones refused, of which
  -- the first is the evidence; or no climb from the richest rung.
  abbrev pub Sound : LadderRecoveryTarget → Type 0
  Sound t =
      ((t.rung < current) × Fits t)
      ⊎ (((t.rung + 1 ≡ current)
            × AllYoung (take visible rungs)
            × (t.evidence ≡ get_or rungs t.rung no_evidence))
          ⊎ (((t.rung ≡ current)
                × AllDear budget (take visible rungs)
                × (first_mature (take visible rungs) ≡ some t.evidence))
              ⊎ ((current ≡ 0) × (t.rung ≡ 0) × (t.evidence ≡ no_evidence))))

  Found-Sound : (t : LadderRecoveryTarget) → Found rungs visible 0 budget t → Sound t
  Found-Sound t (k, e, lt, at, m, fits, r) =
      let here : t.rung ≡ k = omega arith in
      inl (omega arith, rw here (at, m, fits, Refuses-AllDear budget k rungs r))

  all_refused :
      (scan_rungs rungs visible 0 budget none).0 ≡ none → AllDear budget (take visible rungs)
  all_refused h =
      Refuses-AllDear budget visible rungs
        (λ j c lt. scan_none rungs visible 0 budget none h j c (omega arith))

  all_immature :
      (scan_rungs rungs visible 0 budget none).0 ≡ none
      → (scan_rungs rungs visible 0 budget none).1 ≡ none
      → AllYoung (take visible rungs)
  all_immature h g =
      Immature-AllYoung visible rungs
        (λ j c lt. (scan-Immature rungs visible 0 budget none h g).1 j c (omega arith))

  choose-Sound :
      (r : Option LadderRecoveryTarget × Option LadderRungCost)
      → scan_rungs rungs visible 0 budget none ≡ r
      → Sound (choose_target rungs current r)
  unfolding choose_target
  choose-Sound (some t, found) e =
      Found-Sound t (scan-Found rungs visible 0 budget none t (ap (λ p. p.0) e))
  choose-Sound (none, some c) e =
      let unfit : (scan_rungs rungs visible 0 budget none).0 ≡ none = ap (λ p. p.0) e in
      let kept : first_mature (take visible rungs) ≡ some c =
        ap (λ n. first_mature (take n rungs)) {x = visible} {y = visible - 0} (omega arith)
        ∙ sym (scan_evidence rungs visible 0 budget none unfit)
        ∙ ap (λ p. p.1) e in
      inr (inr (inl (refl, all_refused unfit, kept)))
  choose-Sound (none, none) e = elim (Bool-cases (ltb 0 current)) [
    | inl h ↦
        rw h (inr (inl (ground arith, all_immature (ap (λ p. p.0) e) (ap (λ p. p.1) e), refl)))
    | inr h ↦ rw h (inr (inr (inr (ground arith, ground arith, refl))))
  ]

  -- With fewer than 2 ^ 32 rungs, the target is the first mature richer rung that fits the budget, with
  -- its evidence; or, if no richer rung is mature and there is one, the adjacent rung with what is known
  -- of it; or the current rung with the first mature richer rung as evidence, if there is a mature one
  -- and every one costs more than the budget; or the richest rung without evidence, from itself.
  pub select_target-Sound : Sound (select_ladder_recovery_target rungs current budget)
  unfolding select_ladder_recovery_target
  select_target-Sound =
      let all_visible : min current (to_u32 (length rungs)) ≡ visible = omega arith in
      rw all_visible (choose-Sound (scan_rungs rungs visible 0 budget none) refl)
