-- ===== src/Framegen/Shed/Oldest.antt =====
-- The first loop of plan_bidir_queue_shed of src/framegen/deadline.hpp.
use gamescope.Common.{
  Bool-cases, List, [], ap, arith, false, if◌then◌else◌, inl, inr, ltb, refl, suc, sym, take, true,
  zero, ℕ, ◌+◌, ◌-◌, ◌∙◌, ◌∷◌, ◌≡◌,
}
use gamescope.Framegen.Shed.{BidirQueueEntry, Marked, is_endpoint, shed_generated, unmarked}

-- The places of the generated entries, from place i on.
abbrev pub generated_places : ℕ → List BidirQueueEntry → List ℕ
generated_places i [] = []
generated_places i (e ∷ es) =
    if is_endpoint e.kind then generated_places (i + 1) es else i ∷ generated_places (i + 1) es

-- The entries, of which so many generated ones, the oldest, are removed.
abbrev pub without_oldest : ℕ → List BidirQueueEntry → List Marked
without_oldest n [] = []
without_oldest zero (e ∷ es) = record { entry = e; removed = false } ∷ without_oldest zero es
without_oldest (suc n) (e ∷ es) =
    if is_endpoint e.kind
    then record { entry = e; removed = false } ∷ without_oldest (suc n) es
    else record { entry = e; removed = true } ∷ without_oldest n es

take-nil : (n : ℕ) → take {A = ℕ} n [] ≡ []
take-nil zero = refl
take-nil (suc n) = refl

oldest-none : (n : ℕ) → without_oldest n [] ≡ []
oldest-none zero = refl
oldest-none (suc n) = refl

-- The first loop removes the oldest generated entries, as many as it needs.
abbrev Oldest : ℕ → ℕ → ℕ → List BidirQueueEntry → Type 0
Oldest capacity i remaining es =
    ((shed_generated capacity i remaining (unmarked es)).0
      ≡ without_oldest (remaining - capacity) es)
    × ((shed_generated capacity i remaining (unmarked es)).1
        ≡ take (remaining - capacity) (generated_places i es))

oldest_endpoint :
    (n : ℕ) (e : BidirQueueEntry) (es : List BidirQueueEntry)
    → is_endpoint e.kind ≡ true
    → without_oldest n (e ∷ es) ≡ record { entry = e; removed = false } ∷ without_oldest n es
oldest_endpoint zero e es h = refl
oldest_endpoint (suc n) e es h = rw h refl

pub shed_generated-Oldest :
    (capacity i remaining : ℕ) (es : List BidirQueueEntry) → Oldest capacity i remaining es
unfolding shed_generated
shed_generated-Oldest capacity i remaining [] =
    (sym (oldest-none (remaining - capacity)), sym (take-nil (remaining - capacity)))
shed_generated-Oldest capacity i remaining (e ∷ es) = elim (Bool-cases (ltb capacity remaining)) [
  | inl over ↦ elim (Bool-cases (is_endpoint e.kind)) [
    | inl stays ↦
        let (marks, places) = shed_generated-Oldest capacity (i + 1) remaining es in
        let oldest = oldest_endpoint (remaining - capacity) e es stays in
        simp (over, stays)
          (ap (λ ms. record { entry = e; removed = false } ∷ ms) marks ∙ sym oldest, places)
    | inr goes ↦
        let n : remaining - capacity ≡ suc (remaining - 1 - capacity) = ground arith in
        let (marks, places) = shed_generated-Oldest capacity (i + 1) (remaining - 1) es in
        simp (over, goes, n)
          (ap (λ ms. record { entry = e; removed = true } ∷ ms) marks, ap (λ xs. i ∷ xs) places)
  ]
  | inr fits ↦
      let n : remaining - capacity ≡ 0 = ground arith in
      let (marks, places) = shed_generated-Oldest capacity (i + 1) remaining es in
      let rest : without_oldest (remaining - capacity) es ≡ without_oldest zero es =
        ap (λ k. without_oldest k es) n in
      let none_left : take (remaining - capacity) (generated_places (i + 1) es) ≡ [] =
        ap (λ k. take k (generated_places (i + 1) es)) n in
      simp (fits, n)
        (ap (λ ms. record { entry = e; removed = false } ∷ ms) (marks ∙ rest), places ∙ none_left)
]
