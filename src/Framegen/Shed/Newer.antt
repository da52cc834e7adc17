-- ===== src/Framegen/Shed/Newer.antt =====
-- The searches of the second loop of plan_bidir_queue_shed of src/framegen/deadline.hpp.
use gamescope.Common.{
  Bool, Bool-cases, List, [], ap, arith, false, get_elem?, inl, inr, ltb, none, refl, some, suc,
  subst, sym, true, zero, ℕ, ◌&&◌, ◌+◌, ◌==◌, ◌∷◌, ◌≡◌, ◌<◌, ◌||◌, ◌⊎◌,
}
use gamescope.Framegen.Shed.{
  BidirQueueEntry, Marked, find_duplicate, find_endpoint, has_newer, is_live_endpoint,
}

-- A live endpoint at a place.
abbrev pub IsAt : List Marked → ℕ → Marked → Type 0
IsAt ms n m = (get_elem? ms n ≡ some m) × (is_live_endpoint m ≡ true)

abbrev is_newer : ℕ → BidirQueueEntry → ℕ → BidirQueueEntry → Bool
is_newer i e j f =
    (f.target_ns == e.target_ns)
    && (ltb e.real_frame_id f.real_frame_id || ((f.real_frame_id == e.real_frame_id) && ltb i j))

-- The endpoint f at place j is for the target of e at place i, and for a newer frame, or for the same one
-- from a later place.
abbrev IsNewer : ℕ → BidirQueueEntry → ℕ → BidirQueueEntry → Type 0
IsNewer i e j f =
    (f.target_ns ≡ e.target_ns)
    × ((e.real_frame_id < f.real_frame_id) ⊎ ((f.real_frame_id ≡ e.real_frame_id) × (i < j)))

is_newer-IsNewer :
    (i : ℕ) (e : BidirQueueEntry) (j : ℕ) (f : BidirQueueEntry)
    → is_newer i e j f ≡ true
    → IsNewer i e j f
is_newer-IsNewer i e j f h = elim (Bool-cases (ltb e.real_frame_id f.real_frame_id)) [
  | inl newer ↦ (ground arith, inl (ground arith))
  | inr same ↦ (ground arith, inr (ground arith, ground arith))
]

IsNewer-is_newer :
    (i : ℕ) (e : BidirQueueEntry) (j : ℕ) (f : BidirQueueEntry)
    → IsNewer i e j f
    → is_newer i e j f ≡ true
IsNewer-is_newer i e j f (target, inl newer) = ground arith
IsNewer-is_newer i e j f (target, inr (same, later)) = ground arith

abbrev pub IsReplaced : List Marked → ℕ → Marked → Type 0
IsReplaced ms i m = (j : ℕ) × (f : Marked) × IsAt ms j f × IsNewer i m.entry j f.entry

pub has_newer-found :
    (i : ℕ) (e : BidirQueueEntry) (j : ℕ) (ms : List Marked)
    → has_newer i e j ms ≡ true
    → (n : ℕ) × (f : Marked) × IsAt ms n f × IsNewer i e (j + n) f.entry
unfolding has_newer
has_newer-found i e j [] h = ground arith
has_newer-found i e j (m ∷ ms) h =
    elim (Bool-cases (is_live_endpoint m && is_newer i e j m.entry)) [
      | inl here_is ↦
          let at : j + 0 ≡ j = omega arith in
          (0, m, (refl, ground arith), rw at (is_newer-IsNewer i e j m.entry (ground arith)))
      | inr other ↦
          let (n, f, at, newer) = has_newer-found i e (j + 1) ms (rw other at h) in
          let next : j + suc n ≡ j + 1 + n = omega arith in (suc n, f, at, rw next newer)
    ]

pub same_value {ℓ} : {A : Type ℓ} (x y : A) → some x ≡ some y → x ≡ y
same_value x y e = ap (λ o. elim o [ none ↦ x | some z ↦ z ]) e

pub has_newer-finds :
    (i : ℕ) (e : BidirQueueEntry) (j n : ℕ) (f : Marked) (ms : List Marked)
    → IsAt ms n f
    → IsNewer i e (j + n) f.entry
    → has_newer i e j ms ≡ true
unfolding has_newer
has_newer-finds i e j n f [] (at, live) newer = cc
has_newer-finds i e j zero f (m ∷ ms) (at, live) newer =
    let same : m ≡ f = same_value m f at in
    let live_m : is_live_endpoint m ≡ true =
      subst (λ x. is_live_endpoint x ≡ true) (sym same) live in
    let place : j + 0 ≡ j = omega arith in
    let newer_j : IsNewer i e j f.entry = rw place at newer in
    let newer_m : IsNewer i e j m.entry = subst (λ x. IsNewer i e j x.entry) (sym same) newer_j in
    let first = IsNewer-is_newer i e j m.entry newer_m in ground arith
has_newer-finds i e j (suc n) f (m ∷ ms) (at, live) newer =
    let next : j + suc n ≡ j + 1 + n = omega arith in
    let later = has_newer-finds i e (j + 1) n f ms (at, live) (rw (← next) newer) in
    rw later (ground arith)

-- What the search for a duplicate says of the places that it passes.
abbrev NoneReplaced : List Marked → ℕ → List Marked → ℕ → Type 0
NoneReplaced all i ms n =
    (p : ℕ) (m : Marked) → p < n → IsAt ms p m → has_newer (i + p) m.entry 0 all ≡ false

NoneReplaced-cons :
    (all : List Marked) (i : ℕ) (m : Marked) (ms : List Marked) (n : ℕ)
    → (is_live_endpoint m && has_newer i m.entry 0 all) ≡ false
    → NoneReplaced all (i + 1) ms n
    → NoneReplaced all i (m ∷ ms) (suc n)
NoneReplaced-cons all i m ms n h rest zero f lt (at, live) =
    let same : m ≡ f = same_value m f at in
    let live_m : is_live_endpoint m ≡ true =
      subst (λ x. is_live_endpoint x ≡ true) (sym same) live in
    let none_for_m : has_newer i m.entry 0 all ≡ false = ground arith in
    let place : i + 0 ≡ i = omega arith in
    rw place (subst (λ x. has_newer i x.entry 0 all ≡ false) same none_for_m)
NoneReplaced-cons all i m ms n h rest (suc p) f lt at =
    let place : i + suc p ≡ i + 1 + p = omega arith in rw place (rest p f (omega arith) at)

pub duplicate_found :
    (all : List Marked) (i k : ℕ) (ms : List Marked)
    → find_duplicate all i ms ≡ some k
    → (n : ℕ) × (m : Marked) × (k ≡ i + n)
      × IsAt ms n m
      × (has_newer k m.entry 0 all ≡ true)
      × NoneReplaced all i ms n
unfolding find_duplicate
duplicate_found all i k [] h = cc
duplicate_found all i k (m ∷ ms) h =
    elim (Bool-cases (is_live_endpoint m && has_newer i m.entry 0 all)) [
      | inl hit ↦
          let found : i ≡ k = same_value i k (rw hit at h) in
          let newer : has_newer i m.entry 0 all ≡ true = ground arith in
          (
            0,
            m,
            omega arith,
            (refl, ground arith),
            subst (λ x. has_newer x m.entry 0 all ≡ true) found newer,
            λ p f lt at. absurd (omega arith),
          )
      | inr miss ↦
          let (n, f, place, at, newer, before) = duplicate_found all (i + 1) k ms (rw miss at h) in
          (suc n, f, omega arith, at, newer, NoneReplaced-cons all i m ms n miss before)
    ]

pub no_duplicate :
    (all : List Marked) (i n : ℕ) (ms : List Marked)
    → find_duplicate all i ms ≡ none
    → NoneReplaced all i ms n
unfolding find_duplicate
no_duplicate all i n [] h = λ p m lt at. cc
no_duplicate all i zero (m ∷ ms) h = λ p f lt at. absurd (omega arith)
no_duplicate all i (suc n) (m ∷ ms) h =
    elim (Bool-cases (is_live_endpoint m && has_newer i m.entry 0 all)) [
      | inl hit ↦ let clash = rw hit at h in absurd (cc clash)
      | inr miss ↦
          NoneReplaced-cons all i m ms n miss (no_duplicate all (i + 1) n ms (rw miss at h))
    ]

pub first_found :
    (i k : ℕ) (ms : List Marked)
    → find_endpoint i ms ≡ some k
    → (n : ℕ) × (m : Marked) × (k ≡ i + n)
      × IsAt ms n m
      × ((p : ℕ) (f : Marked) → p < n → IsAt ms p f → ⊥)
unfolding find_endpoint
first_found i k [] h = cc
first_found i k (m ∷ ms) h = elim (Bool-cases (is_live_endpoint m)) [
  | inl live ↦
      let found : i ≡ k = same_value i k (rw live at h) in
      (0, m, omega arith, (refl, live), λ p f lt at. absurd (omega arith))
  | inr dead ↦
      let (n, f, place, at, before) = first_found (i + 1) k ms (rw dead at h) in
      (suc n, f, omega arith, at, first_cons m ms n dead before)
]
  where
    first_cons :
        (m : Marked) (ms : List Marked) (n : ℕ)
        → is_live_endpoint m ≡ false
        → ((p : ℕ) (f : Marked) → p < n → IsAt ms p f → ⊥)
        → (p : ℕ) (f : Marked) → p < suc n
        → IsAt (m ∷ ms) p f
        → ⊥
    first_cons m ms n dead before zero f lt (at, live) =
        let same : m ≡ f = same_value m f at in
        let live_m : is_live_endpoint m ≡ true =
          subst (λ x. is_live_endpoint x ≡ true) (sym same) live in
        absurd (ground arith)
    first_cons m ms n dead before (suc p) f lt at = before p f (omega arith) at
