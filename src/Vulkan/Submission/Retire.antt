-- ===== src/Vulkan/Submission/Retire.antt =====
-- The loop of resetCmdBuffers over the pending command buffers (src/rendervulkan.cpp).
use gamescope.Common.{
  All, Bool, Bool-cases, List, [], ap, arith, false, if◌then◌else◌, inl, inr, leb, refl, true, ℕ,
  ◌&&◌, ◌++◌, ◌+◌, ◌<◌, ◌==◌, ◌||◌, ◌∙◌, ◌∷◌, ◌≡◌, ◌≤◌,
}
use gamescope.Vulkan.Submission.{retire}

-- How often a buffer is in a list.
abbrev pub times : ℕ → List ℕ → ℕ
times b [] = 0
times b (c ∷ cs) = (if c == b then 1 else 0) + times b cs

abbrev pub pending_times : ℕ → List (ℕ × ℕ) → ℕ
pending_times b [] = 0
pending_times b ((n, c) ∷ ps) = (if c == b then 1 else 0) + pending_times b ps

abbrev pub is_pending : ℕ → ℕ → List (ℕ × ℕ) → Bool
is_pending n b [] = false
is_pending n b ((m, c) ∷ ps) = ((m == n) && (c == b)) || is_pending n b ps

-- Sequence numbers that rise from above one number to at most another.
abbrev pub IsRising : ℕ → ℕ → List (ℕ × ℕ) → Type 0
IsRising low high [] = low ≤ high
IsRising low high ((n, b) ∷ ps) = (low < n) × IsRising n high ps

IsRising-weaken :
    (low lower high : ℕ) (ps : List (ℕ × ℕ))
    → lower ≤ low
    → IsRising low high ps
    → IsRising lower high ps
IsRising-weaken low lower high [] h rises = omega arith
IsRising-weaken low lower high ((n, b) ∷ ps) h (first, rises) = (omega arith, rises)

pub rising_bound : (low high : ℕ) (ps : List (ℕ × ℕ)) → IsRising low high ps → low ≤ high
rising_bound low high [] rises = rises
rising_bound low high ((n, b) ∷ ps) (first, rises) =
    let later = rising_bound n high ps rises in omega arith

pub append-IsRising :
    (low high next b : ℕ) (ps : List (ℕ × ℕ))
    → high < next
    → IsRising low high ps
    → IsRising low next (ps ++ ((next, b) ∷ []))
append-IsRising low high next b [] h rises = (omega arith, omega arith)
append-IsRising low high next b ((n, c) ∷ ps) h (first, rises) =
    (first, append-IsRising n high next b ps h rises)

pub times-append :
    (c next b : ℕ) (ps : List (ℕ × ℕ))
    → pending_times c (ps ++ ((next, b) ∷ [])) ≡ pending_times c ps + (if b == c then 1 else 0)
times-append c next b [] = ground arith
times-append c next b ((n, d) ∷ ps) = rw (times-append c next b ps) (omega arith)

pub is_pending-append :
    (m c next b : ℕ) (ps : List (ℕ × ℕ))
    → is_pending m c ps ≡ true
    → is_pending m c (ps ++ ((next, b) ∷ [])) ≡ true
is_pending-append m c next b [] h = ground arith
is_pending-append m c next b ((n, d) ∷ ps) h =
    let later = is_pending-append m c next b ps in ground arith

pub is_pending-last :
    (n c next b : ℕ) (ps : List (ℕ × ℕ))
    → ((next == n) && (b == c)) ≡ true
    → is_pending n c (ps ++ ((next, b) ∷ [])) ≡ true
is_pending-last n c next b [] h = ground arith
is_pending-last n c next b ((m, d) ∷ ps) h = rw (is_pending-last n c next b ps h) (ground arith)

pub is_pending-times :
    (n b : ℕ) (ps : List (ℕ × ℕ)) → is_pending n b ps ≡ true → 1 ≤ pending_times b ps
is_pending-times n b [] h = ground arith
is_pending-times n b ((m, c) ∷ ps) h = let later = is_pending-times n b ps in ground arith

pub retire-times :
    (sequence b : ℕ) (ps : List (ℕ × ℕ)) (unused : List ℕ)
    → pending_times b (retire sequence ps unused).0 + times b (retire sequence ps unused).1
      ≡ pending_times b ps + times b unused
unfolding retire
retire-times sequence b [] unused = refl
retire-times sequence b ((n, c) ∷ ps) unused = elim (Bool-cases (leb n sequence)) [
  | inl past ↦ rw past (retire-times sequence b ps (c ∷ unused) ∙ omega arith)
  | inr stays ↦ rw stays refl
]

pub retire-is_pending :
    (sequence n b : ℕ) (ps : List (ℕ × ℕ)) (unused : List ℕ)
    → sequence < n
    → is_pending n b ps ≡ true
    → is_pending n b (retire sequence ps unused).0 ≡ true
unfolding retire
retire-is_pending sequence n b [] unused h pending = pending
retire-is_pending sequence n b ((m, c) ∷ ps) unused h pending = elim (Bool-cases (leb m sequence)) [
  | inl past ↦ rw past (retire-is_pending sequence n b ps (c ∷ unused) h (ground arith))
  | inr stays ↦ rw stays pending
]

above-All :
    (sequence low high : ℕ) (ps : List (ℕ × ℕ))
    → sequence < low
    → IsRising low high ps
    → All (λ p. sequence < p.0) ps
above-All sequence low high [] h rises = tt
above-All sequence low high ((n, b) ∷ ps) h (first, rises) =
    (omega arith, above-All sequence n high ps (omega arith) rises)

-- What stays pending rises still, and is after the sequence number.
pub retire-IsRising :
    (sequence low high : ℕ) (ps : List (ℕ × ℕ)) (unused : List ℕ)
    → IsRising low high ps
    → IsRising low high (retire sequence ps unused).0
      × All (λ p. sequence < p.0) (retire sequence ps unused).0
unfolding retire
retire-IsRising sequence low high [] unused rises = (rises, tt)
retire-IsRising sequence low high ((n, b) ∷ ps) unused (first, rises) =
    elim (Bool-cases (leb n sequence)) [
      | inl past ↦
          let (later, above) = retire-IsRising sequence n high ps (b ∷ unused) rises in
          rw past (IsRising-weaken n low high _ (omega arith) later, above)
      | inr stays ↦
          let beyond : sequence < n = ground arith in
          rw stays ((first, rises), (beyond, above-All sequence n high ps beyond rises))
    ]

-- What is retired comes before what stays, is not after the sequence number, and is made unused.
pub retire_splits :
    (sequence : ℕ) (ps : List (ℕ × ℕ)) (unused : List ℕ)
    → (older : List (ℕ × ℕ)) × (ps ≡ older ++ (retire sequence ps unused).0)
      × All (λ p. p.0 ≤ sequence) older
      × ((b : ℕ) → times b (retire sequence ps unused).1 ≡ pending_times b older + times b unused)
unfolding retire
retire_splits sequence [] unused = ([], refl, tt, λ b. omega arith)
retire_splits sequence ((n, c) ∷ ps) unused = elim (Bool-cases (leb n sequence)) [
  | inl past ↦
      let (older, split, all, count) = retire_splits sequence ps (c ∷ unused) in
      rw past (
        (n, c) ∷ older,
        ap (λ qs. (n, c) ∷ qs) split,
        (ground arith, all),
        λ b. let counted = count b in omega arith,
      )
  | inr stays ↦ rw stays ([], refl, tt, λ b. omega arith)
]
