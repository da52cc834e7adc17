-- ===== src/BufferMemo/Refinement.antt =====
-- The memoizer implements a partial function from buffers to textures (src/BufferMemo.cpp).
use mathlib.Core.Option.{map as option_map}
use mathlib.Core.Path.{fun_ext}
use native.Mathlib.Decide.{ℕ_discrete}
use gamescope.Common.{
  ==_iff, List, Option, Option-cases, [], ap, arith, false, if◌then◌else◌, inl, inr, map, none,
  refl, some, suc, sym, true, zero, ℕ, ≢→==, ◌==◌, ◌>>=◌, ◌∙◌, ◌∷◌, ◌≡◌, ◌≢◌, ◌⊎◌,
}
use gamescope.BufferMemo.{
  BufferMemo, BufferMemoizer, MemoEvent, destroyed, empty_memoizer, erase_memo, find_memo,
  lookup_vulkan_texture, memoize, memoize_buffer, on_buffer_destroyed, on_memo_event,
  remove_listener, run_memo_events, unmemoize_buffer,
}
use gamescope.Rc.Handles.{references}

-- The abstract memoizer: a texture for some buffers.
abbrev pub PartialMap : Type 0
PartialMap = ℕ → Option ℕ

abbrev pub update_at : ℕ → Option ℕ → PartialMap → PartialMap
update_at b value f c = if b == c then value else f c

-- What the events mean for it; none where they are misused.
abbrev pub map_event : MemoEvent → PartialMap → Option PartialMap
map_event (memoize b texture) f = elim (f b) [
  | some t ↦ none
  | none ↦ some (update_at b (some texture) f)
]
map_event (destroyed references b) f =
    if references == 0
    then elim (f b) [ none ↦ none | some t ↦ some (update_at b none f) ]
    else none

abbrev pub map_events : List MemoEvent → PartialMap → Option PartialMap
map_events [] f = some f
map_events (e ∷ es) f = do next ← map_event e f; map_events es next

abbrev pub view : BufferMemoizer → PartialMap
view z b = lookup_vulkan_texture b z

-- No buffer has two memos.
abbrev IsDistinct : List BufferMemo → Type 0
IsDistinct [] = Unit
IsDistinct (m ∷ ms) = (find_memo m.buffer ms ≡ none) × IsDistinct ms

-- A test of two buffers, with what it says.
test : (a b : ℕ) → (((a == b) ≡ true) × (a ≡ b)) ⊎ (((a == b) ≡ false) × (a ≢ b))
test a b = elim (ℕ_discrete a b) [
  | yes same ↦ inl ((==_iff a b).1 same, same)
  | no other ↦ inr (≢→== a b other, other)
]

erase-absent :
    (b c : ℕ) (ms : List BufferMemo) → find_memo b ms ≡ none → find_memo b (erase_memo c ms) ≡ none
unfolding find_memo erase_memo
erase-absent b c [] h = refl
erase-absent b c (m ∷ ms) h = elim (test m.buffer b) [
  | inl (yes_b, e) ↦ absurd (let found = rw yes_b at h in cc)
  | inr (no_b, e) ↦
      let rest = rw no_b at h in
      elim (test m.buffer c) [
        | inl (yes_c, f) ↦ rw yes_c rest
        | inr (no_c, f) ↦ rw (no_c, no_b) (erase-absent b c ms rest)
      ]
]

erase-IsDistinct : (b : ℕ) (ms : List BufferMemo) → IsDistinct ms → IsDistinct (erase_memo b ms)
unfolding erase_memo
erase-IsDistinct b [] h = tt
erase-IsDistinct b (m ∷ ms) (absent, rest) = elim (test m.buffer b) [
  | inl (yes_b, e) ↦ rw yes_b rest
  | inr (no_b, e) ↦ rw no_b (erase-absent m.buffer b ms absent, erase-IsDistinct b ms rest)
]

find-erase :
    (b c : ℕ) (ms : List BufferMemo)
    → IsDistinct ms
    → find_memo c (erase_memo b ms) ≡ update_at b none (λ d. find_memo d ms) c
unfolding find_memo erase_memo
find-erase b c [] h = elim (test b c) [ inl (e, f) ↦ rw e refl | inr (e, f) ↦ rw e refl ]
find-erase b c (m ∷ ms) (absent, rest) = elim (test m.buffer b) [
  | inl (yes_b, e) ↦ elim (test b c) [
    | inl (yes_c, f) ↦ rw (yes_b, yes_c) (rw (e ∙ f) at absent)
    | inr (no_c, f) ↦ let no_m : (m.buffer == c) ≡ false = rw e no_c in rw (yes_b, no_c, no_m) refl
  ]
  | inr (no_b, e) ↦ elim (test m.buffer c) [
    | inl (yes_c, f) ↦
        let no_c : (b == c) ≡ false = ≢→== b c λ g. e (f ∙ sym g) in rw (no_b, yes_c, no_c) refl
    | inr (no_c, f) ↦ rw (no_b, no_c) (find-erase b c ms rest)
  ]
]

-- A memoizer and a map that give the same textures.
abbrev Represents : BufferMemoizer → PartialMap → Type 0
Represents z f = IsDistinct z.memos × (view z ≡ f) × (z.listeners ≡ map (λ m. m.buffer) z.memos)

-- Two runs end alike.
abbrev Agrees : Option BufferMemoizer → Option PartialMap → Type 0
Agrees none none = Unit
Agrees (some z) (some f) = Represents z f
Agrees none (some f) = ⊥
Agrees (some z) none = ⊥

listeners-erase :
    (b : ℕ) (ms : List BufferMemo)
    → remove_listener b (map (λ m. m.buffer) ms) ≡ map (λ m. m.buffer) (erase_memo b ms)
unfolding remove_listener erase_memo
listeners-erase b [] = refl
listeners-erase b (m ∷ ms) = elim (test m.buffer b) [
  | inl (yes_b, e) ↦ rw yes_b refl
  | inr (no_b, e) ↦ rw no_b (ap (◌∷◌ m.buffer) (listeners-erase b ms))
]

memoize-Agrees :
    (b texture : ℕ) (z : BufferMemoizer) (f : PartialMap)
    → Represents z f
    → Agrees (memoize_buffer b texture z) (map_event (memoize b texture) f)
unfolding memoize_buffer lookup_vulkan_texture find_memo
memoize-Agrees b texture z f (distinct, same, listening) =
    let at_b : find_memo b z.memos ≡ f b = ap (λ g. g b) same in
    elim (Option-cases (find_memo b z.memos)) [
      | inr (t, found) ↦
          let known : f b ≡ some t = sym at_b ∙ found in
          rw (memoize_buffer, map_event, found, known) tt
      | inl free ↦
          let unknown : f b ≡ none = sym at_b ∙ free in
          rw (memoize_buffer, map_event, free, unknown)
            (
              (free, distinct),
              fun_ext λ c. ap (λ g. update_at b (some texture) g c) same,
              ap (◌∷◌ b) listening,
            )
    ]

unmemoize-Agrees :
    (b : ℕ) (z : BufferMemoizer) (f : PartialMap)
    → Represents z f
    → Agrees (unmemoize_buffer b z) (map_event (destroyed 0 b) f)
unfolding unmemoize_buffer lookup_vulkan_texture
unmemoize-Agrees b z f (distinct, same, listening) =
    let at_b : find_memo b z.memos ≡ f b = ap (λ g. g b) same in
    elim (Option-cases (find_memo b z.memos)) [
      | inl free ↦
          let unknown : f b ≡ none = sym at_b ∙ free in
          rw (unmemoize_buffer, map_event, free, unknown) tt
      | inr (t, found) ↦
          let known : f b ≡ some t = sym at_b ∙ found in
          rw (unmemoize_buffer, map_event, found, known)
            (
              erase-IsDistinct b z.memos distinct,
              (fun_ext λ c. find-erase b c z.memos distinct ∙ ap (λ g. update_at b none g c) same),
              ap (remove_listener b) listening ∙ listeners-erase b z.memos,
            )
    ]

event-Agrees :
    (e : MemoEvent) (z : BufferMemoizer) (f : PartialMap)
    → Represents z f
    → Agrees (on_memo_event e z) (map_event e f)
unfolding on_memo_event on_buffer_destroyed
event-Agrees (memoize b texture) z f r = memoize-Agrees b texture z f r
event-Agrees (destroyed zero b) z f r = unmemoize-Agrees b z f r
event-Agrees (destroyed (suc n) b) z f r =
    let busy : (suc n == 0) ≡ false = ground arith in rw (map_event, busy) tt

run-Agrees :
    (es : List MemoEvent) (z : BufferMemoizer) (f : PartialMap)
    → Represents z f
    → Agrees (run_memo_events es z) (map_events es f)
unfolding run_memo_events
run-Agrees [] z f r = r
run-Agrees (e ∷ es) z f r =
    next-Agrees (on_memo_event e z) (map_event e f) (event-Agrees e z f r) (run-Agrees es)
  where
    next-Agrees :
        (o : Option BufferMemoizer) (p : Option PartialMap)
        → Agrees o p
        → ((z : BufferMemoizer) (f : PartialMap)
            → Represents z f
            → Agrees (run_memo_events es z) (map_events es f))
        → Agrees (o >>= run_memo_events es) (p >>= map_events es)
    next-Agrees none none h next = tt
    next-Agrees (some z) (some f) h next = next z f h
    next-Agrees none (some f) h next = absurd h
    next-Agrees (some z) none h next = absurd h

-- The memoizer implements a partial function: any events from the empty memoizer fail an assertion exactly
-- when they memoize a known buffer or destroy an unknown one or one whose texture is referenced, and
-- else leave the textures that the abstract map has, with one listener for each memo.
pub memoizer-IsMap :
    (es : List MemoEvent)
    → (option_map view (run_memo_events es empty_memoizer) ≡ map_events es (λ b. none))
      × ((z : BufferMemoizer)
          → run_memo_events es empty_memoizer ≡ some z
          → z.listeners ≡ map (λ m. m.buffer) z.memos)
unfolding lookup_vulkan_texture find_memo
memoizer-IsMap es =
    from_agreement (run_memo_events es empty_memoizer) (map_events es λ b. none) agreed
  where
    agreed : Agrees (run_memo_events es empty_memoizer) (map_events es (λ b. none))
    agreed = run-Agrees es empty_memoizer (λ b. none) (tt, refl, refl)

    from_agreement :
        (o : Option BufferMemoizer) (p : Option PartialMap)
        → Agrees o p
        → (option_map view o ≡ p)
          × ((z : BufferMemoizer) → o ≡ some z → z.listeners ≡ map (λ m. m.buffer) z.memos)
    from_agreement none none h = (refl, λ z e. cc)
    from_agreement (some y) (some f) (distinct, same, listening) =
        (ap some same, λ z e. let it : y ≡ z = cc in rw it at listening)
    from_agreement none (some f) h = absurd h
    from_agreement (some y) none h = absurd h
