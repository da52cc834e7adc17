-- ===== src/Focus/Transient.antt =====
-- The search along transient links for the window to focus: the first loop of
-- pick_primary_focus_and_override of src/steamcompmgr.cpp.
use gamescope.Common.{
  Bool, List, Option, Option-cases, [], arith, false, if◌then◌else◌, inl, inr, none, not, refl,
  some, suc, zero, ℕ, ◌&&◌, ◌<◌, ◌==◌, ◌∙◌, ◌∷◌, ◌≡◌, ◌≤◌,
}
use gamescope.Focus.{Window, XwaylandWindow, win_maybe_a_dropdown}

-- A window in memory: pointers compare by the address.
pub record WindowRef : Type 0 where
  pub address : ℕ
  pub window : Window

unfoldable pub is_transient_of : WindowRef → XwaylandWindow → WindowRef → Bool
is_transient_of focus x candidate = elim candidate.window.xwayland [
  | none ↦ false
  | some y ↦
      not (candidate.address == focus.address)
      && (y.transient_for == x.id && not (win_maybe_a_dropdown candidate.window))
]

-- A loop that stops at the first window with a property.
unfoldable pub find_window : (WindowRef → Bool) → List WindowRef → Option WindowRef
find_window p [] = none
find_window p (w ∷ ws) = let rest = find_window p ws in if p w then some w else rest

-- The candidate of one turn of the loop, if any. The loop runs for a focus of type XWAYLAND, and takes
-- only candidates of that type.
unfoldable pub find_transient : WindowRef → XwaylandWindow → List WindowRef → Option WindowRef
find_transient focus x windows = find_window (is_transient_of focus x) windows

unfoldable pub next_transient : List WindowRef → WindowRef → Option WindowRef
next_transient windows focus = elim focus.window.xwayland [
  | none ↦ none
  | some x ↦ find_transient focus x windows
]

-- The loop, in at most as many turns as the fuel; none is a loop that has not ended.
pub follow_transients : ℕ → List WindowRef → WindowRef → Option WindowRef
follow_transients zero windows focus = none
follow_transients (suc turns) windows focus = elim (next_transient windows focus) [
  | none ↦ some focus
  | some found ↦ follow_transients turns windows found
]

-- The windows that a search reaches.
pub data IsFollowedTo (windows : List WindowRef) : WindowRef → WindowRef → Type 0 where
  here : {focus : WindowRef} → IsFollowedTo windows focus focus
  there :
      {focus found last : WindowRef}
      → next_transient windows focus ≡ some found
      → IsFollowedTo windows found last
      → IsFollowedTo windows focus last

follow_end :
    (turns : ℕ) (windows : List WindowRef) (focus : WindowRef)
    → next_transient windows focus ≡ none
    → follow_transients (suc turns) windows focus ≡ some focus
unfolding follow_transients
follow_end turns windows focus e = rw (e, follow_transients) refl

follow_turn :
    (turns : ℕ) (windows : List WindowRef) (focus found : WindowRef)
    → next_transient windows focus ≡ some found
    → follow_transients (suc turns) windows focus ≡ follow_transients turns windows found
unfolding follow_transients
follow_turn turns windows focus found e = rw (e, follow_transients) refl

pub below_zero : {m n : ℕ} → m < n → n ≤ 0 → ⊥
below_zero lt le = omega arith

pub one_below : {m n k : ℕ} → m < n → n ≤ suc k → m ≤ k
one_below lt le = omega arith

-- Where every link from a window with a property leads to one with it, and down in some height, the search
-- from such a window ends within one turn more than its height, at a window with the property that links
-- lead to and that has no transient window of its own.
pub follow_transients-ends :
    (P : WindowRef → Type 0) (height : WindowRef → ℕ) (windows : List WindowRef)
    (descends : (a b : WindowRef)
      → P a
      → next_transient windows a ≡ some b
      → P b × (height b < height a))
    (turns : ℕ) (focus : WindowRef)
    → P focus
    → height focus ≤ turns
    → (last : WindowRef) × ((follow_transients (suc turns) windows focus ≡ some last)
        × (P last × (IsFollowedTo windows focus last × (next_transient windows last ≡ none))))
follow_transients-ends P height windows descends zero focus p low =
    elim (Option-cases (next_transient windows focus)) [
      | inl e ↦ (focus, (follow_end zero windows focus e, (p, (here, e))))
      | inr (found, e) ↦ absurd (below_zero (descends focus found p e).1 low)
    ]
follow_transients-ends P height windows descends (suc turns) focus p low =
    elim (Option-cases (next_transient windows focus)) [
      | inl e ↦ (focus, (follow_end (suc turns) windows focus e, (p, (here, e))))
      | inr (found, e) ↦
          let (q, down) = descends focus found p e in
          let (last, (ended, (r, (followed, final)))) =
            follow_transients-ends P height windows descends turns found q (one_below down low) in
          (
            last,
            (follow_turn (suc turns) windows focus found e ∙ ended, (r, (there e followed, final))),
          )
    ]

-- Two windows that are each other's transient: the search from one of them does not end in any number of
-- turns.
pub transient_cycle-loops :
    (windows : List WindowRef) (a b : WindowRef)
    → next_transient windows a ≡ some b
    → next_transient windows b ≡ some a
    → (turns : ℕ) → follow_transients turns windows a ≡ none
unfolding follow_transients
transient_cycle-loops windows a b ab ba zero = refl
transient_cycle-loops windows a b ab ba (suc turns) =
    follow_turn turns windows a b ab ∙ transient_cycle-loops windows b a ba ab turns
