-- ===== src/Focus/Pick/Choice.antt =====
-- The searches of pick_primary_focus_and_override for the focus and for its override (src/steamcompmgr.cpp).
use gamescope.Common.{
  All, Bool, Bool-cases, List, Option, Option-cases, arith, false, if-false, if-true, if◌then◌else◌,
  inl, inr, none, not, refl, some, subst, suc, sym, true, ℕ, ◌&&◌, ◌<◌, ◌==◌, ◌∙◌, ◌≡◌, ◌≤◌,
}
use gamescope.Focus.{XwaylandWindow, win_is_override_redirect, win_maybe_a_dropdown}
use gamescope.Focus.Pick.{
  FocusInputs, dropdown_candidate, dropdown_override, follow_focus, is_controlled,
  is_dropdown_candidate, is_good_override_candidate, is_xwayland, parent_of, redirect_override,
  redirects,
}
use gamescope.Focus.Pick.Override.{
  IsApart, and_left, and_right, find_for_app_ids-found, find_window-found, is_link, links,
  parent_lem, resolve_overrides-ends,
}
use gamescope.Focus.Transient.{
  WindowRef, find_transient, find_window, follow_transients-ends, is_transient_of, next_transient,
}

good_candidate_apart :
    (o focus : WindowRef)
    → is_good_override_candidate o focus ≡ true
    → not (o.address == focus.address) ≡ true
unfolding is_good_override_candidate
good_candidate_apart o focus e = unless_foreign _ _ _ e
  where
    unless_foreign :
        (foreign apart on_screen : Bool)
        → (if foreign then false else apart && on_screen) ≡ true
        → apart ≡ true
    unless_foreign true apart on_screen e = ground arith
    unless_foreign false apart on_screen e = and_left apart on_screen e

redirect_apart :
    (i : FocusInputs) (focus w : WindowRef)
    → redirects i focus w ≡ true
    → not (w.address == focus.address) ≡ true
unfolding redirects
redirect_apart i focus w e = good_candidate_apart w focus (
    and_left (is_good_override_candidate w focus) _
      (and_right (win_is_override_redirect w.window) _ e))

dropdown_apart :
    (focus w : WindowRef)
    → is_dropdown_candidate focus w ≡ true
    → not (w.address == focus.address) ≡ true
unfolding is_dropdown_candidate
dropdown_apart focus w e =
    good_candidate_apart w focus (and_right (win_maybe_a_dropdown w.window) _ e)

transients_are_links :
    (y : Option XwaylandWindow) (x : XwaylandWindow) (others plain : Bool)
    → (elim y [ none ↦ false | some c ↦ others && (c.transient_for == x.id && plain) ]) ≡ true
    → links others y (some x) ≡ true
transients_are_links none x others plain e = ground arith
transients_are_links (some c) x true plain e = and_left (c.transient_for == x.id) plain e
transients_are_links (some c) x false plain e = ground arith

module _ (P : WindowRef → Type 0) (height : WindowRef → ℕ) (ws : List WindowRef) (every : All P ws)
    (descends : (a b : WindowRef) → P a → P b → is_link a b ≡ true → height b < height a)
    (turns : ℕ) (low : (a : WindowRef) → P a → height a ≤ turns) where
  follow_step : (a b : WindowRef) → P a → next_transient ws a ≡ some b → P b × (height b < height a)
  unfolding next_transient find_transient is_transient_of
  follow_step a b p e = elim (Option-cases a.window.xwayland) [
    | inl xdg ↦ absurd (nothing_found (subst followed xdg e))
    | inr (x, x11) ↦
        let (q, kind) =
          find_window-found P (is_transient_of a x) ws b every (subst followed x11 e) in
        let linked = transients_are_links b.window.xwayland x _ _ kind in
        (
          q,
          descends a b p q (
              subst (λ o. links (not (b.address == a.address)) b.window.xwayland o ≡ true) (sym x11)
                linked),
        )
  ]
    where
      nothing_found : none ≡ some b → ⊥
      nothing_found e = ground arith

      followed : Option XwaylandWindow → Type 0
      followed o = elim o [ none ↦ none | some x ↦ find_transient a x ws ] ≡ some b

  pub follow_focus-ends :
      (i : FocusInputs) (start : WindowRef)
      → P start
      → (focus : WindowRef) × ((follow_focus (suc turns) i ws start ≡ some focus) × P focus)
  unfolding follow_focus
  follow_focus-ends i start p = elim (Bool-cases (i.focus_control_window == 0)) [
    | inl free ↦
        let (last, (ended, (q, rest))) =
          follow_transients-ends P height ws follow_step turns start p (low start p) in
        (last, (if-true _ _ free ∙ ended, q))
    | inr controlled ↦ (start, (if-false _ _ controlled, p))
  ]

  candidate-IsApart :
      (o : Option WindowRef) (focus : WindowRef)
      → ((w : WindowRef) → o ≡ some w → P w × (not (w.address == focus.address) ≡ true))
      → IsApart P focus o
  candidate-IsApart none focus h = tt
  candidate-IsApart (some w) focus h = h w refl

  parent_low :
      (focus : WindowRef) (override : Option WindowRef)
      → P focus
      → IsApart P focus override
      → height (parent_of focus override) ≤ turns
  parent_low focus override p apart =
      low (parent_of focus override) (parent_lem P focus override p apart)

  pub redirect_override-ends :
      (i : FocusInputs) (focus : WindowRef)
      → P focus
      → (o : Option WindowRef) × ((redirect_override (suc turns) i ws focus ≡ some o)
          × IsApart P focus o)
  unfolding redirect_override
  redirect_override-ends i focus p = elim (Bool-cases (is_xwayland focus.window)) [
    | inl x11 ↦
        let apart = candidate-IsApart (find_window (redirects i focus) ws) focus (λ w e.
          let (q, kind) = find_window-found P (redirects i focus) ws w every e in
          (q, redirect_apart i focus w kind)) in
        let (last, (ended, r)) =
          resolve_overrides-ends P height ws every descends turns false focus _ p apart
            (parent_low focus _ p apart) in
        (last, (if-true _ _ x11 ∙ ended, r))
    | inr xdg ↦ (none, (if-false _ _ xdg, tt))
  ]

  dropdown_found :
      (i : FocusInputs) (focus w : WindowRef)
      → dropdown_candidate i ws focus ≡ some w
      → P w × (is_dropdown_candidate focus w ≡ true)
  unfolding dropdown_candidate
  dropdown_found i focus w e = elim (Bool-cases (is_controlled i)) [
    | inl controlled ↦
        let (q, kind) =
          find_for_app_ids-found P _ i.focus_control_app_ids ws w every
            (sym (if-true _ _ controlled) ∙ e) in
        (q, and_left (is_dropdown_candidate focus w) _ kind)
    | inr free ↦
        find_window-found P (is_dropdown_candidate focus) ws w every (sym (if-false _ _ free) ∙ e)
  ]

  pub dropdown_override-ends :
      (i : FocusInputs) (focus : WindowRef) (redirect : Option WindowRef)
      → P focus
      → IsApart P focus redirect
      → (o : Option WindowRef) × ((dropdown_override (suc turns) i ws focus redirect ≡ some o)
          × IsApart P focus o)
  unfolding dropdown_override
  dropdown_override-ends i focus (some o) p apart = (some o, (refl, apart))
  dropdown_override-ends i focus none p apart =
      let fake =
        candidate-IsApart (dropdown_candidate i ws focus) focus
          (λ w e. let (q, kind) = dropdown_found i focus w e in (q, dropdown_apart focus w kind)) in
      elim (Bool-cases (is_xwayland focus.window)) [
        | inl x11 ↦
            let (last, (ended, r)) =
              resolve_overrides-ends P height ws every descends turns true focus _ p fake
                (parent_low focus _ p fake) in
            (last, (if-true _ _ x11 ∙ ended, r))
        | inr xdg ↦ (dropdown_candidate i ws focus, (if-false _ _ xdg, fake))
      ]
