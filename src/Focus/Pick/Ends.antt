-- ===== src/Focus/Pick/Ends.antt =====
-- The choice of the focus and its override as a whole (src/steamcompmgr.cpp).
use gamescope.Common.{
  All, Bool, List, Option, Option-cases, [], ap, arith, false, if◌then◌else◌, inl, inr, none, refl,
  some, some-injective, subst, suc, true, ℕ, ◌<◌, ◌∷◌, ◌≡◌, ◌≤◌, ◌⊎◌,
}
use gamescope.Focus.{win_has_game_id}
use gamescope.Focus.Pick.{
  FocusChoice, FocusInputs, VirtualConnectorStrategy, by_key, by_steam, controlled_focus,
  dropdown_override, first_window, focus_on, follow_focus, has_id, no_focus, per_app_id, per_window,
  pick_primary_focus_and_override, redirect_override, single_application, start_with,
  starting_focus, steam_controlled,
}
use gamescope.Focus.Pick.Choice.{dropdown_override-ends, follow_focus-ends, redirect_override-ends}
use gamescope.Focus.Pick.Override.{IsApart, find_for_app_ids-found, find_window-found, is_link}
use gamescope.Focus.Transient.{WindowRef}

-- A choice of nothing, or of a possible window with an override, if any, that is another possible window.
abbrev pub IsProper : (WindowRef → Type 0) → FocusChoice → Type 0
IsProper P choice =
    ((choice.focus ≡ none) × (choice.override_window ≡ none))
    ⊎ ((f : WindowRef) × ((choice.focus ≡ some f) × (P f × IsApart P f choice.override_window)))

pick_none :
    (turns : ℕ) (i : FocusInputs) (previous : Option WindowRef) (ws : List WindowRef)
    → starting_focus i ws ≡ none
    → pick_primary_focus_and_override turns i previous ws ≡ some (no_focus previous)
unfolding pick_primary_focus_and_override
pick_none turns i previous ws e = rw (e, pick_primary_focus_and_override) refl

pick_some :
    (turns : ℕ) (i : FocusInputs) (previous : Option WindowRef) (ws : List WindowRef)
    (start focus : WindowRef) (game_focused : Bool) (redirect override : Option WindowRef)
    → starting_focus i ws ≡ some (start, game_focused)
    → follow_focus turns i ws start ≡ some focus
    → redirect_override turns i ws focus ≡ some redirect
    → dropdown_override turns i ws focus redirect ≡ some override
    → pick_primary_focus_and_override turns i previous ws
      ≡ some (focus_on i previous game_focused focus override)
unfolding pick_primary_focus_and_override
pick_some turns i previous ws start focus game_focused redirect override es ef er eo =
    rw (es, pick_primary_focus_and_override, ef, er, eo) refl

module _ (P : WindowRef → Type 0) (ws : List WindowRef) (every : All P ws) where
  unless_found :
      (skip : Bool) (o : Option WindowRef) (w : WindowRef)
      → (if skip then none else o) ≡ some w
      → o ≡ some w
  unless_found true o w e = ground arith
  unless_found false o w e = e

  when_found :
      (taken : Bool) (o : Option WindowRef) (w : WindowRef)
      → (if taken then o else none) ≡ some w
      → o ≡ some w
  when_found true o w e = e
  when_found false o w e = ground arith

  either_found :
      (o rest : Option WindowRef) (w : WindowRef)
      → ((v : WindowRef) → o ≡ some v → P v)
      → ((v : WindowRef) → rest ≡ some v → P v)
      → (elim o [ none ↦ rest | some v ↦ some v ]) ≡ some w
      → P w
  either_found none rest w first second e = second w e
  either_found (some v) rest w first second e = subst P (some-injective v w e) (first v refl)

  by_steam-found : (i : FocusInputs) (w : WindowRef) → by_steam i ws ≡ some w → P w
  unfolding by_steam
  by_steam-found i w e =
      either_found _ _ w
        (λ v h.
          (find_window-found P (has_id i.focus_control_window) ws v every (unless_found _ _ v h)).0)
        (λ v h. (find_for_app_ids-found P (λ u. true) i.focus_control_app_ids ws v every h).0) e

  by_key-found : (i : FocusInputs) (w : WindowRef) → by_key i ws ≡ some w → P w
  unfolding by_key
  by_key-found i w e = (find_window-found P _ ws w every e).0

  controlled_focus-found :
      (i : FocusInputs) (s : VirtualConnectorStrategy) (w : WindowRef)
      → controlled_focus i s ws ≡ some w
      → P w
  unfolding controlled_focus
  controlled_focus-found i single_application w e = by_key-found i w e
  controlled_focus-found i steam_controlled w e = by_steam-found i w e
  controlled_focus-found i per_app_id w e = by_key-found i w e
  controlled_focus-found i per_window w e = by_key-found i w e

  first_window-found :
      (vs : List WindowRef) (w : WindowRef) → All P vs → first_window vs ≡ some w → P w
  unfolding first_window
  first_window-found [] w h e = ground arith
  first_window-found (v ∷ vs) w (p, h) e = subst P (some-injective v w e) p

  either_started :
      (o first : Option WindowRef) (forbidden : Bool) (w : WindowRef) (g : Bool)
      → ((v : WindowRef) → o ≡ some v → P v)
      → ((v : WindowRef) → first ≡ some v → P v)
      → start_with o forbidden first ≡ some (w, g)
      → P w
  unfolding start_with
  either_started (some v) first forbidden w g h k e =
      subst P (ap (λ c. c.0) (some-injective (v, true) (w, g) e)) (h v refl)
  either_started none first true w g h k e = ground arith
  either_started none none false w g h k e = ground arith
  either_started none (some v) false w g h k e =
      subst P (ap (λ c. c.0) (some-injective (v, win_has_game_id v.window) (w, g) e)) (k v refl)

  starting_focus-found :
      (i : FocusInputs) (w : WindowRef) (g : Bool) → starting_focus i ws ≡ some (w, g) → P w
  unfolding starting_focus
  starting_focus-found i w g e =
      either_started _ (first_window ws) _ w g
        (λ v h. controlled_focus-found i i.strategy v (when_found _ _ v h))
        (λ v h. first_window-found ws v every h) e

-- Where the transient links between the possible windows go down in some height, the choice ends within
-- one turn more of each of its loops than the greatest height: with nothing, or with a possible window
-- and an override, if any, that is another possible window.
pub pick_focus-ends :
    (P : WindowRef → Type 0) (height : WindowRef → ℕ) (ws : List WindowRef)
    (descends : (a b : WindowRef) → P a → P b → is_link a b ≡ true → height b < height a)
    (turns : ℕ) (i : FocusInputs) (previous : Option WindowRef)
    → All P ws
    → ((a : WindowRef) → P a → height a ≤ turns)
    → (choice : FocusChoice) × ((pick_primary_focus_and_override (suc turns) i previous ws
          ≡ some choice)
        × IsProper P choice)
unfolding no_focus focus_on
pick_focus-ends P height ws descends turns i previous every low =
    elim (Option-cases (starting_focus i ws)) [
      | inl e ↦ (no_focus previous, (pick_none _ i previous ws e, inl (refl, refl)))
      | inr ((start, g), e) ↦
          let p = starting_focus-found P ws every i start g e in
          let (f, (ef, pf)) = follow_focus-ends P height ws every descends turns low i start p in
          let (r, (er, ar)) = redirect_override-ends P height ws every descends turns low i f pf in
          let (o, (eo, ao)) =
            dropdown_override-ends P height ws every descends turns low i f r pf ar in
          (
            focus_on i previous g f o,
            (pick_some _ i previous ws start f g r o e ef er eo, inr (f, (refl, (pf, ao)))),
          )
    ]
