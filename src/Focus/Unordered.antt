-- ===== src/Focus/Unordered.antt =====
-- The focus priority where an XDG window takes part (src/steamcompmgr.cpp).
use gamescope.Common.{Bool, Option, false, none, not, refl, some, sym, true, ◌∙◌, ◌≡◌}
use gamescope.Focus.{
  Window, XwaylandWindow, compare_tied, is_focus_priority_greater, prefer, win_has_game_id,
  win_is_disabled, win_is_override_redirect, win_is_useless, win_maybe_a_dropdown,
  win_skip_and_not_fullscreen,
}

-- Two windows that the criteria before the dialogs leave tied.
pub record IsTied (a b : Window) : Type 0 where
  pub games : win_has_game_id a ≡ win_has_game_id b
  pub redirects : win_is_override_redirect a ≡ win_is_override_redirect b
  pub useless : win_is_useless a ≡ win_is_useless b
  pub dropdowns : win_maybe_a_dropdown a ≡ win_maybe_a_dropdown b
  pub disabled : win_is_disabled a ≡ win_is_disabled b
  pub skipped : win_skip_and_not_fullscreen a ≡ win_skip_and_not_fullscreen b

prefer-tied : (p : Bool) (rest : Option Bool) → prefer p p rest ≡ rest
unfolding prefer
prefer-tied true rest = refl
prefer-tied false rest = refl

IsTied-sym : {a b : Window} → IsTied a b → IsTied b a
IsTied-sym tied = record {
  games = sym tied.games;
  redirects = sym tied.redirects;
  useless = sym tied.useless;
  dropdowns = sym tied.dropdowns;
  disabled = sym tied.disabled;
  skipped = sym tied.skipped;
}

IsTied-refl : (a : Window) → IsTied a a
IsTied-refl a = record {
  games = refl;
  redirects = refl;
  useless = refl;
  dropdowns = refl;
  disabled = refl;
  skipped = refl;
}

tied_no_dropdown :
    (a b : Window)
    → IsTied a b
    → win_maybe_a_dropdown b ≡ false
    → is_focus_priority_greater a b ≡ compare_tied a b
unfolding is_focus_priority_greater prefer
tied_no_dropdown a b tied plain =
    rw
      (
        tied.games,
        tied.redirects,
        tied.useless,
        tied.dropdowns,
        tied.disabled,
        tied.skipped,
        plain,
        prefer-tied (win_has_game_id b) _,
        prefer-tied (not (win_is_override_redirect b)) _,
        prefer-tied (not (win_is_useless b)) _,
        prefer-tied (not (win_is_disabled b)) _,
        prefer-tied (not (win_skip_and_not_fullscreen b)) _,
      )
      refl

xdg_no_dropdown : (b : Window) → b.xwayland ≡ none → win_maybe_a_dropdown b ≡ false
unfolding win_maybe_a_dropdown
xdg_no_dropdown b xdg = rw xdg refl

xdg_goes_first : (a b : Window) → a.xwayland ≡ none → compare_tied a b ≡ some true
unfolding compare_tied
xdg_goes_first a b xdg = rw xdg refl

xdg_has_no_sequence :
    (a b : Window) (x : XwaylandWindow)
    → a.xwayland ≡ some x
    → b.xwayland ≡ none
    → win_has_game_id a ≡ true
    → compare_tied a b ≡ none
unfolding compare_tied win_has_game_id
xdg_has_no_sequence a b x x11 xdg game = rw (x11, xdg, game) refl

-- Of an XWAYLAND game and an XDG window that the criteria before the dialogs leave tied, the comparison
-- throws std::bad_variant_access in the one order and puts the XDG window first in the other; and the
-- XDG window has priority over itself.
pub priority_of_xdg_windows :
    (a b : Window) (x : XwaylandWindow)
    → a.xwayland ≡ some x
    → b.xwayland ≡ none
    → win_has_game_id a ≡ true
    → IsTied a b
    → (is_focus_priority_greater a b ≡ none)
      × ((is_focus_priority_greater b a ≡ some true) × (is_focus_priority_greater b b ≡ some true))
priority_of_xdg_windows a b x x11 xdg game tied =
    let plain = xdg_no_dropdown b xdg in
    (
      tied_no_dropdown a b tied plain ∙ xdg_has_no_sequence a b x x11 xdg game,
      (
        tied_no_dropdown b a (IsTied-sym tied) (tied.dropdowns ∙ plain) ∙ xdg_goes_first b a xdg,
        tied_no_dropdown b b (IsTied-refl b) plain ∙ xdg_goes_first b b xdg,
      ),
    )
