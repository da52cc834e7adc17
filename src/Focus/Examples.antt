-- ===== src/Focus/Examples.antt =====
-- A game with a menu and a dialog, and a layer surface.
use gamescope.Common.{
  Bool, Option, Option-cases, [], arith, false, if◌then◌else◌, inl, inr, ltb, none, not, refl, some,
  subst, true, ℕ, ◌&&◌, ◌<◌, ◌==◌, ◌∷◌, ◌≡◌, ◌≤◌, ◌⊎◌,
}
use gamescope.Common.Int.{pos}
use gamescope.Focus.{
  Window, XwaylandWindow, break_tie, compare_tied, differ, has_bit, is_focus_priority_greater,
  prefer, valid_dropdown, win_has_game_id, win_is_disabled, win_is_override_redirect,
  win_is_useless, win_maybe_a_dropdown, win_skip_and_not_fullscreen, win_skip_taskbar_and_pager,
}
use gamescope.Focus.Pick.{
  FocusChoice, FocusInputs, pick_primary_focus_and_override, single_application,
}
use gamescope.Focus.Pick.Ends.{IsProper, pick_focus-ends}
use gamescope.Focus.Pick.Override.{is_link}
use gamescope.Focus.Priority.{focus_priority-IsRank, priority_rank}
use gamescope.Focus.Transient.{
  IsFollowedTo, WindowRef, find_transient, find_window, follow_transients, follow_transients-ends,
  is_transient_of, next_transient, transient_cycle-loops,
}
use gamescope.Focus.Unordered.{IsTied, priority_of_xdg_windows}

abbrev x11 : XwaylandWindow
x11 = record {
  id = 10;
  transient_for = 0;
  override_redirect = false;
  map_sequence = 5;
  damage_sequence = 7;
}

abbrev game : Window
game = record {
  xwayland = some x11;
  seq = 3;
  pid = pos 900;
  is_steam_legacy_big_picture = false;
  app_id = 480;
  x = pos 0;
  y = pos 0;
  width = 1920;
  height = 1080;
  is_sys_tray_icon = false;
  ignore_override_redirect = false;
  skip_taskbar = false;
  skip_pager = false;
  is_fullscreen = true;
  is_dialog = false;
  maybe_a_dropdown = false;
  requested_width = 0;
  requested_height = 0;
  has_hwnd_style = true;
  hwnd_style = 0;
  has_hwnd_style_ex = false;
  hwnd_style_ex = 0;
  commits_done = true ∷ [];
}

abbrev settings_x11 : XwaylandWindow
settings_x11 = record x11 { id = 11; transient_for = 10; map_sequence = 6 }

abbrev settings : Window
settings = record game { xwayland = some settings_x11; is_fullscreen = false; is_dialog = true }

abbrev layer_surface : Window
layer_surface = record game { xwayland = none }

-- The game and its settings, each transient for the other.
abbrev looping_x11 : XwaylandWindow
looping_x11 = record x11 { transient_for = 11 }

abbrev looping_game : Window
looping_game = record game { xwayland = some looping_x11 }

abbrev game_ref : WindowRef
game_ref = record { address = 1; window = game }

abbrev settings_ref : WindowRef
settings_ref = record { address = 2; window = settings }

abbrev looping_ref : WindowRef
looping_ref = record { address = 1; window = looping_game }

focus_priority-IsRank_example :
    is_focus_priority_greater settings game
    ≡ some (ltb (priority_rank game x11) (priority_rank settings settings_x11))
focus_priority-IsRank_example =
    focus_priority-IsRank settings game settings_x11 x11 refl refl (omega arith) (omega arith)
      (omega arith) (omega arith)

later_window_wins : is_focus_priority_greater settings game ≡ some true
unfolding break_tie compare_tied differ has_bit is_focus_priority_greater prefer win_has_game_id
    win_is_disabled win_is_override_redirect win_is_useless win_maybe_a_dropdown
    win_skip_and_not_fullscreen win_skip_taskbar_and_pager valid_dropdown
later_window_wins = refl

layer_surface-IsTied : IsTied game layer_surface
unfolding has_bit win_has_game_id win_is_disabled win_is_override_redirect win_is_useless
    win_maybe_a_dropdown win_skip_and_not_fullscreen win_skip_taskbar_and_pager valid_dropdown
layer_surface-IsTied = record {
  games = refl;
  redirects = refl;
  useless = refl;
  dropdowns = refl;
  disabled = refl;
  skipped = refl;
}

game_has_id : win_has_game_id game ≡ true
unfolding win_has_game_id
game_has_id = refl

priority_of_xdg_windows_example :
    (is_focus_priority_greater game layer_surface ≡ none)
    × ((is_focus_priority_greater layer_surface game ≡ some true)
        × (is_focus_priority_greater layer_surface layer_surface ≡ some true))
priority_of_xdg_windows_example =
    priority_of_xdg_windows game layer_surface x11 refl refl game_has_id layer_surface-IsTied

-- How far a window is from the settings.
abbrev distance : WindowRef → ℕ
distance w = if w.address == 2 then 0 else 1

closer :
    (linked : Bool) (a b : WindowRef)
    → (if not (2 == a.address) && linked then some settings_ref else none) ≡ some b
    → distance b < distance a
closer false a b e = ground arith
closer true a b e = ground arith

closer_than_none : (a b : WindowRef) → none ≡ some b → distance b < distance a
closer_than_none a b e = ground arith

settings_last :
    (a b : WindowRef) → next_transient (settings_ref ∷ []) a ≡ some b → distance b < distance a
unfolding next_transient find_transient find_window is_transient_of
settings_last a b e = elim (Option-cases a.window.xwayland) [
  | inl xdg ↦ closer_than_none a b (subst followed xdg e)
  | inr (x, found) ↦ closer _ a b (subst followed found e)
]
  where
    followed : Option XwaylandWindow → Type 0
    followed o = elim o [ none ↦ none | some x ↦ find_transient a x (settings_ref ∷ []) ] ≡ some b

settings_follow_game :
    next_transient (settings_ref ∷ looping_ref ∷ []) looping_ref ≡ some settings_ref
unfolding next_transient find_transient find_window is_transient_of win_is_override_redirect
    win_is_useless win_maybe_a_dropdown valid_dropdown win_skip_and_not_fullscreen
    win_skip_taskbar_and_pager has_bit
settings_follow_game = refl

game_follows_settings :
    next_transient (settings_ref ∷ looping_ref ∷ []) settings_ref ≡ some looping_ref
unfolding next_transient find_transient find_window is_transient_of win_is_override_redirect
    win_is_useless win_maybe_a_dropdown valid_dropdown win_skip_and_not_fullscreen
    win_skip_taskbar_and_pager has_bit
game_follows_settings = refl

transient_cycle-loops_example :
    follow_transients 1000 (settings_ref ∷ looping_ref ∷ []) looping_ref ≡ none
transient_cycle-loops_example =
    transient_cycle-loops (settings_ref ∷ looping_ref ∷ []) looping_ref settings_ref
      settings_follow_game game_follows_settings 1000

abbrev IsAny : WindowRef → Type 0
IsAny w = Unit

follow_transients-ends_example :
    (last : WindowRef) × ((follow_transients 2 (settings_ref ∷ []) game_ref ≡ some last)
      × (IsAny last
          × (IsFollowedTo (settings_ref ∷ []) game_ref last
              × (next_transient (settings_ref ∷ []) last ≡ none))))
follow_transients-ends_example =
    follow_transients-ends IsAny distance (settings_ref ∷ []) (λ a b u e. (tt, settings_last a b e))
      1 game_ref tt (omega arith)

-- The game and its settings as the possible windows.
abbrev IsOurs : WindowRef → Type 0
IsOurs w = (w ≡ game_ref) ⊎ (w ≡ settings_ref)

linked : (a b c d : WindowRef) → a ≡ c → b ≡ d → is_link a b ≡ true → is_link c d ≡ true
linked a b c d p q e = subst (λ u. is_link c u ≡ true) q (subst (λ u. is_link u b ≡ true) p e)

links_descend :
    (a b : WindowRef) → IsOurs a → IsOurs b → is_link a b ≡ true → distance b < distance a
links_descend a b (inl p) (inr q) e = rw (p, q) (omega arith)
links_descend a b (inl p) (inl q) e = let false_link = linked a b _ _ p q e in ground arith
links_descend a b (inr p) (inl q) e = let false_link = linked a b _ _ p q e in ground arith
links_descend a b (inr p) (inr q) e = let false_link = linked a b _ _ p q e in ground arith

distance-le : (a : WindowRef) → IsOurs a → distance a ≤ 1
distance-le a ours = ground arith

abbrev uncontrolled : FocusInputs
uncontrolled = record {
  focus_control_window = 0;
  global_focus = true;
  focus_control_app_ids = [];
  virtual_focus_key = 0;
  strategy = single_application;
}

pick_focus-ends_example :
    (choice : FocusChoice) × ((pick_primary_focus_and_override 2 uncontrolled none
          (game_ref ∷ settings_ref ∷ [])
        ≡ some choice)
      × IsProper IsOurs choice)
pick_focus-ends_example =
    pick_focus-ends IsOurs distance (game_ref ∷ settings_ref ∷ []) links_descend 1 uncontrolled none
      (inl refl, (inr refl, tt)) distance-le
