-- ===== src/Focus/Pick.antt =====
-- The choice of the focused window and of its override: pick_primary_focus_and_override of
-- src/steamcompmgr.cpp, with the strategies of src/backend.h.
mod Choice
pub mod Ends
pub mod Override
use gamescope.Common.{
  Bool, List, Option, [], false, if◌then◌else◌, none, not, some, suc, true, zero, ℕ, ◌%◌, ◌&&◌, ◌+◌,
  ◌==◌, ◌>>=◌, ◌||◌, ◌∷◌,
}
use gamescope.Common.Int.{ltb_ℤ, pos, ◌+ℤ◌}
use gamescope.Focus.{Window, win_has_game_id, win_is_override_redirect, win_maybe_a_dropdown}
use gamescope.Focus.Transient.{WindowRef, find_window, follow_transients}

pub data VirtualConnectorStrategy : Type 0 where
  single_application : VirtualConnectorStrategy
  steam_controlled : VirtualConnectorStrategy
  per_app_id : VirtualConnectorStrategy
  per_window : VirtualConnectorStrategy

-- The key of a window without an app id is k_ulNonSteamWindowBit | seq.
get_virtual_connector_key : Window → VirtualConnectorStrategy → ℕ
get_virtual_connector_key w single_application = 0
get_virtual_connector_key w steam_controlled = 0
get_virtual_connector_key w per_app_id =
    if w.is_steam_legacy_big_picture
    then 4611686018427387905
    else if not (w.app_id == 0)
    then w.app_id
    else 9223372036854775808 + w.seq % 9223372036854775808
get_virtual_connector_key w per_window = w.seq

is_single_application : VirtualConnectorStrategy → Bool
is_single_application single_application = true
is_single_application steam_controlled = false
is_single_application per_app_id = false
is_single_application per_window = false

-- The arguments besides the windows; 0 is None.
pub record FocusInputs : Type 0 where
  pub focus_control_window : ℕ
  pub global_focus : Bool
  pub focus_control_app_ids : List ℕ
  pub virtual_focus_key : ℕ
  pub strategy : VirtualConnectorStrategy

is_empty {ℓ} : {A : Type ℓ} → List A → Bool
is_empty [] = true
is_empty (a ∷ rest) = false

any_true : List Bool → Bool
any_true [] = false
any_true (b ∷ bs) = b || any_true bs

window_has_commits : Window → Bool
window_has_commits w = any_true w.commits_done

-- Two such loops, over app ids and over the windows with that app id.
pub find_for_app_ids : (WindowRef → Bool) → List ℕ → List WindowRef → Option WindowRef
find_for_app_ids p [] ws = none
find_for_app_ids p (i ∷ is) ws = elim (find_window (λ w. w.window.app_id == i && p w) ws) [
  | none ↦ find_for_app_ids p is ws
  | some w ↦ some w
]

pub is_good_override_candidate : WindowRef → WindowRef → Bool
is_good_override_candidate override focus =
    let o = override.window in
    let f = focus.window in
    if (ltb_ℤ o.pid f.pid || ltb_ℤ f.pid o.pid) && (f.app_id == 0 || not (o.app_id == f.app_id))
    then false
    else not (override.address == focus.address)
      && (ltb_ℤ (pos 0) (o.x +ℤ pos o.width) && ltb_ℤ (pos 0) (o.y +ℤ pos o.height))

pub is_controlled : FocusInputs → Bool
is_controlled i =
    not (is_single_application i.strategy)
    || (not (i.focus_control_window == 0) || not (is_empty i.focus_control_app_ids))

pub has_id : ℕ → WindowRef → Bool
has_id i w = elim w.window.xwayland [ none ↦ false | some x ↦ x.id == i ]

pub by_steam : FocusInputs → List WindowRef → Option WindowRef
by_steam i ws =
    elim (if i.focus_control_window == 0
      then none
      else find_window (has_id i.focus_control_window) ws) [
        | none ↦ find_for_app_ids (λ w. true) i.focus_control_app_ids ws
        | some w ↦ some w
      ]

pub by_key : FocusInputs → List WindowRef → Option WindowRef
by_key i ws =
    find_window (λ w. get_virtual_connector_key w.window i.strategy == i.virtual_focus_key) ws

pub controlled_focus : FocusInputs → VirtualConnectorStrategy → List WindowRef → Option WindowRef
controlled_focus i steam_controlled ws = by_steam i ws
controlled_focus i single_application ws = by_key i ws
controlled_focus i per_app_id ws = by_key i ws
controlled_focus i per_window ws = by_key i ws

pub first_window : List WindowRef → Option WindowRef
first_window [] = none
first_window (w ∷ ws) = some w

-- The focus before the links are followed, and localGameFocused: the controlled focus, or else the first
-- window unless `forbidden`.
pub start_with : Option WindowRef → Bool → Option WindowRef → Option (WindowRef × Bool)
start_with (some controlled) forbidden first = some (controlled, true)
start_with none true first = none
start_with none false none = none
start_with none false (some first) = some (first, win_has_game_id first.window)

pub starting_focus : FocusInputs → List WindowRef → Option (WindowRef × Bool)
starting_focus i ws =
    start_with (if is_controlled i then controlled_focus i i.strategy ws else none)
      (i.global_focus && is_controlled i) (first_window ws)

is_override_kind : Bool → Window → Bool
is_override_kind maybe w = if maybe then win_maybe_a_dropdown w else win_is_override_redirect w

-- A candidate that is transient for the window `parent`, which is the override or else the focus.
pub is_override_of : Bool → WindowRef → WindowRef → WindowRef → Bool
is_override_of maybe focus parent candidate = elim candidate.window.xwayland [
  | none ↦ false
  | some y ↦ elim parent.window.xwayland [
    | none ↦ false
    | some x ↦
        not (candidate.address == parent.address)
        && (not (candidate.address == focus.address)
            && (y.transient_for == x.id && is_override_kind maybe candidate.window))
  ]
]

pub parent_of : WindowRef → Option WindowRef → WindowRef
parent_of focus none = focus
parent_of focus (some override) = override

-- The loop of resolveTransientOverrides, in at most as many turns as the fuel.
pub resolve_overrides :
    ℕ → Bool → List WindowRef → WindowRef → Option WindowRef → Option (Option WindowRef)
resolve_overrides zero maybe ws focus override = none
resolve_overrides (suc turns) maybe ws focus override =
    elim (find_window (is_override_of maybe focus (parent_of focus override)) ws) [
      | none ↦ some override
      | some found ↦ resolve_overrides turns maybe ws focus (some found)
    ]

pub is_xwayland : Window → Bool
is_xwayland w = elim w.xwayland [ none ↦ false | some x ↦ true ]

pub follow_focus : ℕ → FocusInputs → List WindowRef → WindowRef → Option WindowRef
follow_focus turns i ws focus =
    let followed = follow_transients turns ws focus in
    if i.focus_control_window == 0 then followed else some focus

pub redirects : FocusInputs → WindowRef → WindowRef → Bool
redirects i focus w =
    win_is_override_redirect w.window
    && (is_good_override_candidate w focus
        && (is_empty i.focus_control_app_ids || w.window.app_id == focus.window.app_id))

-- The search for an override redirect window, and from it along transient links.
pub redirect_override : ℕ → FocusInputs → List WindowRef → WindowRef → Option (Option WindowRef)
redirect_override turns i ws focus =
    if is_xwayland focus.window
    then resolve_overrides turns false ws focus (find_window (redirects i focus) ws)
    else some none

pub is_dropdown_candidate : WindowRef → WindowRef → Bool
is_dropdown_candidate focus w = win_maybe_a_dropdown w.window && is_good_override_candidate w focus

pub dropdown_candidate : FocusInputs → List WindowRef → WindowRef → Option WindowRef
dropdown_candidate i ws focus =
    if is_controlled i
    then find_for_app_ids
        (λ w. is_dropdown_candidate focus w && w.window.app_id == focus.window.app_id)
        i.focus_control_app_ids ws
    else find_window (is_dropdown_candidate focus) ws

-- Where there is no such window, the search for a dropdown, and from it along transient links.
pub dropdown_override :
    ℕ → FocusInputs → List WindowRef → WindowRef → Option WindowRef → Option (Option WindowRef)
dropdown_override turns i ws focus (some override) = some (some override)
dropdown_override turns i ws focus none =
    if is_xwayland focus.window
    then resolve_overrides turns true ws focus (dropdown_candidate i ws focus)
    else some (dropdown_candidate i ws focus)

-- The window that is chosen, whether its outdatedInteractiveFocus is set, and what is written to `out`.
pub record FocusChoice : Type 0 where
  pub focus : Option WindowRef
  pub outdated_interactive_focus : Bool
  pub focus_window : Option WindowRef
  pub override_window : Option WindowRef
  pub local_game_focused : Bool

pub no_focus : Option WindowRef → FocusChoice
no_focus previous = record {
  focus = none;
  outdated_interactive_focus = false;
  focus_window = previous;
  override_window = none;
  local_game_focused = false;
}

pub focus_on : FocusInputs → Option WindowRef → Bool → WindowRef → Option WindowRef → FocusChoice
focus_on i previous game_focused focus override =
    let has_commits = window_has_commits focus.window in
    record {
      focus = some focus;
      outdated_interactive_focus = not has_commits;
      focus_window = if has_commits || not i.global_focus then some focus else previous;
      override_window = override;
      local_game_focused = game_focused;
    }

-- `previous` is the focus window that `out` holds before. None is a loop that has not ended within its
-- fuel.
pub pick_primary_focus_and_override :
    ℕ → FocusInputs → Option WindowRef → List WindowRef → Option FocusChoice
pick_primary_focus_and_override turns i previous ws = elim (starting_focus i ws) [
  | none ↦ some (no_focus previous)
  | some (start, game_focused) ↦ do
    focus ← follow_focus turns i ws start
    redirect ← redirect_override turns i ws focus
    override ← dropdown_override turns i ws focus redirect
    some (focus_on i previous game_focused focus override)
]
