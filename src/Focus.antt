-- ===== src/Focus.antt =====
-- Which window has focus: the tests on windows and is_focus_priority_greater of src/steamcompmgr.cpp, on
-- the window of src/steamcompmgr_shared.hpp.
pub mod Pick
pub mod Priority
pub mod Transient
pub mod Unordered
mod Examples
use gamescope.Common.{
  Bool, List, Option, false, if◌then◌else◌, ltb, none, not, some, true, ℕ, ◌%◌, ◌&&◌, ◌/◌, ◌==◌,
  ◌||◌,
}
use gamescope.Common.Int.{ℤ}

-- The part of a window of type XWAYLAND.
pub record XwaylandWindow : Type 0 where
  pub id : ℕ
  pub transient_for : ℕ
  pub override_redirect : Bool
  pub map_sequence : ℕ
  pub damage_sequence : ℕ

-- A window of type XDG has no `xwayland`. x, y, width and height are those of
-- GetGeometry. The queue of commits is given by whether each is done.
pub record Window : Type 0 where
  pub xwayland : Option XwaylandWindow
  pub seq : ℕ
  pub pid : ℤ
  pub is_steam_legacy_big_picture : Bool
  pub app_id : ℕ
  pub x : ℤ
  pub y : ℤ
  pub width : ℕ
  pub height : ℕ
  pub is_sys_tray_icon : Bool
  pub ignore_override_redirect : Bool
  pub skip_taskbar : Bool
  pub skip_pager : Bool
  pub is_fullscreen : Bool
  pub is_dialog : Bool
  pub maybe_a_dropdown : Bool
  pub requested_width : ℕ
  pub requested_height : ℕ
  pub has_hwnd_style : Bool
  pub hwnd_style : ℕ
  pub has_hwnd_style_ex : Bool
  pub hwnd_style_ex : ℕ
  pub commits_done : List Bool

-- A bit of a style word.
pub has_bit : ℕ → ℕ → Bool
has_bit word bit = word / bit % 2 == 1

abbrev ws_disabled : ℕ
ws_disabled = 134217728

abbrev ws_ex_controlparent : ℕ
ws_ex_controlparent = 65536

abbrev ws_ex_appwindow : ℕ
ws_ex_appwindow = 262144

abbrev ws_ex_layered : ℕ
ws_ex_layered = 524288

pub win_has_game_id : Window → Bool
win_has_game_id w = not (w.app_id == 0)

pub win_is_useless : Window → Bool
win_is_useless w = w.is_sys_tray_icon || (w.width == 1 && w.height == 1)

pub win_is_override_redirect : Window → Bool
win_is_override_redirect w = elim w.xwayland [
  | none ↦ false
  | some x ↦ x.override_redirect && (not w.ignore_override_redirect && not (win_is_useless w))
]

pub win_skip_taskbar_and_pager : Window → Bool
win_skip_taskbar_and_pager w = w.skip_taskbar && w.skip_pager

pub win_skip_and_not_fullscreen : Window → Bool
win_skip_and_not_fullscreen w = win_skip_taskbar_and_pager w && not w.is_fullscreen

-- valid_maybe_a_dropdown
pub valid_dropdown : Window → XwaylandWindow → Bool
valid_dropdown w x =
    w.maybe_a_dropdown
    && ((not w.is_dialog || (x.transient_for == 0 && win_skip_and_not_fullscreen w))
        && (w.skip_pager || w.skip_taskbar))

pub win_maybe_a_dropdown : Window → Bool
win_maybe_a_dropdown w = elim w.xwayland [
  | none ↦ false
  | some x ↦
      if w.app_id == 230410
        && (w.maybe_a_dropdown && (not (x.transient_for == 0) && (w.skip_pager || w.skip_taskbar)))
      then not (win_is_useless w)
      else if w.app_id == 219890
      then false
      else if w.has_hwnd_style_ex
          && (has_bit w.hwnd_style_ex ws_ex_controlparent
              && (has_bit w.hwnd_style_ex ws_ex_layered
                  && not (has_bit w.hwnd_style_ex ws_ex_appwindow)))
      then true
      else if (w.app_id == 1293830 || w.app_id == 1551360)
          && (w.maybe_a_dropdown && (w.requested_width == 0 && w.requested_height == 0))
      then false
      else (valid_dropdown w x || win_is_override_redirect w) && not (win_is_useless w)
]

pub win_is_disabled : Window → Bool
win_is_disabled w = w.has_hwnd_style && has_bit w.hwnd_style ws_disabled

-- One criterion: a value that differs decides, for the window that has it.
pub prefer : Bool → Bool → Option Bool → Option Bool
prefer true true rest = rest
prefer false false rest = rest
prefer true false rest = some true
prefer false true rest = some false

pub differ : Bool → Bool → Bool
differ p q = if p then not q else q

-- The criteria between two XWAYLAND windows that the others leave tied.
pub break_tie : Window → XwaylandWindow → Window → XwaylandWindow → Bool
break_tie a x b y =
    let dropdowns = win_maybe_a_dropdown a && win_maybe_a_dropdown b in
    if dropdowns && differ (x.transient_for == 0) (y.transient_for == 0)
    then x.transient_for == 0
    else if win_has_game_id a && not (x.map_sequence == y.map_sequence)
    then ltb y.map_sequence x.map_sequence
    else if win_has_game_id a && not (x.damage_sequence == y.damage_sequence)
    then ltb y.damage_sequence x.damage_sequence
    else false

-- The first window has no priority over the second one, or has it, or the comparison throws
-- std::bad_variant_access, which is none: an XDG window has no map sequence.
pub compare_tied : Window → Window → Option Bool
compare_tied a b = elim a.xwayland [
  | none ↦ some true
  | some x ↦ elim b.xwayland [
    | none ↦ if win_has_game_id a then none else some false
    | some y ↦ some (break_tie a x b y)
  ]
]

pub is_focus_priority_greater : Window → Window → Option Bool
is_focus_priority_greater a b =
    let dropdowns = win_maybe_a_dropdown a && win_maybe_a_dropdown b in
    let tied = compare_tied a b in
    prefer (win_has_game_id a) (win_has_game_id b) (
      prefer (not (win_is_override_redirect a)) (not (win_is_override_redirect b)) (
        prefer (not (win_is_useless a)) (not (win_is_useless b)) (
          prefer (not (win_maybe_a_dropdown a)) (not (win_maybe_a_dropdown b)) (
            prefer (not (win_is_disabled a)) (not (win_is_disabled b)) (
              prefer (not (win_skip_and_not_fullscreen a)) (not (win_skip_and_not_fullscreen b)) (
                if dropdowns && differ a.is_dialog b.is_dialog
                then some (not a.is_dialog)
                else tied))))))
