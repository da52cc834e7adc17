-- ===== src/Focus/Pick/Override.antt =====
-- The searches for the focus and for its override end where the transient links have no cycle.
use gamescope.Common.{
  All, Bool, Bool-cases, IfSome, List, Option, Option-cases, [], arith, false, if-false, if-true,
  inl, inr, none, not, refl, some, some-injective, subst, suc, sym, true, zero, ℕ, ◌&&◌, ◌<◌, ◌==◌,
  ◌∙◌, ◌∷◌, ◌≡◌, ◌≤◌,
}
use gamescope.Focus.{XwaylandWindow}
use gamescope.Focus.Pick.{find_for_app_ids, is_override_of, parent_of, resolve_overrides}
use gamescope.Focus.Transient.{WindowRef, below_zero, find_window, one_below}

-- A link from a window to another one that is transient for it.
abbrev pub links : Bool → Option XwaylandWindow → Option XwaylandWindow → Bool
links others none parent = false
links others (some y) none = false
links others (some y) (some x) = others && y.transient_for == x.id

abbrev pub is_link : WindowRef → WindowRef → Bool
is_link parent candidate =
    links (not (candidate.address == parent.address)) candidate.window.xwayland
      parent.window.xwayland

pub find_window-found :
    (P : WindowRef → Type 0) (p : WindowRef → Bool) (ws : List WindowRef) (w : WindowRef)
    → All P ws
    → find_window p ws ≡ some w
    → P w × (p w ≡ true)
unfolding find_window
find_window-found P p [] w every e = ground arith
find_window-found P p (v ∷ ws) w (q, every) e = elim (Bool-cases (p v)) [
  | inl holds ↦
      let same = some-injective v w (sym (if-true (some v) (find_window p ws) holds) ∙ e) in
      subst (λ u. P u × (p u ≡ true)) same (q, holds)
  | inr fails ↦
      find_window-found P p ws w every (sym (if-false (some v) (find_window p ws) fails) ∙ e)
]

kinds_are_links :
    (y x : Option XwaylandWindow) (others apart kind : Bool)
    → (elim y [
      | none ↦ false
      | some c ↦ elim x [
        | none ↦ false
        | some p ↦ others && (apart && (c.transient_for == p.id && kind))
      ]
    ])
      ≡ true
    → (links others y x ≡ true) × (apart ≡ true)
kinds_are_links none x others apart kind e = ground arith
kinds_are_links (some c) none others apart kind e = ground arith
kinds_are_links (some c) (some p) true true kind e = (ground arith, refl)
kinds_are_links (some c) (some p) true false kind e = ground arith
kinds_are_links (some c) (some p) false apart kind e = ground arith

overrides_are_links :
    (maybe : Bool) (focus parent candidate : WindowRef)
    → is_override_of maybe focus parent candidate ≡ true
    → (is_link parent candidate ≡ true) × (not (candidate.address == focus.address) ≡ true)
unfolding is_override_of
overrides_are_links maybe focus parent candidate e =
    kinds_are_links candidate.window.xwayland parent.window.xwayland _ _ _ e

abbrev with_app_id : ℕ → (WindowRef → Bool) → WindowRef → Bool
with_app_id i p w = w.window.app_id == i && p w

app_id_missing :
    (p : WindowRef → Bool) (i : ℕ) (is : List ℕ) (ws : List WindowRef)
    → find_window (with_app_id i p) ws ≡ none
    → find_for_app_ids p (i ∷ is) ws ≡ find_for_app_ids p is ws
unfolding find_for_app_ids
app_id_missing p i is ws e = rw (e, find_for_app_ids) refl

app_id_found :
    (p : WindowRef → Bool) (i : ℕ) (is : List ℕ) (ws : List WindowRef) (w : WindowRef)
    → find_window (with_app_id i p) ws ≡ some w
    → find_for_app_ids p (i ∷ is) ws ≡ some w
unfolding find_for_app_ids
app_id_found p i is ws w e = rw (e, find_for_app_ids) refl

pub and_right : (c d : Bool) → (c && d) ≡ true → d ≡ true
and_right true d e = e
and_right false d e = ground arith

pub and_left : (c d : Bool) → (c && d) ≡ true → c ≡ true
and_left true d e = refl
and_left false d e = ground arith

pub find_for_app_ids-found :
    (P : WindowRef → Type 0) (p : WindowRef → Bool) (is : List ℕ) (ws : List WindowRef)
    (w : WindowRef)
    → All P ws
    → find_for_app_ids p is ws ≡ some w
    → P w × (p w ≡ true)
unfolding find_for_app_ids
find_for_app_ids-found P p [] ws w every e = ground arith
find_for_app_ids-found P p (i ∷ is) ws w every e =
    elim (Option-cases (find_window (with_app_id i p) ws)) [
      | inl missing ↦
          find_for_app_ids-found P p is ws w every (sym (app_id_missing p i is ws missing) ∙ e)
      | inr (v, found) ↦
          let same = some-injective v w (sym (app_id_found p i is ws v found) ∙ e) in
          let (q, holds) = find_window-found P (with_app_id i p) ws v every found in
          subst (λ u. P u × (p u ≡ true)) same (q, and_right (v.window.app_id == i) (p v) holds)
    ]

-- An override that is a possible window, apart from the focus.
abbrev pub IsApart : (WindowRef → Type 0) → WindowRef → Option WindowRef → Type 0
IsApart P focus override = IfSome (λ o. P o × (not (o.address == focus.address) ≡ true)) override

pub parent_lem :
    (P : WindowRef → Type 0) (focus : WindowRef) (override : Option WindowRef)
    → P focus
    → IsApart P focus override
    → P (parent_of focus override)
unfolding parent_of
parent_lem P focus none p apart = p
parent_lem P focus (some o) p apart = apart.0

resolve_end :
    (turns : ℕ) (maybe : Bool) (ws : List WindowRef) (focus : WindowRef)
    (override : Option WindowRef)
    → find_window (is_override_of maybe focus (parent_of focus override)) ws ≡ none
    → resolve_overrides (suc turns) maybe ws focus override ≡ some override
unfolding resolve_overrides
resolve_end turns maybe ws focus override e = rw (e, resolve_overrides) refl

resolve_turn :
    (turns : ℕ) (maybe : Bool) (ws : List WindowRef) (focus : WindowRef)
    (override : Option WindowRef) (found : WindowRef)
    → find_window (is_override_of maybe focus (parent_of focus override)) ws ≡ some found
    → resolve_overrides (suc turns) maybe ws focus override
      ≡ resolve_overrides turns maybe ws focus (some found)
unfolding resolve_overrides
resolve_turn turns maybe ws focus override found e = rw (e, resolve_overrides) refl

module _ (P : WindowRef → Type 0) (height : WindowRef → ℕ) (ws : List WindowRef) (every : All P ws)
    (descends : (a b : WindowRef) → P a → P b → is_link a b ≡ true → height b < height a) where
  override_step :
      (maybe : Bool) (focus : WindowRef) (override : Option WindowRef) (found : WindowRef)
      → P focus
      → IsApart P focus override
      → find_window (is_override_of maybe focus (parent_of focus override)) ws ≡ some found
      → IsApart P focus (some found) × (height found < height (parent_of focus override))
  override_step maybe focus override found p apart e =
      let (q, kind) = find_window-found P _ ws found every e in
      let (linked, other) = overrides_are_links maybe focus (parent_of focus override) found kind in
      (
        (q, other),
        descends (parent_of focus override) found (parent_lem P focus override p apart) q linked,
      )

  pub resolve_overrides-ends :
      (turns : ℕ) (maybe : Bool) (focus : WindowRef) (override : Option WindowRef)
      → P focus
      → IsApart P focus override
      → height (parent_of focus override) ≤ turns
      → (last : Option WindowRef) × ((resolve_overrides (suc turns) maybe ws focus override
            ≡ some last)
          × IsApart P focus last)
  unfolding parent_of
  resolve_overrides-ends zero maybe focus override p apart low =
      elim (Option-cases (find_window (is_override_of maybe focus (parent_of focus override)) ws)) [
        | inl e ↦ (override, (resolve_end zero maybe ws focus override e, apart))
        | inr (found, e) ↦
            absurd (below_zero (override_step maybe focus override found p apart e).1 low)
      ]
  resolve_overrides-ends (suc turns) maybe focus override p apart low =
      elim (Option-cases (find_window (is_override_of maybe focus (parent_of focus override)) ws)) [
        | inl e ↦ (override, (resolve_end (suc turns) maybe ws focus override e, apart))
        | inr (found, e) ↦
            let (apart', down) = override_step maybe focus override found p apart e in
            let (last, (ended, r)) =
              resolve_overrides-ends turns maybe focus (some found) p apart' (one_below down low) in
            (last, (resolve_turn (suc turns) maybe ws focus override found e ∙ ended, r))
      ]
