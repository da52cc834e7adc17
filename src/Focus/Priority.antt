-- ===== src/Focus/Priority.antt =====
-- The focus priority of XWAYLAND windows is the order of a rank (src/steamcompmgr.cpp).
use gamescope.Common.{
  Bool, IsU64, Option, ap, arith, false, if◌then◌else◌, ltb, not, refl, some, sym, true, ℕ, ◌&&◌,
  ◌*◌, ◌+◌, ◌<◌, ◌==◌, ◌^◌, ◌∙◌, ◌≡◌,
}
use gamescope.Focus.{
  Window, XwaylandWindow, break_tie, compare_tied, differ, is_focus_priority_greater, prefer,
  win_has_game_id, win_is_disabled, win_is_override_redirect, win_is_useless, win_maybe_a_dropdown,
  win_skip_and_not_fullscreen,
}

-- One criterion above the lower ones, of which there are fewer than `size`.
abbrev above : ℕ → Bool → ℕ → ℕ
above size criterion lower = (if criterion then size else 0) + lower

prefer-above :
    (size : ℕ) (p q : Bool) (lower lower' : ℕ) (rest : Option Bool)
    → lower < size
    → lower' < size
    → (p ≡ q → rest ≡ some (ltb lower' lower))
    → prefer p q rest ≡ some (ltb (above size q lower') (above size p lower))
unfolding prefer
prefer-above size true true lower lower' rest h h' tied = tied refl ∙ ap some (ground arith)
prefer-above size false false lower lower' rest h h' tied = tied refl ∙ ap some (ground arith)
prefer-above size true false lower lower' rest h h' tied = ap some (ground arith)
prefer-above size false true lower lower' rest h h' tied = ap some (ground arith)

-- The sequences count for games, and dialogs and transients count as dropdowns only.
abbrev sequences_rank : Bool → ℕ → ℕ → ℕ
sequences_rank game m s = if game then m * 18446744073709551616 + s else 0

abbrev tie_rank : Window → XwaylandWindow → ℕ
tie_rank w x = above (2 ^ 129) (win_maybe_a_dropdown w && not w.is_dialog) (
    above (2 ^ 128) (win_maybe_a_dropdown w && x.transient_for == 0)
      (sequences_rank (win_has_game_id w) x.map_sequence x.damage_sequence))

pub priority_rank : Window → XwaylandWindow → ℕ
priority_rank w x = above (2 ^ 135) (win_has_game_id w) (
    above (2 ^ 134) (not (win_is_override_redirect w)) (
      above (2 ^ 133) (not (win_is_useless w)) (
        above (2 ^ 132) (not (win_maybe_a_dropdown w)) (
          above (2 ^ 131) (not (win_is_disabled w))
            (above (2 ^ 130) (not (win_skip_and_not_fullscreen w)) (tie_rank w x))))))

sequences_decide :
    (game : Bool) (m m' s s' : ℕ)
    → IsU64 s
    → IsU64 s'
    → (if game && not (m == m')
        then ltb m' m
        else if game && not (s == s')
        then ltb s' s
        else false)
      ≡ ltb
          (if game then m' * 18446744073709551616 + s' else 0)
          (if game then m * 18446744073709551616 + s else 0)
sequences_decide true m m' s s' h h' = ground arith
sequences_decide false m m' s s' h h' = ground arith

-- A criterion that counts for dropdowns only.
dropdowns_decide :
    (size : ℕ) (dropdown p q : Bool) (lower lower' : ℕ)
    → lower < size
    → lower' < size
    → (if (dropdown && dropdown) && differ p q then p else ltb lower' lower)
      ≡ ltb (above size (dropdown && q) lower') (above size (dropdown && p) lower)
unfolding differ
dropdowns_decide size false p q lower lower' h h' = ground arith
dropdowns_decide size true true true lower lower' h h' = ground arith
dropdowns_decide size true false false lower lower' h h' = ground arith
dropdowns_decide size true true false lower lower' h h' = ground arith
dropdowns_decide size true false true lower lower' h h' = ground arith

differ-not : (p q : Bool) → differ (not p) (not q) ≡ differ p q
unfolding differ
differ-not true true = refl
differ-not true false = refl
differ-not false true = refl
differ-not false false = refl

some-if : (c p q : Bool) → (if c then some p else some q) ≡ some (if c then p else q)
some-if true p q = refl
some-if false p q = refl

-- The lower criteria leave room for one more.
above-lt :
    (size bound : ℕ) (criterion : Bool) (lower : ℕ)
    → lower < size
    → bound ≡ size + size
    → above size criterion lower < bound
above-lt size bound true lower h e = omega arith
above-lt size bound false lower h e = omega arith

not-injective : (p q : Bool) → not p ≡ not q → p ≡ q
not-injective true true e = refl
not-injective true false e = sym e
not-injective false true e = sym e
not-injective false false e = refl

sequences-lt : (game : Bool) (m s : ℕ) → IsU64 m → IsU64 s → sequences_rank game m s < 2 ^ 128
sequences-lt true m s h h' = omega arith
sequences-lt false m s h h' = omega arith

module _ (dropdown game da db ta tb : Bool) (m m' s s' : ℕ) (hm : IsU64 m) (hm' : IsU64 m')
    (hs : IsU64 s) (hs' : IsU64 s') where
  transients_decide :
      (if (dropdown && dropdown) && differ ta tb
        then ta
        else if game && not (m == m')
        then ltb m' m
        else if game && not (s == s')
        then ltb s' s
        else false)
      ≡ ltb
          (above (2 ^ 128) (dropdown && tb) (sequences_rank game m' s'))
          (above (2 ^ 128) (dropdown && ta) (sequences_rank game m s))
  transients_decide =
      ap (λ t. if (dropdown && dropdown) && differ ta tb then ta else t)
        (sequences_decide game m m' s s' hs hs')
      ∙ dropdowns_decide (2 ^ 128) dropdown ta tb _ _ (sequences-lt game m s hm hs)
          (sequences-lt game m' s' hm' hs')

  ties_decide :
      (if (dropdown && dropdown) && differ da db
        then not da
        else if (dropdown && dropdown) && differ ta tb
        then ta
        else if game && not (m == m')
        then ltb m' m
        else if game && not (s == s')
        then ltb s' s
        else false)
      ≡ ltb
          (above
            (2 ^ 129)
            (dropdown && not db)
            (above (2 ^ 128) (dropdown && tb) (sequences_rank game m' s')))
          (above
            (2 ^ 129)
            (dropdown && not da)
            (above (2 ^ 128) (dropdown && ta) (sequences_rank game m s)))
  ties_decide =
      let rank = above (2 ^ 128) (dropdown && ta) (sequences_rank game m s) in
      let rank' = above (2 ^ 128) (dropdown && tb) (sequences_rank game m' s') in
      ap (λ t. if (dropdown && dropdown) && differ da db then not da else t) transients_decide
      ∙ ap (λ c. if (dropdown && dropdown) && c then not da else ltb rank' rank)
          (sym (differ-not da db))
      ∙ dropdowns_decide (2 ^ 129) dropdown (not da) (not db) _ _
          (above-lt (2 ^ 128) _ _ _ (sequences-lt game m s hm hs) refl)
          (above-lt (2 ^ 128) _ _ _ (sequences-lt game m' s' hm' hs') refl)

tie_rank-lt :
    (w : Window) (z : XwaylandWindow)
    → IsU64 z.map_sequence
    → IsU64 z.damage_sequence
    → tie_rank w z < 2 ^ 130
tie_rank-lt w z h h' =
    above-lt (2 ^ 129) _ _ _
      (above-lt (2 ^ 128) _ _ _ (sequences-lt (win_has_game_id w) _ _ h h') refl) refl

module _ (a b : Window) (x y : XwaylandWindow) (ex : a.xwayland ≡ some x) (ey : b.xwayland ≡ some y)
    (hx : IsU64 x.map_sequence) (hx' : IsU64 x.damage_sequence) (hy : IsU64 y.map_sequence)
    (hy' : IsU64 y.damage_sequence) where
  compare_tied-some : compare_tied a b ≡ some (break_tie a x b y)
  unfolding compare_tied
  compare_tied-some = rw (ex, ey) refl

  tied_decides :
      win_has_game_id a ≡ win_has_game_id b
      → win_maybe_a_dropdown a ≡ win_maybe_a_dropdown b
      → (if (win_maybe_a_dropdown a && win_maybe_a_dropdown b) && differ a.is_dialog b.is_dialog
          then some (not a.is_dialog)
          else compare_tied a b)
        ≡ some (ltb (tie_rank b y) (tie_rank a x))
  unfolding break_tie
  tied_decides games dropdowns =
      rw (compare_tied-some, some-if _ _ _, games, dropdowns)
        (ap some (ties_decide _ _ a.is_dialog b.is_dialog _ _ _ _ _ _ hx hy hx' hy'))

  -- Between XWAYLAND windows with sequence numbers in uint64_t, the comparison does not throw, and is
  -- that of a rank, by which the windows are strictly and weakly ordered.
  pub focus_priority-IsRank :
      is_focus_priority_greater a b ≡ some (ltb (priority_rank b y) (priority_rank a x))
  unfolding is_focus_priority_greater priority_rank
  focus_priority-IsRank =
      let la = tie_rank-lt a x hx hx' in
      let lb = tie_rank-lt b y hy hy' in
      let la1 = above-lt (2 ^ 130) (2 ^ 131) (not (win_skip_and_not_fullscreen a)) _ la refl in
      let lb1 = above-lt (2 ^ 130) (2 ^ 131) (not (win_skip_and_not_fullscreen b)) _ lb refl in
      let la2 = above-lt (2 ^ 131) (2 ^ 132) (not (win_is_disabled a)) _ la1 refl in
      let lb2 = above-lt (2 ^ 131) (2 ^ 132) (not (win_is_disabled b)) _ lb1 refl in
      let la3 = above-lt (2 ^ 132) (2 ^ 133) (not (win_maybe_a_dropdown a)) _ la2 refl in
      let lb3 = above-lt (2 ^ 132) (2 ^ 133) (not (win_maybe_a_dropdown b)) _ lb2 refl in
      let la4 = above-lt (2 ^ 133) (2 ^ 134) (not (win_is_useless a)) _ la3 refl in
      let lb4 = above-lt (2 ^ 133) (2 ^ 134) (not (win_is_useless b)) _ lb3 refl in
      let la5 = above-lt (2 ^ 134) (2 ^ 135) (not (win_is_override_redirect a)) _ la4 refl in
      let lb5 = above-lt (2 ^ 134) (2 ^ 135) (not (win_is_override_redirect b)) _ lb4 refl in
      prefer-above (2 ^ 135) _ _ _ _ _ la5 lb5 λ games.
        prefer-above (2 ^ 134) _ _ _ _ _ la4 lb4 λ redirects.
          prefer-above (2 ^ 133) _ _ _ _ _ la3 lb3 λ useless.
            prefer-above (2 ^ 132) _ _ _ _ _ la2 lb2 λ dropdowns.
              prefer-above (2 ^ 131) _ _ _ _ _ la1 lb1 λ disabled.
                prefer-above (2 ^ 130) _ _ _ _ _ la lb
                  λ skipped. tied_decides games (not-injective _ _ dropdowns)
