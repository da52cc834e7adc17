-- ===== src/Pipewire/Ownership.antt =====
-- Who owns a PipeWire buffer (src/pipewire.cpp).
use gamescope.Common.{
  ==_iff, Bool, Bool-cases, Option, ap, arith, false, if-false, if-true, inl, inr, none, not, refl,
  some, subst, sym, true, ℕ, ◌&&◌, ◌==◌, ◌∙◌, ◌≡◌,
}
use gamescope.Pipewire.{
  PipewireBuffer, PipewireEvent, PipewireState, add_buffer, clear_if, destroy_buffer, nudge, paint,
  put, remove_buffer, state_changed, store,
}
use gamescope.Rc.Steps.{elsewhere}

-- The buffer is with the compositor or on its way back.
abbrev pub is_lent : Option PipewireBuffer → Bool
is_lent none = false
is_lent (some x) = x.copying

-- The stream can give the buffer.
abbrev pub is_ready : Option PipewireBuffer → Bool
is_ready none = false
is_ready (some x) = x.has_pw_buffer && not x.copying

-- Nobody would delete the buffer any more.
abbrev pub is_dead : Option PipewireBuffer → Bool
is_dead none = false
is_dead (some x) = not x.has_pw_buffer && not x.copying

pub record IsOwned (s : PipewireState) : Type 0 where
  pub offered : s.out_buffer ≡ none
  pub holding : (b : ℕ) → s.held ≡ some b → is_lent (s.heap b) ≡ true
  pub returning : (b : ℕ) → s.in_buffer ≡ some b → is_lent (s.heap b) ≡ true
  pub apart : (b : ℕ) → s.held ≡ some b → s.in_buffer ≡ some b → ⊥
  pub giving : (b : ℕ) → s.queued b ≡ true → is_ready (s.heap b) ≡ true
  pub kept : (b : ℕ) → is_dead (s.heap b) ≡ false

-- What PipeWire does: it gives a buffer that it was given to queue, adds one at a free address, and
-- removes one that it has added; and the texture and the memory of each buffer can be made.
abbrev pub IsAllowed : PipewireEvent → PipewireState → Type 0
IsAllowed (paint none painted) s = Unit
IsAllowed (paint (some b) painted) s = s.queued b ≡ true
IsAllowed nudge s = Unit
IsAllowed (add_buffer b made) s = (made ≡ true) × (s.heap b ≡ none)
IsAllowed (remove_buffer b) s =
    (x : PipewireBuffer) × (s.heap b ≡ some x) × (x.has_pw_buffer ≡ true)
IsAllowed (state_changed streaming) s = Unit

pub put-each {ℓ κ} :
    {A : Type ℓ} (P : ℕ → A → Type κ) (b : ℕ) (v : A) (f : ℕ → A)
    → P b v
    → ((c : ℕ) → (c == b) ≡ false → P c (f c))
    → (c : ℕ) → P c (put b v f c)
put-each P b v f at_b elsewhere c = elim (Bool-cases (c == b)) [
  | inl same ↦
      subst (P c) (sym (if-true _ _ same)) (subst (λ d. P d v) (sym ((==_iff c b).0 same)) at_b)
  | inr other ↦ subst (P c) (sym (if-false _ _ other)) (elsewhere c other)
]

clear_if-some :
    (b : ℕ) (o : Option ℕ) (c : ℕ) → clear_if b o ≡ some c → (o ≡ some c) × ((c == b) ≡ false)
unfolding clear_if
clear_if-some b none c e = ground arith
clear_if-some b (some d) c e = elim (Bool-cases (d == b)) [
  | inl same ↦ ground arith
  | inr other ↦ ground arith
]

abbrev pub destroyed : ℕ → PipewireState → PipewireState
destroyed b s = record s {
  heap = put b none s.heap;
  out_buffer = clear_if b s.out_buffer;
  in_buffer = clear_if b s.in_buffer;
}

pub destroy_lem :
    (b : ℕ) (x : PipewireBuffer) (s : PipewireState)
    → s.heap b ≡ some x
    → x.has_pw_buffer ≡ false
    → destroy_buffer b s ≡ some (destroyed b s)
unfolding destroy_buffer
destroy_lem b x s e stale = rw (e, stale, destroy_buffer) refl

pub ready_not_lent : (o : Option PipewireBuffer) → is_ready o ≡ true → is_lent o ≡ true → ⊥
ready_not_lent none ready lent = ground arith
ready_not_lent (some x) ready lent = ground arith

pub put_same {ℓ} : {A : Type ℓ} (b : ℕ) (v : A) (f : ℕ → A) → put b v f b ≡ v
put_same b v f = if-true v (f b) ((==_iff b b).1 refl)

pub put_other {ℓ} :
    {A : Type ℓ} (b : ℕ) (v : A) (f : ℕ → A) (c : ℕ) → (c == b) ≡ false → put b v f c ≡ f c
put_other b v f c other = if-false v (f c) other

-- A buffer that nobody refers to is deleted, whatever its fields are.
pub deleted-IsOwned :
    (b : ℕ) (x : PipewireBuffer) (s : PipewireState) (queued : ℕ → Bool)
    → IsOwned s
    → (s.held ≡ some b → ⊥)
    → (s.in_buffer ≡ some b → ⊥)
    → queued b ≡ false
    → ((c : ℕ) → (c == b) ≡ false → queued c ≡ s.queued c)
    → IsOwned (destroyed b (record (store b x s) { queued = queued }))
unfolding clear_if
deleted-IsOwned b x s queued own not_held not_returning not_queued others =
    let heap = put b (some x) s.heap in
    let old = put_other b (some x) s.heap in
    record {
      offered = ap (clear_if b) own.offered;
      holding =
          put-each (λ c o. s.held ≡ some c → is_lent o ≡ true) b none heap
            (λ e. absurd (not_held e))
            (λ c other e. subst (λ o. is_lent o ≡ true) (sym (old c other)) (own.holding c e));
      returning =
          put-each (λ c o. clear_if b s.in_buffer ≡ some c → is_lent o ≡ true) b none heap
            (λ e. absurd (not_returning (clear_if-some b s.in_buffer b e).0))
            (λ c other e.
              subst (λ o. is_lent o ≡ true) (sym (old c other))
                (own.returning c (clear_if-some b s.in_buffer c e).0));
      apart = λ c e f. own.apart c e (clear_if-some b s.in_buffer c f).0;
      giving =
          put-each (λ c o. queued c ≡ true → is_ready o ≡ true) b none heap
            (λ q. absurd (ground arith))
            (λ c other q.
              subst (λ o. is_ready o ≡ true) (sym (old c other))
                (own.giving c (sym (others c other) ∙ q)));
      kept =
          put-each (λ c o. is_dead o ≡ false) b none heap refl
            (λ c other. subst (λ o. is_dead o ≡ false) (sym (old c other)) (own.kept c));
    }

-- A held buffer that has no pw_buffer is deleted and let go.
pub stale_dropped-IsOwned :
    (b : ℕ) (s : PipewireState)
    → IsOwned s
    → s.held ≡ some b
    → IsOwned (record (destroyed b s) { held = none })
unfolding clear_if
stale_dropped-IsOwned b s own e = record {
  offered = ap (clear_if b) own.offered;
  holding = λ c f. ground arith;
  returning =
      put-each (λ c o. clear_if b s.in_buffer ≡ some c → is_lent o ≡ true) b none s.heap
        (λ f. let (same, other) = clear_if-some b s.in_buffer b f in absurd (ground arith))
        (λ c other f. own.returning c (clear_if-some b s.in_buffer c f).0);
  apart = λ c f g. ground arith;
  giving =
      put-each (λ c o. s.queued c ≡ true → is_ready o ≡ true) b none s.heap
        (λ q. absurd (ready_not_lent (s.heap b) (own.giving b q) (own.holding b e)))
        (λ c other. own.giving c);
  kept = put-each (λ c o. is_dead o ≡ false) b none s.heap refl (λ c other. own.kept c);
}
