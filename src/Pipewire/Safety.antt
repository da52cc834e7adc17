-- ===== src/Pipewire/Safety.antt =====
-- No operation on the shared buffers fails (src/pipewire.cpp, src/steamcompmgr.cpp).
use gamescope.Common.{
  Bool, Bool-cases, Option, Option-cases, ap, arith, false, if-false, if-true, if◌then◌else◌, inl,
  inr, none, refl, some, some-injective, subst, sym, true, ℕ, ◌>>=◌, ◌∙◌, ◌≡◌,
}
use gamescope.Pipewire.{
  PipewireBuffer, PipewireEvent, PipewireState, add_buffer, dequeue_pipewire_buffer, destroy_buffer,
  destroy_unless_copying, detach_buffer, dispatch_nudge, drop_stale, give_back, hold_one,
  no_buffers, nudge, offer, on_pipewire_event, paint, paint_pipewire, push_held,
  push_pipewire_buffer, put, remove_buffer, request_buffer, set_copying, state_changed, store,
  stream_handle_add_buffer, stream_handle_remove_buffer, take_offered,
}
use gamescope.Pipewire.Ownership.{
  IsAllowed, IsOwned, deleted-IsOwned, destroy_lem, destroyed, is_dead, is_lent, is_ready, put-each,
  put_other, put_same, ready_not_lent, stale_dropped-IsOwned,
}

abbrev IsGiven : Option ℕ → PipewireState → Type 0
IsGiven none s = Unit
IsGiven (some b) s = s.queued b ≡ true

-- A step that does not fail, and keeps the ownership.
abbrev pub Succeeds : Option PipewireState → Type 0
Succeeds o = (t : PipewireState) × (o ≡ some t) × IsOwned t

not_true : (b : Bool) → (b ≡ true → ⊥) → b ≡ false
not_true true h = absurd (h refl)
not_true false h = refl

pub lent_buffer :
    (o : Option PipewireBuffer)
    → is_lent o ≡ true
    → (x : PipewireBuffer) × (o ≡ some x) × (x.copying ≡ true)
lent_buffer none e = ground arith
lent_buffer (some x) e = (x, refl, e)

pub ready_buffer :
    (o : Option PipewireBuffer)
    → is_ready o ≡ true
    → (x : PipewireBuffer) × (o ≡ some x) × (x.has_pw_buffer ≡ true) × (x.copying ≡ false)
ready_buffer none e = ground arith
ready_buffer (some x) e = (x, refl, ground arith, ground arith)

pub drop_stale_lem :
    (b : ℕ) (x : PipewireBuffer) (s : PipewireState)
    → s.held ≡ some b
    → s.heap b ≡ some x
    → drop_stale s ≡ (
        if x.has_pw_buffer
        then some s
        else destroy_buffer b s >>= λ t. some (record t { held = none }))
unfolding drop_stale
drop_stale_lem b x s e found = simp (e, found, drop_stale) refl

drop_stale-Succeeds :
    (s : PipewireState)
    → IsOwned s
    → (t : PipewireState) × (drop_stale s ≡ some t) × IsOwned t × (t.queued ≡ s.queued)
unfolding drop_stale
drop_stale-Succeeds s own = elim (Option-cases s.held) [
  | inl nothing ↦ (s, simp (nothing, drop_stale) refl, own, refl)
  | inr (b, e) ↦
      let (x, found, lent) = lent_buffer (s.heap b) (own.holding b e) in
      elim (Bool-cases x.has_pw_buffer) [
        | inl fresh ↦ (s, drop_stale_lem b x s e found ∙ if-true _ _ fresh, own, refl)
        | inr stale ↦ (
          record (destroyed b s) { held = none },
          drop_stale_lem b x s e found
              ∙ if-false _ _ stale
              ∙ ap (λ (o : Option PipewireState). o >>= λ t. some (record t { held = none }))
                  (destroy_lem b x s found stale),
          stale_dropped-IsOwned b s own e,
          refl,
        )
      ]
]

-- The state after a given buffer is marked, offered and taken.
abbrev given_to_compositor : ℕ → PipewireBuffer → PipewireState → PipewireState
given_to_compositor b x s = record s {
  heap = put b (some (record x { copying = true })) s.heap;
  queued = put b false s.queued;
  held = some b;
  out_buffer = none;
}

given-IsOwned :
    (b : ℕ) (x : PipewireBuffer) (s : PipewireState)
    → IsOwned s
    → s.heap b ≡ some x
    → x.copying ≡ false
    → IsOwned (given_to_compositor b x s)
given-IsOwned b x s own e idle =
    let not_lent : is_lent (s.heap b) ≡ true → ⊥ =
      λ lent. let copies = subst (λ o. is_lent o ≡ true) e lent in ground arith in
    record {
      offered = refl;
      holding =
          put-each (λ c o. some b ≡ some c → is_lent o ≡ true) b _ s.heap (λ f. refl)
            (λ c other f. absurd (ground arith));
      returning =
          put-each (λ c o. s.in_buffer ≡ some c → is_lent o ≡ true) b _ s.heap (λ f. refl)
            (λ c other. own.returning c);
      apart = λ c f g. not_lent (own.returning b (g ∙ sym f));
      giving =
          put-each (λ c o. put b false s.queued c ≡ true → is_ready o ≡ true) b _ s.heap
            (λ q. absurd (ground arith)) (λ c other q. own.giving c (sym (if-false _ _ other) ∙ q));
      kept = put-each (λ c o. is_dead o ≡ false) b _ s.heap (ground arith) (λ c other. own.kept c);
    }

offer-empty :
    (b : ℕ) (s : PipewireState)
    → s.out_buffer ≡ none
    → offer b s ≡ some (record s { out_buffer = some b })
unfolding offer
offer-empty b s e = simp (e, offer) refl

set_copying_lem :
    (b : ℕ) (copying : Bool) (x : PipewireBuffer) (s : PipewireState)
    → s.heap b ≡ some x
    → set_copying b copying s ≡ some (store b (record x { copying = copying }) s)
unfolding set_copying
set_copying_lem b copying x s e = simp (e, set_copying) refl

taken_nothing-IsOwned : (s : PipewireState) → IsOwned s → IsOwned (take_offered s)
unfolding take_offered
taken_nothing-IsOwned s own =
    let nothing : (c : ℕ) → s.out_buffer ≡ some c → ⊥ =
      λ c e. let clash = sym own.offered ∙ e in ground arith in
    record {
      offered = refl;
      holding = λ c f. absurd (nothing c f);
      returning = own.returning;
      apart = λ c f g. nothing c f;
      giving = own.giving;
      kept = own.kept;
    }

request_lem :
    (b : ℕ) (x : PipewireBuffer) (s : PipewireState)
    → s.heap b ≡ some x
    → s.out_buffer ≡ none
    → request_buffer (some b) s
      ≡ some (record s {
        heap = put b (some (record x { copying = true })) s.heap;
        queued = put b false s.queued;
        out_buffer = some b;
      })
unfolding request_buffer
request_lem b x s found empty =
    ap (λ o. o >>= offer b)
      (set_copying_lem b true x (record s { queued = put b false s.queued }) found)
    ∙ offer-empty b _ empty

dequeue-Succeeds :
    (given : Option ℕ) (s : PipewireState)
    → IsOwned s
    → IsGiven given s
    → Succeeds (dequeue_pipewire_buffer given s)
unfolding dequeue_pipewire_buffer request_buffer take_offered
dequeue-Succeeds given s own allowed = elim (Bool-cases s.streaming) [
  | inr paused ↦ (
    take_offered s,
    ap (λ o. o >>= λ t. some (take_offered t)) (if-false _ _ paused),
    taken_nothing-IsOwned s own,
  )
  | inl streams ↦ requested given allowed streams
]
  where
    requested :
        (given : Option ℕ)
        → IsGiven given s
        → s.streaming ≡ true
        → Succeeds (dequeue_pipewire_buffer given s)
    requested none allowed streams = (
      take_offered s,
      ap (λ o. o >>= λ t. some (take_offered t)) (if-true _ _ streams),
      taken_nothing-IsOwned s own,
    )
    requested (some b) allowed streams =
        let (x, found, attached, idle) = ready_buffer (s.heap b) (own.giving b allowed) in
        (
          given_to_compositor b x s,
          ap (λ o. o >>= λ t. some (take_offered t))
              (if-true _ _ streams ∙ request_lem b x s found own.offered),
          given-IsOwned b x s own found idle,
        )

hold_one-Succeeds :
    (given : Option ℕ) (s : PipewireState)
    → IsOwned s
    → IsGiven given s
    → Succeeds (hold_one given s)
unfolding hold_one
hold_one-Succeeds given s own allowed = elim (Option-cases s.held) [
  | inl nothing ↦
      let (t, e, owned) = dequeue-Succeeds given s own allowed in
      (t, simp (nothing, hold_one) e, owned)
  | inr (b, e) ↦ (s, simp (e, hold_one) refl, own)
]

push_none : (painted : Bool) (s : PipewireState) → s.held ≡ none → push_held painted s ≡ s
unfolding push_held
push_none painted s e = simp (e, push_held) refl

push_some :
    (painted : Bool) (b : ℕ) (s : PipewireState)
    → s.held ≡ some b
    → push_held painted s
      ≡ (if painted then record (push_pipewire_buffer b s) { held = none } else s)
unfolding push_held
push_some painted b s e = simp (e, push_held) refl

pushed-IsOwned : (painted : Bool) (s : PipewireState) → IsOwned s → IsOwned (push_held painted s)
unfolding push_pipewire_buffer
pushed-IsOwned painted s own = elim (Option-cases s.held) [
  | inl nothing ↦ subst IsOwned (sym (push_none painted s nothing)) own
  | inr (b, e) ↦
      subst IsOwned (sym (push_some painted b s e))
        (elim painted
          as (λ k. IsOwned (if k then record (push_pipewire_buffer b s) { held = none } else s)) [
            | false ↦ own
            | true ↦ record {
              offered = own.offered;
              holding = λ c f. absurd (ground arith);
              returning = λ c f. own.holding c (e ∙ f);
              apart = λ c f g. ground arith;
              giving = own.giving;
              kept = own.kept;
            }
          ])
]

paint-Succeeds :
    (given : Option ℕ) (painted : Bool) (s : PipewireState)
    → IsOwned s
    → IsGiven given s
    → Succeeds (paint_pipewire given painted s)
unfolding paint_pipewire
paint-Succeeds given painted s own allowed =
    let (fresh, ed, owned, queued) = drop_stale-Succeeds s own in
    let (holding, eh, held) =
      hold_one-Succeeds given fresh owned (still_given given s fresh queued allowed) in
    (push_held painted holding, rw (ed, eh) refl, pushed-IsOwned painted holding held)
  where
    still_given :
        (given : Option ℕ) (s t : PipewireState)
        → t.queued ≡ s.queued
        → IsGiven given s
        → IsGiven given t
    still_given none s t e h = tt
    still_given (some b) s t e h = ap (λ q. q b) e ∙ h

abbrev back : PipewireState → PipewireState
back s = record s { in_buffer = none; nudges = 0 }

back-IsOwned : (s : PipewireState) → IsOwned s → IsOwned (back s)
back-IsOwned s own = record {
  offered = own.offered;
  holding = own.holding;
  returning = λ c f. absurd (ground arith);
  apart = λ c f g. ground arith;
  giving = own.giving;
  kept = own.kept;
}

-- A lent buffer that nobody refers to becomes the stream's.
queued-IsOwned :
    (b : ℕ) (x : PipewireBuffer) (s : PipewireState)
    → IsOwned s
    → (s.held ≡ some b → ⊥)
    → (s.in_buffer ≡ some b → ⊥)
    → x.has_pw_buffer ≡ true
    → x.copying ≡ false
    → IsOwned (record (store b x s) { queued = put b true s.queued })
queued-IsOwned b x s own not_held not_returning attached idle = record {
  offered = own.offered;
  holding =
      put-each (λ c o. s.held ≡ some c → is_lent o ≡ true) b (some x) s.heap
        (λ f. absurd (not_held f)) (λ c other. own.holding c);
  returning =
      put-each (λ c o. s.in_buffer ≡ some c → is_lent o ≡ true) b (some x) s.heap
        (λ f. absurd (not_returning f)) (λ c other. own.returning c);
  apart = own.apart;
  giving =
      put-each (λ c o. put b true s.queued c ≡ true → is_ready o ≡ true) b (some x) s.heap
        (λ q. rw (attached, idle) refl) (λ c other q. own.giving c (sym (if-false _ _ other) ∙ q));
  kept =
      put-each (λ c o. is_dead o ≡ false) b (some x) s.heap (rw attached refl)
        (λ c other. own.kept c);
}

nudge_some :
    (b : ℕ) (s : PipewireState) → s.in_buffer ≡ some b → dispatch_nudge s ≡ give_back b (back s)
unfolding dispatch_nudge
nudge_some b s e = simp (e, dispatch_nudge) refl

give_back_lem :
    (b : ℕ) (x : PipewireBuffer) (s : PipewireState)
    → s.heap b ≡ some x
    → let t = store b (record x { copying = false }) s in
      give_back b s ≡ (
        if x.has_pw_buffer
        then some (record t { queued = put b true t.queued })
        else destroy_buffer b t)
unfolding give_back
give_back_lem b x s e = simp (e, give_back) refl

nudge-Succeeds : (s : PipewireState) → IsOwned s → Succeeds (dispatch_nudge s)
unfolding dispatch_nudge
nudge-Succeeds s own = elim (Option-cases s.in_buffer) [
  | inl nothing ↦ (back s, simp (nothing, dispatch_nudge) refl, back-IsOwned s own)
  | inr (b, e) ↦
      let (x, found, lent) = lent_buffer (s.heap b) (own.returning b e) in
      let returned = record x { copying = false } in
      let owned = back-IsOwned s own in
      let not_held = λ (f : s.held ≡ some b). own.apart b f e in
      let given = nudge_some b s e ∙ give_back_lem b x (back s) found in
      elim (Bool-cases x.has_pw_buffer) [
        | inl attached ↦ (
          record (store b returned (back s)) { queued = put b true s.queued },
          given ∙ if-true _ _ attached,
          queued-IsOwned b returned (back s) owned not_held (λ f. ground arith) attached refl,
        )
        | inr stale ↦ (
          destroyed b (store b returned (back s)),
          given
              ∙ if-false _ _ stale
              ∙ destroy_lem b returned (store b returned (back s))
                  (put_same b (some returned) s.heap) stale,
          deleted-IsOwned b returned (back s) s.queued owned not_held (λ f. ground arith)
              (not_true (s.queued b)
                (λ q. ready_not_lent (s.heap b) (own.giving b q) (own.returning b e)))
              (λ c other. refl),
        )
      ]
]

detached-IsOwned :
    (b : ℕ) (x : PipewireBuffer) (s : PipewireState)
    → IsOwned s
    → x.copying ≡ true
    → IsOwned (record (store b x s) { queued = put b false s.queued })
detached-IsOwned b x s own lent = record {
  offered = own.offered;
  holding =
      put-each (λ c o. s.held ≡ some c → is_lent o ≡ true) b (some x) s.heap (λ f. lent)
        (λ c other. own.holding c);
  returning =
      put-each (λ c o. s.in_buffer ≡ some c → is_lent o ≡ true) b (some x) s.heap (λ f. lent)
        (λ c other. own.returning c);
  apart = own.apart;
  giving =
      put-each (λ c o. put b false s.queued c ≡ true → is_ready o ≡ true) b (some x) s.heap
        (λ q. absurd (ground arith)) (λ c other q. own.giving c (sym (if-false _ _ other) ∙ q));
  kept =
      put-each (λ c o. is_dead o ≡ false) b (some x) s.heap (simp lent (ground arith))
        (λ c other. own.kept c);
}

pub detach_lem :
    (b : ℕ) (x : PipewireBuffer) (s : PipewireState)
    → s.heap b ≡ some x
    → detach_buffer b s
      ≡ some (record (store b (record x { has_pw_buffer = false }) s) {
        queued = put b false s.queued;
      })
unfolding detach_buffer
detach_lem b x s e = simp (e, detach_buffer) refl

pub unless_copying_lem :
    (b : ℕ) (x : PipewireBuffer) (s : PipewireState)
    → s.heap b ≡ some x
    → destroy_unless_copying b s ≡ (if x.copying then some s else destroy_buffer b s)
unfolding destroy_unless_copying
unless_copying_lem b x s e = simp (e, destroy_unless_copying) refl

pub remove_lem :
    (b : ℕ) (x : PipewireBuffer) (s : PipewireState)
    → s.heap b ≡ some x
    → let detached = record x { has_pw_buffer = false } in
      let t = record (store b detached s) { queued = put b false s.queued } in
      stream_handle_remove_buffer b s ≡ (if x.copying then some t else destroy_buffer b t)
unfolding stream_handle_remove_buffer
remove_lem b x s e =
    let detached = record x { has_pw_buffer = false } in
    ap (λ o. o >>= destroy_unless_copying b) (detach_lem b x s e)
    ∙ unless_copying_lem b detached (record (store b detached s) { queued = put b false s.queued })
        (put_same b (some detached) s.heap)

remove-Succeeds :
    (b : ℕ) (x : PipewireBuffer) (s : PipewireState)
    → IsOwned s
    → s.heap b ≡ some x
    → Succeeds (stream_handle_remove_buffer b s)
remove-Succeeds b x s own found =
    let detached = record x { has_pw_buffer = false } in
    let t = record (store b detached s) { queued = put b false s.queued } in
    elim (Bool-cases x.copying) [
      | inl lent ↦
          (t, remove_lem b x s found ∙ if-true _ _ lent, detached-IsOwned b detached s own lent)
      | inr idle ↦
          let not_lent : is_lent (s.heap b) ≡ true → ⊥ =
            λ lent. let copies = subst (λ o. is_lent o ≡ true) found lent in ground arith in
          (
            destroyed b t,
            remove_lem b x s found
                ∙ if-false _ _ idle
                ∙ destroy_lem b detached t (put_same b (some detached) s.heap) refl,
            deleted-IsOwned b detached s (put b false s.queued) own
                (λ f. not_lent (own.holding b f)) (λ f. not_lent (own.returning b f))
                (put_same b false s.queued) (put_other b false s.queued),
          )
    ]

added-IsOwned :
    (b : ℕ) (s : PipewireState)
    → IsOwned s
    → s.heap b ≡ none
    → IsOwned (stream_handle_add_buffer b true s)
unfolding stream_handle_add_buffer
added-IsOwned b s own free =
    let not_lent : is_lent (s.heap b) ≡ true → ⊥ =
      λ lent. let copies = subst (λ o. is_lent o ≡ true) free lent in ground arith in
    queued-IsOwned b (record { has_pw_buffer = true; copying = false }) s own
      (λ f. not_lent (own.holding b f)) (λ f. not_lent (own.returning b f)) refl refl

event-Succeeds :
    (event : PipewireEvent) (s : PipewireState)
    → IsOwned s
    → IsAllowed event s
    → Succeeds (on_pipewire_event event s)
unfolding on_pipewire_event
event-Succeeds (paint none painted) s own allowed = paint-Succeeds none painted s own tt
event-Succeeds (paint (some b) painted) s own allowed =
    paint-Succeeds (some b) painted s own allowed
event-Succeeds nudge s own allowed = nudge-Succeeds s own
event-Succeeds (add_buffer b false) s own (made, free) = absurd (ground arith)
event-Succeeds (add_buffer b true) s own (made, free) =
    (stream_handle_add_buffer b true s, refl, added-IsOwned b s own free)
event-Succeeds (remove_buffer b) s own (x, found, attached) = remove-Succeeds b x s own found
event-Succeeds (state_changed streaming) s own allowed = (
  record s { streaming = streaming },
  refl,
  record {
    offered = own.offered;
    holding = own.holding;
    returning = own.returning;
    apart = own.apart;
    giving = own.giving;
    kept = own.kept;
  },
)

abbrev pub IsStep : PipewireEvent → PipewireState → PipewireState → Type 0
IsStep event s t = IsAllowed event s × (on_pipewire_event event s ≡ some t)

-- The states that events lead to.
pub data IsReachable : PipewireState → Type 0 where
  start : IsReachable no_buffers
  step_to : {s t : PipewireState} (e : PipewireEvent) → IsReachable s → IsStep e s t → IsReachable t

pub reachable-IsOwned : {s : PipewireState} → IsReachable s → IsOwned s
unfolding no_buffers
reachable-IsOwned start = record {
  offered = refl;
  holding = λ b e. absurd (ground arith);
  returning = λ b e. absurd (ground arith);
  apart = λ b e f. ground arith;
  giving = λ b e. absurd (ground arith);
  kept = λ b. refl;
}
reachable-IsOwned (step_to {s} {t} event reached (allowed, e)) =
    let (u, made, owned) = event-Succeeds event s (reachable-IsOwned reached) allowed in
    subst IsOwned (some-injective u t (sym made ∙ e)) owned

-- From no buffers, where the texture and the memory of each buffer can be made and PipeWire gives,
-- adds and removes buffers as it may, events that run one at a time never fail: none uses a deleted
-- buffer, deletes one twice or breaks an assertion. After each, the buffer that the compositor holds
-- and the one on its way back are live and lent and are not the same, a buffer that the stream can
-- give is live, has its pw_buffer and is not lent, and a live buffer without its pw_buffer is lent.
pub reachable_never_fails :
    (s : PipewireState) (event : PipewireEvent)
    → IsReachable s
    → IsAllowed event s
    → Succeeds (on_pipewire_event event s)
reachable_never_fails s event reached allowed =
    event-Succeeds event s (reachable-IsOwned reached) allowed
