-- ===== src/Pipewire.antt =====
-- The buffers that the PipeWire thread shares with the compositor: src/pipewire.cpp and .hpp, and
-- paint_pipewire of src/steamcompmgr.cpp. A buffer is an address in a heap; a use of a deleted buffer and a
-- failed assertion give none. PipeWire chooses the buffer that it gives, and when it adds and removes one.
pub mod Ownership
pub mod Race
pub mod Safety
mod Examples
use gamescope.Common.{Bool, Option, false, if◌then◌else◌, none, some, suc, true, ℕ, ◌==◌, ◌>>=◌}

-- `has_pw_buffer` is that the field buffer is not null.
pub record PipewireBuffer : Type 0 where
  pub has_pw_buffer : Bool
  pub copying : Bool

-- `queued` are the buffers that the stream can give; `held` is s_pPipewireBuffer of paint_pipewire.
pub record PipewireState : Type 0 where
  pub heap : ℕ → Option PipewireBuffer
  pub queued : ℕ → Bool
  pub out_buffer : Option ℕ
  pub in_buffer : Option ℕ
  pub held : Option ℕ
  pub streaming : Bool
  pub nudges : ℕ

-- A function changed at one address.
abbrev pub put {ℓ} : {A : Type ℓ} → ℕ → A → (ℕ → A) → ℕ → A
put b v f c = if c == b then v else f c

abbrev pub store : ℕ → PipewireBuffer → PipewireState → PipewireState
store b x s = record s { heap = put b (some x) s.heap }

pub set_copying : ℕ → Bool → PipewireState → Option PipewireState
set_copying b copying s = elim (s.heap b) [
  | none ↦ none
  | some x ↦ some (store b (record x { copying = copying }) s)
]

-- compare_exchange_strong of a pointer with null.
pub clear_if : ℕ → Option ℕ → Option ℕ
clear_if b none = none
clear_if b (some c) = if c == b then none else some c

pub destroy_buffer : ℕ → PipewireState → Option PipewireState
destroy_buffer b s = elim (s.heap b) [
  | none ↦ none
  | some x ↦
      if x.has_pw_buffer
      then none
      else some (record s {
        heap = put b none s.heap;
        out_buffer = clear_if b s.out_buffer;
        in_buffer = clear_if b s.in_buffer;
      })
]

-- out_buffer.exchange, with the assertion that it held nothing.
pub offer : ℕ → PipewireState → Option PipewireState
offer b s = elim s.out_buffer [ none ↦ some (record s { out_buffer = some b }) | some old ↦ none ]

-- `given` is the buffer that pw_stream_dequeue_buffer gives.
pub request_buffer : Option ℕ → PipewireState → Option PipewireState
request_buffer none s = some s
request_buffer (some b) s = do
  marked ← set_copying b true (record s { queued = put b false s.queued })
  offer b marked

pub take_offered : PipewireState → PipewireState
take_offered s = record s { held = s.out_buffer; out_buffer = none }

-- With the result in `held`.
pub dequeue_pipewire_buffer : Option ℕ → PipewireState → Option PipewireState
dequeue_pipewire_buffer given s =
    (if s.streaming then request_buffer given s else some s) >>= λ t. some (take_offered t)

-- An old buffer in in_buffer is logged and forgotten.
pub push_pipewire_buffer : ℕ → PipewireState → PipewireState
push_pipewire_buffer b s = record s { in_buffer = some b; nudges = suc s.nudges }

-- The first part of paint_pipewire: a stale buffer is destroyed.
pub drop_stale : PipewireState → Option PipewireState
drop_stale s = elim s.held [
  | none ↦ some s
  | some b ↦ elim (s.heap b) [
    | none ↦ none
    | some x ↦
        if x.has_pw_buffer
        then some s
        else destroy_buffer b s >>= λ t. some (record t { held = none })
  ]
]

pub hold_one : Option ℕ → PipewireState → Option PipewireState
hold_one given s = elim s.held [ none ↦ dequeue_pipewire_buffer given s | some b ↦ some s ]

-- `painted` is that there is a new frame and it is drawn onto the buffer.
pub push_held : Bool → PipewireState → PipewireState
push_held painted s = elim s.held [
  | none ↦ s
  | some b ↦ if painted then record (push_pipewire_buffer b s) { held = none } else s
]

pub paint_pipewire : Option ℕ → Bool → PipewireState → Option PipewireState
paint_pipewire given painted s = do
  fresh ← drop_stale s
  holding ← hold_one given fresh
  some (push_held painted holding)

-- The part of dispatch_nudge after the buffer is taken from in_buffer.
pub give_back : ℕ → PipewireState → Option PipewireState
give_back b s = elim (s.heap b) [
  | none ↦ none
  | some x ↦
      let t = store b (record x { copying = false }) s in
      if x.has_pw_buffer
      then some (record t { queued = put b true t.queued })
      else destroy_buffer b t
]

-- The pipe is read until it is empty; the renegotiation of the size is left out.
pub dispatch_nudge : PipewireState → Option PipewireState
dispatch_nudge s =
    let taken = record s { in_buffer = none; nudges = 0 } in
    elim s.in_buffer [ none ↦ some taken | some b ↦ give_back b taken ]

-- `made` is that the texture and the memory of the buffer could be made. Otherwise it is deleted at once and
-- the user data of the stream's buffer stay null: there is nothing at the address. Either way the stream
-- can give its buffer.
pub stream_handle_add_buffer : ℕ → Bool → PipewireState → PipewireState
stream_handle_add_buffer b made s = record s {
  heap =
      if made
      then put b (some (record { has_pw_buffer = true; copying = false })) s.heap
      else s.heap;
  queued = put b true s.queued;
}

-- The two halves of stream_handle_remove_buffer. After the first, the stream cannot give the buffer.
pub detach_buffer : ℕ → PipewireState → Option PipewireState
detach_buffer b s = elim (s.heap b) [
  | none ↦ none
  | some x ↦
      some
        (record (store b (record x { has_pw_buffer = false }) s) { queued = put b false s.queued })
]

pub destroy_unless_copying : ℕ → PipewireState → Option PipewireState
destroy_unless_copying b s = elim (s.heap b) [
  | none ↦ none
  | some x ↦ if x.copying then some s else destroy_buffer b s
]

pub stream_handle_remove_buffer : ℕ → PipewireState → Option PipewireState
stream_handle_remove_buffer b s = detach_buffer b s >>= destroy_unless_copying b

pub data PipewireEvent : Type 0 where
  paint : Option ℕ → Bool → PipewireEvent
  nudge : PipewireEvent
  add_buffer : ℕ → Bool → PipewireEvent
  remove_buffer : ℕ → PipewireEvent
  state_changed : Bool → PipewireEvent

pub on_pipewire_event : PipewireEvent → PipewireState → Option PipewireState
on_pipewire_event (paint given painted) s = paint_pipewire given painted s
on_pipewire_event nudge s = dispatch_nudge s
on_pipewire_event (add_buffer b made) s = some (stream_handle_add_buffer b made s)
on_pipewire_event (remove_buffer b) s = stream_handle_remove_buffer b s
on_pipewire_event (state_changed streaming) s = some (record s { streaming = streaming })

pub no_buffers : PipewireState
no_buffers = record {
  heap = λ b. none;
  queued = λ b. false;
  out_buffer = none;
  in_buffer = none;
  held = none;
  streaming = false;
  nudges = 0;
}
