-- ===== src/Registry/Lifecycle.antt =====
-- src/server/registry.rs: the ends of sessions, the sweep, and the shutdown.
use tunlet.Prelude.{
  ℕ, ◌+◌, ◌==◌, leb, ltb, if◌then◌else◌, Bool, false, not, List, [], ◌∷◌, Option, none, some,
  ℕ_discrete,
}
use tunlet.Prelude.Maps.{insert, remove, retain}
use tunlet.Protocol.Enums.{SessionId, MessageType}
use tunlet.Registry.State.{
  Registry, Env, PortSlot, active, reserved, SessionRef, RequestKey, PendingRequest, slot_at,
  session_of, emit, try_send, cancelled, outbound_frame, close_after_flush,
}
use tunlet.Registry.Register.{drop_pending_for, drop_session}

-- `matches!(…, Some(SlotState::Active(current)) if current.generation == generation)`
abbrev pub is_current : Option PortSlot → ℕ → Bool
is_current none generation = false
is_current (some slot) generation = elim slot.state [
  | active current ↦ current.generation == generation
  | reserved _ _ _ ↦ false
]

-- `Registry::session_lost`: the listener stays, reserved for the instance.
unfoldable pub session_lost : Env → SessionId → ℕ → Registry → Registry
session_lost env session_id generation self = elim (session_of self session_id) [
  | none ↦ self
  | some session ↦
      if not (session.generation == generation)
      then self
      else let port = session.port in
        let still_current = is_current (slot_at self port) generation in
        let self' = emit (cancelled session.control_cancel) (
          emit (cancelled session.data_cancel)
            (drop_pending_for session_id (drop_session session_id self))) in
        if not still_current then self' else elim (slot_at self' port) [
          | none ↦ self'
          | some slot ↦ record self' {
            ports =
                insert ℕ_discrete port
                  (record slot {
                    state =
                        reserved session.instance_id generation (env.now + self.timing.reservation);
                  })
                  self'.ports;
          }
        ]
]

-- Takes the slot out and cancels its listener, if it is there.
abbrev pub release_slot : ℕ → Registry → Registry
release_slot port self = elim (slot_at self port) [
  | none ↦ self
  | some slot ↦
      emit (cancelled slot.listener_cancel)
        (record self { ports = remove ℕ_discrete port self.ports })
]

-- `Registry::goodbye`: the port is released at once.
unfoldable pub goodbye : SessionId → ℕ → Registry → Registry
goodbye session_id generation self = elim (session_of self session_id) [
  | none ↦ self
  | some session ↦
      if not (session.generation == generation)
      then self
      else let port = session.port in
        let self' =
          emit (cancelled session.data_cancel)
            (drop_pending_for session_id (drop_session session_id self)) in
        if is_current (slot_at self' port) generation then release_slot port self' else self'
]

unfoldable pub unexpired : ℕ → RequestKey → PendingRequest → Bool
unexpired now key entry = ltb now entry.deadline

-- The reservations that have run out, with their generations.
unfoldable pub expired_slots : ℕ → List (ℕ × PortSlot) → List (ℕ × ℕ)
expired_slots now [] = []
expired_slots now ((port, slot) ∷ ports) =
    let rest = expired_slots now ports in
    elim slot.state [
      | active _ ↦ rest
      | reserved _ generation expires_at ↦
          if leb expires_at now then (port, generation) ∷ rest else rest
    ]

unfoldable pub release_all : List (ℕ × ℕ) → Registry → Registry
release_all [] self = self
release_all ((port, generation) ∷ expired) self = release_all expired (release_slot port self)

-- `Registry::sweep`
unfoldable pub sweep : ℕ → Registry → Registry
sweep now self =
    let self' = record self { pending = retain (unexpired now) self.pending } in
    release_all (expired_slots now self'.ports) self'

-- The loop over the sessions in `shutdown_all`.
unfoldable pub notify_all : Env → List (SessionId × SessionRef) → Registry → Registry
notify_all env [] self = self
notify_all env ((_, session) ∷ sessions) self = notify_all env sessions (
    emit (cancelled session.data_cancel) (
      try_send env session.writer close_after_flush
        (try_send env session.writer (outbound_frame MessageType.server_shutdown []) self)))

unfoldable pub cancel_listeners : List (ℕ × PortSlot) → Registry → Registry
cancel_listeners [] self = self
cancel_listeners ((_, slot) ∷ ports) self =
    cancel_listeners ports (emit (cancelled slot.listener_cancel) self)

-- `Registry::shutdown_all`
unfoldable pub shutdown_all : Env → Registry → Registry
shutdown_all env self =
    let self1 = record (notify_all env self.sessions self) { pending = [] } in
    let self2 = cancel_listeners self1.ports (record self1 { ports = [] }) in
    record self2 { sessions = [] }
