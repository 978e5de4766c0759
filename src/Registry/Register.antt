-- ===== src/Registry/Register.antt =====
-- src/server/registry.rs: `Registry::register` and the displacement of a previous owner.
use tunlet.Prelude.{
  ℕ, ◌==◌, if◌then◌else◌, Bool, true, false, not, ◌&&◌, Option, none, some, ite, ℕ_discrete,
}
use tunlet.Prelude.Maps.{insert, remove, retain}
use tunlet.Prelude.Bytes.{bytes_discrete}
use tunlet.Error.{ErrorCode, invalid_port, replaced, Result, ok, err}
use tunlet.Protocol.Enums.{SessionId, fresh, resume}
use tunlet.Registry.State.{
  Registry, Env, PortSlot, active, reserved, SessionRef, RegisterRequest, Registration, RequestKey,
  PendingRequest, slot_at, emit, try_send, cancelled, cancelled_after, outbound_error,
  close_after_flush, take_generation,
}
use tunlet.Registry.Slots.{ensure_slot, allocate_automatic, owner, returning}

-- The requests of other sessions.
unfoldable pub other_session : SessionId → RequestKey → PendingRequest → Bool
unfolding bytes_discrete
other_session id key entry = ite (bytes_discrete key.0 id) false true

-- `Registry::drop_pending_for`
unfoldable pub drop_pending_for : SessionId → Registry → Registry
unfolding other_session
drop_pending_for id self = record self { pending = retain (other_session id) self.pending }

abbrev pub drop_session : SessionId → Registry → Registry
drop_session id self = record self { sessions = remove bytes_discrete id self.sessions }

-- `Registry::displace`. The delayed task cancels the control connection after the flush.
unfoldable pub displace : Env → SessionRef → Registry → Registry
unfolding drop_pending_for
displace env previous self =
    emit (cancelled_after previous.control_cancel self.timing.takeover_flush) (
      try_send env previous.writer close_after_flush (
        try_send env previous.writer (outbound_error replaced) (
          emit (cancelled previous.data_cancel)
            (drop_pending_for previous.session_id (drop_session previous.session_id self)))))

-- The `match` on the mode and the requested port.
unfoldable pub choose_port : Env → Registry → RegisterRequest → Registry × Result ErrorCode ℕ
choose_port env self request = elim request.mode [
  | fresh ↦
      if request.requested_port == 0
      then allocate_automatic env self request.instance_id
      else returning request.requested_port (ensure_slot env self request.requested_port false)
  | resume ↦ elim (slot_at self request.requested_port) [
    | some slot ↦
        ite (bytes_discrete (owner slot.state) request.instance_id)
          (self, ok request.requested_port) (self, err replaced)
    | none ↦ returning request.requested_port (ensure_slot env self request.requested_port true)
  ]
]

abbrev pub new_session : RegisterRequest → ℕ → ℕ → SessionRef
new_session request port generation = record {
  session_id = request.session_id;
  instance_id = request.instance_id;
  generation = generation;
  port = port;
  writer = request.writer;
  data_cancel = request.data_cancel;
  control_cancel = request.control_cancel;
  permits = generation;
}

-- A new semaphore with `max_connections` permits, named by the generation.
abbrev pub new_semaphore : ℕ → ℕ → (ℕ → ℕ) → ℕ → ℕ
new_semaphore name permits semaphores other = if other == name then permits else semaphores other

-- `mem::replace` of the slot's state, and the displacement of the session that stood there.
unfoldable pub take_over : Env → ℕ → PortSlot → SessionRef → Registry → Registry
take_over env port slot session self =
    let self' = record self {
      ports = insert ℕ_discrete port (record slot { state = active session }) self.ports;
    } in
    elim slot.state [ active previous ↦ displace env previous self' | reserved _ _ _ ↦ self' ]

-- From the new generation on. `none` is a panic: of the counter, or of the slot that must exist.
unfoldable pub install :
    Env → Registry → RegisterRequest → ℕ → Option (Registry × Result ErrorCode Registration)
install env self request port = elim (take_generation self) [
  | none ↦ none
  | some (generation, self1) ↦ elim (slot_at self1 port) [
    | none ↦ none
    | some slot ↦
        let session = new_session request port generation in
        let self2 = record self1 {
          semaphores = new_semaphore generation self1.config.max_connections self1.semaphores;
        } in
        let self3 = take_over env port slot session self2 in
        some (
          record self3 {
            sessions = insert bytes_discrete request.session_id session self3.sessions;
          },
          ok (record {
            assigned_port = port;
            max_connections = self3.config.max_connections;
            generation = generation;
          }),
        )
  ]
]

abbrev pub after_choice :
    Env
    → RegisterRequest
    → Registry × Result ErrorCode ℕ
    → Option (Registry × Result ErrorCode Registration)
after_choice env request (self, ok port) = install env self request port
after_choice env request (self, err code) = some (self, err code)

-- `Registry::register`
unfoldable pub register :
    Env → Registry → RegisterRequest → Option (Registry × Result ErrorCode Registration)
register env self request =
    if not (request.requested_port == 0) && request.requested_port == self.config.listen.port
    then some (self, err invalid_port)
    else after_choice env request (choose_port env self request)
