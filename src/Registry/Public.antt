-- ===== src/Registry/Public.antt =====
-- src/server/registry.rs: public connections, and the data connections that claim them; and the
-- end of the tasks that serve them.
use tunlet.Prelude.{
  ℕ, zero, suc, ◌+◌, ◌-◌, ◌==◌, leb, if◌then◌else◌, Bool, true, false, not, ◌||◌, ◌∷◌, Option, none,
  some, get_elem?, erase_at,
}
use tunlet.Prelude.Maps.{insert, remove}
use tunlet.Error.{request_unavailable}
use tunlet.Protocol.Enums.{SessionId, RequestId, MessageType}
use tunlet.Registry.State.{
  Registry, Env, active, reserved, SessionRef, RequestKey, Connection, ClaimOutcome, delivered,
  rejected, key_discrete, slot_at, session_of, request_of, emit, sent, handed_over, serving,
  outbound_frame,
}
use tunlet.Registry.Slots.{is_some}
use tunlet.Registry.Lifecycle.{session_lost}

pub data Draw : Type 0 where
  drawn : RequestId → Draw
  failed exhausted : Draw

-- The loop that draws request identifiers until one is free; `exhausted` is no outcome of the
-- program, but the end of the draws that the model looks at.
unfoldable pub draw : ℕ → (ℕ → Option RequestId) → (RequestId → Bool) → Draw
draw zero random taken = exhausted
draw (suc fuel) random taken = elim (random 0) [
  | none ↦ failed
  | some id ↦ elim (taken id) [ true ↦ draw fuel (λ n. random (suc n)) taken | false ↦ drawn id ]
]

-- `try_acquire_owned` on one semaphore of the store, and on the global one.
abbrev pub change : ℕ → ℕ → (ℕ → ℕ) → ℕ → ℕ
change name permits semaphores other = if other == name then permits else semaphores other

-- The part of `accepted_public` behind the draw, for a session whose permits are taken: OPEN is
-- queued, and the request waits with a task of its own.
unfoldable pub open_request : Env → Registry → SessionRef → ℕ → ℕ → RequestId → Registry
open_request env self session socket at request_id =
    let deadline = at + self.timing.request_wait in
    let key : RequestKey = (session.session_id, request_id) in
    let task : Connection = record {
      socket = socket;
      deadline = deadline;
      cancel = session.data_cancel;
      session_id = session.session_id;
      request_id = request_id;
      session_permit = session.permits;
    } in
    let message = outbound_frame MessageType.open_request request_id in
    if env.try_send session.writer message
    then emit (serving task) (
        emit (sent session.writer message) (record self {
          pending =
              insert key_discrete key
                (record {
                  generation = session.generation;
                  deadline = deadline;
                  sender = self.next_sender;
                })
                self.pending;
          next_sender = self.next_sender + 1;
          semaphores = change session.permits (self.semaphores session.permits - 1) self.semaphores;
          global_connections = self.global_connections - 1;
          tasks = task ∷ self.tasks;
        }))
    else session_lost env session.session_id session.generation self

abbrev pub after_draw : Env → Registry → SessionRef → ℕ → ℕ → Draw → Option Registry
after_draw env self session socket at (drawn request_id) =
    some (open_request env self session socket at request_id)
after_draw env self session socket at failed = some self
after_draw env self session socket at exhausted = none

-- A permit of the session and a global one, both or none of them kept.
unfoldable pub admit : Env → Registry → SessionRef → ℕ → ℕ → Option Registry
admit env self session socket at =
    if self.semaphores session.permits == 0
    then some self
    else if self.global_connections == 0
    then some self
    else after_draw env self session socket at
        (draw env.draws env.random (λ id. is_some (request_of self (session.session_id, id))))

-- `Registry::accepted_public`; `none`: the drawing of an identifier has not ended.
unfoldable pub accepted_public : Env → Registry → ℕ → ℕ → ℕ → ℕ → Option Registry
accepted_public env self listener_id port socket at = elim (slot_at self port) [
  | none ↦ some self
  | some slot ↦ if not (slot.listener_id == listener_id) then some self else elim slot.state [
    | reserved _ _ _ ↦ some self
    | active session ↦ admit env self session socket at
  ]
]

-- `Registry::claim`. The socket comes back with a rejection.
unfoldable pub claim : Env → Registry → SessionId → RequestId → ℕ → Registry × ClaimOutcome
claim env self session_id request_id socket =
    let reject = rejected request_unavailable (some socket) in
    elim (session_of self session_id) [
      | none ↦ (self, reject)
      | some session ↦ elim (request_of self (session_id, request_id)) [
        | none ↦ (self, reject)
        | some entry ↦
            if not (entry.generation == session.generation) || leb entry.deadline env.now
            then (self, reject)
            else let self' = record self {
              pending = remove key_discrete (session_id, request_id) self.pending;
            } in
              if env.receives entry.sender
              then (emit (handed_over entry.sender socket) self', delivered)
              else (self', reject)
      ]
    ]

-- The end of a task of `accepted_public`: both of its permits go back. `n` is its place among
-- the tasks that run.
unfoldable pub finish_task : Registry → ℕ → Registry
finish_task self n = elim (get_elem? self.tasks n) [
  | none ↦ self
  | some task ↦ record self {
    tasks = erase_at self.tasks n;
    semaphores =
        change task.session_permit (self.semaphores task.session_permit + 1) self.semaphores;
    global_connections = self.global_connections + 1;
  }
]
