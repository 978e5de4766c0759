-- ===== src/Registry/Actor.antt =====
-- src/server/registry.rs: the commands, `handle_command` and the loop of the actor.
-- A reply goes through a one-shot channel of the command; here it is a value of the step.
use tunlet.Prelude.{ℕ, ltb, Bool, true, false, List, [], ◌∷◌, Option, none, some}
use tunlet.Prelude.Maps.{remove}
use tunlet.Error.{ErrorCode, Result}
use tunlet.Protocol.Enums.{SessionId, RequestId, OpenFailure}
use tunlet.Registry.State.{
  Registry, Env, PendingRequest, RequestKey, RegisterRequest, Registration, ClaimOutcome,
  key_discrete, request_of,
}
use tunlet.Registry.Register.{register}
use tunlet.Registry.Public.{accepted_public, claim, finish_task}
use tunlet.Registry.Lifecycle.{session_lost, goodbye, sweep, shutdown_all}

pub data Command : Type 0 where
  registers : RegisterRequest → Command
  accepted : ℕ → ℕ → ℕ → ℕ → Command
  claim_data : SessionId → RequestId → ℕ → Command
  peek_data : SessionId → RequestId → Command
  open_failed : SessionId → RequestId → OpenFailure → Command
  lost goodbyes : SessionId → ℕ → Command
  request_finished : SessionId → RequestId → Command
  shutdown : Command

pub data Reply : Type 0 where
  registration : Result ErrorCode Registration → Reply
  claimed : ClaimOutcome → Reply
  present : Bool → Reply
  done nothing : Reply

abbrev still_pending : ℕ → Option PendingRequest → Bool
still_pending now none = false
still_pending now (some entry) = ltb now entry.deadline

abbrev pub forget : RequestKey → Registry → Registry
forget key self = record self { pending = remove key_discrete key self.pending }

-- What one step comes to: the new state, the reply, and whether the actor stops.
abbrev pub Step : Type 0
Step = Option (Registry × Reply × Bool)

abbrev pub going_on : {A : Type 0} → (A → Reply) → Option (Registry × A) → Step
going_on reply none = none
going_on reply (some (self, a)) = some (self, reply a, false)

abbrev pub quietly : Option Registry → Step
quietly none = none
quietly (some self) = some (self, nothing, false)

-- `Registry::handle_command`; `none` is a panic, or a draw of identifiers that does not end.
unfoldable pub handle_command : Env → Registry → Command → Step
handle_command env self (registers request) = going_on registration (register env self request)
handle_command env self (accepted listener_id port socket at) =
    quietly (accepted_public env self listener_id port socket at)
handle_command env self (peek_data session_id request_id) =
    some (self, present (still_pending env.now (request_of self (session_id, request_id))), false)
handle_command env self (claim_data session_id request_id socket) =
    going_on claimed (some (claim env self session_id request_id socket))
handle_command env self (open_failed session_id request_id reason) =
    some (forget (session_id, request_id) self, nothing, false)
handle_command env self (lost session_id generation) =
    some (session_lost env session_id generation self, nothing, false)
handle_command env self (goodbyes session_id generation) =
    some (goodbye session_id generation self, done, false)
handle_command env self (request_finished session_id request_id) =
    some (forget (session_id, request_id) self, nothing, false)
handle_command env self shutdown = some (shutdown_all env self, done, true)

-- What wakes the actor's loop, in the order in which `select!` takes it, and the ends of the
-- tasks that it started, which run beside it.
pub data Event : Type 0 where
  tick : ℕ → Event
  command : Env → Command → Event
  task_ended : ℕ → Event

abbrev pub after_command : Env → (Registry → Option Registry) → Step → Option Registry
after_command env rest none = none
after_command env rest (some (self, _, true)) = some (shutdown_all env self)
after_command env rest (some (self, _, false)) = rest self

-- `Registry::run`: up to a Shutdown command. A list that ends without one is the closing of the
-- command channel, after which the loop shuts down too.
unfoldable pub run : Env → Registry → List Event → Option Registry
run final self [] = some (shutdown_all final self)
run final self (tick now ∷ events) = run final (sweep now self) events
run final self (task_ended n ∷ events) = run final (finish_task self n) events
run final self (command env c ∷ events) =
    after_command final (λ self'. run final self' events) (handle_command env self c)
