-- ===== src/Registry/State.antt =====
-- src/server/registry.rs: the state of the registry actor and what it does to the outside.
-- Channels, tokens, sockets and semaphores are shared objects: the model names them by numbers.
-- A semaphore is its number of free permits. What a step asks of the runtime and of the operating
-- system (the time, a bind, a queue's answer, random bytes) is in `Env`, and what it does to them
-- is appended to `effects`. Instants are milliseconds, and `as_u16` stands for the wire code.
use tunlet.Prelude.{
  ℕ, ◌+◌, ◌^◌, ltb, if◌then◌else◌, Bool, List, [], ◌∷◌, ◌++◌, Option, none, some, ℕ_discrete,
}
use tunlet.Prelude.Maps.{lookup}
use tunlet.Prelude.Bytes.{bytes_discrete, to_be}
use tunlet.Config.{ServerConfig, IpAddr}
use tunlet.Error.{ErrorCode, as_u16}
use tunlet.Protocol.Enums.{InstanceId, SessionId, RequestId, Mode, MessageType}
use tunlet.Protocol.Frame.{Frame}
use tunlet.Timing.{Timing}

abbrev pub max_slots : ℕ
max_slots = 1024

abbrev pub max_global_connections : ℕ
max_global_connections = 8192

abbrev pub max_handshakes : ℕ
max_handshakes = 1024

abbrev pub command_capacity : ℕ
command_capacity = 1024

abbrev pub writer_capacity : ℕ
writer_capacity = 512

pub data Outbound : Type 0 where
  frame : Frame → Outbound
  close_after_flush : Outbound

-- `Outbound::frame` and `Outbound::error`
abbrev pub outbound_frame : MessageType → List ℕ → Outbound
outbound_frame ty payload = frame (record { ty = ty; payload = payload })

abbrev pub outbound_error : ErrorCode → Outbound
outbound_error code = outbound_frame MessageType.error (to_be 2 (as_u16 code))

pub record RegisterRequest : Type 0 where
  pub session_id : SessionId
  pub instance_id : InstanceId
  pub mode : Mode
  pub requested_port : ℕ
  pub writer : ℕ
  pub data_cancel : ℕ
  pub control_cancel : ℕ

pub record Registration : Type 0 where
  pub assigned_port : ℕ
  pub max_connections : ℕ
  pub generation : ℕ

pub data ClaimOutcome : Type 0 where
  delivered : ClaimOutcome
  rejected : ErrorCode → Option ℕ → ClaimOutcome

-- `permits` names the semaphore of the session.
pub record SessionRef : Type 0 where
  pub session_id : SessionId
  pub instance_id : InstanceId
  pub generation : ℕ
  pub port : ℕ
  pub writer : ℕ
  pub data_cancel : ℕ
  pub control_cancel : ℕ
  pub permits : ℕ

pub data SlotState : Type 0 where
  active : SessionRef → SlotState
  reserved : InstanceId → ℕ → ℕ → SlotState

pub record PortSlot : Type 0 where
  pub listener_id : ℕ
  pub listener_cancel : ℕ
  pub state : SlotState

pub record PendingRequest : Type 0 where
  pub generation : ℕ
  pub deadline : ℕ
  pub sender : ℕ

abbrev pub RequestKey : Type 0
RequestKey = SessionId × RequestId

unfoldable pub key_discrete : Discrete RequestKey
unfolding bytes_discrete
key_discrete = hlevel bytes_discrete

-- A task that serves one public connection, with the permits that it holds until it ends.
pub record Connection : Type 0 where
  pub socket : ℕ
  pub deadline : ℕ
  pub cancel : ℕ
  pub session_id : SessionId
  pub request_id : RequestId
  pub session_permit : ℕ

pub data Effect : Type 0 where
  sent : ℕ → Outbound → Effect
  cancelled : ℕ → Effect
  cancelled_after : ℕ → ℕ → Effect
  listening : ℕ → ℕ → Effect
  handed_over : ℕ → ℕ → Effect
  serving : Connection → Effect

-- Why the operating system refuses to bind, as far as the program asks.
pub data BindError : Type 0 where
  addr_in_use permission_denied other : BindError

pub record Env : Type 0 where
  pub now : ℕ
  -- `none`: the port is bound
  pub bind : IpAddr → ℕ → Option BindError
  -- whether the writer's queue takes the message
  pub try_send : ℕ → Outbound → Bool
  -- whether the task that waits for the socket is still there
  pub receives : ℕ → Bool
  -- the results of successive calls of `auth::random`, and how many of them are looked at
  pub random : ℕ → Option RequestId
  pub draws : ℕ

pub record Registry : Type 0 where
  pub config : ServerConfig
  pub timing : Timing
  pub ports : List (ℕ × PortSlot)
  pub sessions : List (SessionId × SessionRef)
  pub pending : List (RequestKey × PendingRequest)
  pub global_connections : ℕ
  pub next_generation : ℕ
  pub next_listener_id : ℕ
  -- the free permits of each session's semaphore, and the tasks that run
  pub semaphores : ℕ → ℕ
  pub tasks : List Connection
  pub next_sender : ℕ
  pub effects : List Effect

-- `Registry::new`
unfoldable pub new : ServerConfig → Timing → Registry
new config timing = record {
  config = config;
  timing = timing;
  ports = [];
  sessions = [];
  pending = [];
  global_connections = max_global_connections;
  next_generation = 1;
  next_listener_id = 1;
  semaphores = λ _. 0;
  tasks = [];
  next_sender = 0;
  effects = [];
}

abbrev pub slot_at : Registry → ℕ → Option PortSlot
slot_at self port = lookup ℕ_discrete port self.ports

abbrev pub session_of : Registry → SessionId → Option SessionRef
session_of self id = lookup bytes_discrete id self.sessions

abbrev pub request_of : Registry → RequestKey → Option PendingRequest
request_of self key = lookup key_discrete key self.pending

abbrev pub emit : Effect → Registry → Registry
emit effect self = record self { effects = self.effects ++ (effect ∷ []) }

-- `writer.try_send`, with its result dropped.
abbrev pub try_send : Env → ℕ → Outbound → Registry → Registry
try_send env writer message self =
    if env.try_send writer message then emit (sent writer message) self else self

-- The counter does not wrap: `none` is the panic of `checked_add`.
unfoldable pub take_generation : Registry → Option (ℕ × Registry)
take_generation self =
    if ltb (self.next_generation + 1) (2 ^ 64)
    then some (self.next_generation, record self { next_generation = self.next_generation + 1 })
    else none
