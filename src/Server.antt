-- ===== src/Server.antt =====
-- src/server/mod.rs: the accept loop of the server and the dispatch of a connection.
pub mod Laws
mod Tests
use tunlet.Protocol.Frame.{Fault}
use tunlet.Prelude.{ℕ, zero, suc, ◌+◌, ◌≡◌, Bool, true, false, Option, none, some, List, []}
use tunlet.Error.{AppError, Result, ok, err}
use tunlet.Protocol.Enums.{Kind, control, data_kind}
use tunlet.Protocol.Frame.{read_preamble, write_error}
use tunlet.Registry.State.{max_handshakes}

-- The semaphore of the handshakes and the tasks of the connections: those that have not finished
-- their handshake, and those that serve an established session or data connection.
pub record Supervisor : Type 0 where
  pub free : ℕ
  pub handshaking : ℕ
  pub established : ℕ

abbrev pub initial : Supervisor
initial = record { free = max_handshakes; handshaking = 0; established = 0 }

-- An accepted connection: it is closed if there is no permit, else its task holds one.
unfoldable pub accepted : Supervisor → Supervisor × Bool
accepted self = elim self.free [
  | zero ↦ (self, false)
  | suc free ↦ (record self { free = free; handshaking = self.handshaking + 1 }, true)
]

-- `drop(permit)`, behind the whole of `dispatch`.
abbrev drop_permit : Supervisor → Supervisor
drop_permit self = record self { free = self.free + 1 }

-- What the task of a connection does: its handshake succeeds within `dispatch`, which goes on; or
-- `dispatch` returns, in the handshake or behind it, and the permit is dropped.
pub data Progress : Type 0 where
  establishes fails leaves : Progress

unfoldable pub progress : Supervisor → Progress → Option Supervisor
progress self establishes = elim self.handshaking [
  | zero ↦ none
  | suc others ↦ some (record self { handshaking = others; established = self.established + 1 })
]
progress self fails = elim self.handshaking [
  | zero ↦ none
  | suc others ↦ some (drop_permit (record self { handshaking = others }))
]
progress self leaves = elim self.established [
  | zero ↦ none
  | suc others ↦ some (drop_permit (record self { established = others }))
]

-- The states that the loop reaches, by connections and by the progress of their tasks; a failed
-- accept changes nothing.
pub data Reachable : Supervisor → Type 0 where
  starts : Reachable initial
  accepts : {self : Supervisor} → Reachable self → Reachable (accepted self).0
  proceeds :
      {self self' : Supervisor} (step : Progress)
      → progress self step ≡ some self'
      → Reachable self
      → Reachable self'

-- What becomes of a connection: the handler that takes it, with what the client sends behind the
-- preamble, or its end, with what was written.
pub data Dispatched : Type 0 where
  to_control to_data : List ℕ → Dispatched
  closed : List ℕ → Dispatched

abbrev reply : Fault → AppError → List ℕ
reply fault (AppError.protocol e) = elim (write_error fault [] e.code) [
  | ok written ↦ written
  | err _ ↦ []
]
reply fault _ = []

abbrev to_handler : Kind → List ℕ → Dispatched
to_handler control rest = to_control rest
to_handler data_kind rest = to_data rest

unfoldable pub dispatch : Fault → Bool → List ℕ → Dispatched
dispatch fault true reader = closed []
dispatch fault false reader = elim (read_preamble reader) [
  | err error ↦ closed (reply fault error)
  | ok (kind, rest) ↦ to_handler kind rest
]
