-- ===== src/Registry/Handle.antt =====
-- src/server/registry.rs: the handle through which the connections talk to the registry actor.
-- The actor is `none` when it has stopped; then a command is not taken, or its reply is dropped.
use tunlet.Prelude.{ℕ, Bool, true, false, Option, none, some}
use tunlet.Error.{ErrorCode, internal_error, Result, err}
use tunlet.Protocol.Enums.{SessionId, RequestId, OpenFailure}
use tunlet.Registry.State.{Registry, Env, RegisterRequest, Registration, ClaimOutcome, rejected}
use tunlet.Registry.Actor.{
  Command, registers, claim_data, peek_data, open_failed, lost, goodbyes, shutdown, Reply,
  registration, claimed, present, Step, handle_command,
}

abbrev pub Actor : Type 0
Actor = Option Registry

-- The actor after a step, and the reply if there is one.
abbrev pub answered : Step → Actor × Option Reply
answered none = (none, none)
answered (some (self, reply, true)) = (none, some reply)
answered (some (self, reply, false)) = (some self, some reply)

unfoldable pub ask : Env → Actor → Command → Actor × Option Reply
ask env none command = (none, none)
ask env (some self) command = answered (handle_command env self command)

-- `response.await.unwrap_or(…)`
abbrev registration_or : Option Reply → Result ErrorCode Registration
registration_or (some (registration outcome)) = outcome
registration_or _ = err internal_error

abbrev present_or : Option Reply → Bool
present_or (some (present found)) = found
present_or _ = false

abbrev claimed_or : Option Reply → ClaimOutcome
claimed_or (some (claimed outcome)) = outcome
claimed_or _ = rejected internal_error none

unfoldable pub register : Env → Actor → RegisterRequest → Actor × Result ErrorCode Registration
register env actor request =
    let (actor', reply) = ask env actor (registers request) in (actor', registration_or reply)

unfoldable pub peek : Env → Actor → SessionId → RequestId → Actor × Bool
peek env actor session_id request_id =
    let (actor', reply) = ask env actor (peek_data session_id request_id) in
    (actor', present_or reply)

unfoldable pub claim : Env → Actor → SessionId → RequestId → ℕ → Actor × ClaimOutcome
claim env actor session_id request_id socket =
    let (actor', reply) = ask env actor (claim_data session_id request_id socket) in
    (actor', claimed_or reply)

unfoldable pub session_lost : Env → Actor → SessionId → ℕ → Actor
session_lost env actor session_id generation = (ask env actor (lost session_id generation)).0

unfoldable pub goodbye : Env → Actor → SessionId → ℕ → Actor
goodbye env actor session_id generation = (ask env actor (goodbyes session_id generation)).0

unfoldable pub report_open_failed : Env → Actor → SessionId → RequestId → OpenFailure → Actor
report_open_failed env actor session_id request_id reason =
    (ask env actor (open_failed session_id request_id reason)).0

unfoldable pub stop : Env → Actor → Actor
stop env actor = (ask env actor shutdown).0
