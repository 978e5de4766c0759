-- ===== src/Control/Session.antt =====
-- src/server/control.rs: the session loop.
-- `select!` waits for what the loop wakes up to next; here that is given. Which messages the
-- queue of the writer takes in a turn, here in the n-th, is given by `accepts`.
pub mod Laws
use tunlet.Prelude.{
  suc, ℕ, ◌+◌, ◌%◌, ◌^◌, ◌==◌, if◌then◌else◌, Bool, true, false, Option, none, some, List, [], ◌∷◌,
  ◌++◌,
}
use tunlet.Prelude.Bytes.{to_be}
use tunlet.Error.{AppError, protocol_error, Result, ok, err}
use tunlet.Protocol.Enums.{MessageType, SessionId}
use tunlet.Protocol.Small.{decode_sequence}
use tunlet.Protocol.OpenFailed
use tunlet.Protocol.OpenFailed.{OpenFailed}
use tunlet.Protocol.Frame.{Frame}
use tunlet.Timing.{Timing}
use tunlet.Registry.State.{Outbound, close_after_flush, outbound_frame, outbound_error}
use tunlet.Registry.Actor.{Command, open_failed}

-- The two variables of the loop: the last number that was pinged, and the ping without an answer
-- with its deadline.
pub record Heartbeat : Type 0 where
  pub sequence : ℕ
  pub outstanding : Option (ℕ × ℕ)

pub data Wake : Type 0 where
  cancelled overdue closed : Wake
  tick : ℕ → Wake
  received : Result AppError Frame → Wake

-- `ended clean`: the loop was left.
pub data Verdict : Type 0 where
  going : Heartbeat → Verdict
  ended : Bool → Verdict

-- What one turn comes to: the verdict, the messages that were queued, and the commands.
pub record Turn : Type 0 where
  pub verdict : Verdict
  pub queued : List Outbound
  pub commands : List Command

abbrev pub silent : Verdict → Turn
silent verdict = record { verdict = verdict; queued = []; commands = [] }

-- Two messages that are queued if there is room, before the loop is left.
abbrev pub parting : (Outbound → Bool) → Bool → Outbound → Turn
parting accepts clean message = record {
  verdict = ended clean;
  queued =
      (if accepts message then message ∷ [] else [])
      ++ (if accepts close_after_flush then close_after_flush ∷ [] else []);
  commands = [];
}

-- A message without which the session cannot go on.
abbrev pub required : (Outbound → Bool) → Outbound → Heartbeat → Turn
required accepts message next =
    if accepts message
    then record { verdict = going next; queued = message ∷ []; commands = [] }
    else silent (ended false)

abbrev pub acknowledge : ℕ → Heartbeat → Heartbeat
acknowledge value beat = elim beat.outstanding [
  | none ↦ beat
  | some (expected, deadline) ↦
      if expected == value then record beat { outstanding = none } else beat
]

unfoldable pub handle_frame : (Outbound → Bool) → SessionId → Heartbeat → Frame → Turn
handle_frame accepts session_id beat frame = elim frame.ty [
  | MessageType.ping ↦ elim (decode_sequence frame.payload) [
    | err _ ↦ silent (ended false)
    | ok value ↦ required accepts (outbound_frame MessageType.pong (to_be 8 value)) beat
  ]
  | MessageType.pong ↦ elim (decode_sequence frame.payload) [
    | err _ ↦ silent (ended false)
    | ok value ↦ silent (going (acknowledge value beat))
  ]
  | MessageType.open_failed ↦ elim (OpenFailed.decode frame.payload) [
    | err _ ↦ silent (ended false)
    | ok message ↦ record {
      verdict = going beat;
      queued = [];
      commands = open_failed session_id message.request_id message.reason ∷ [];
    }
  ]
  | MessageType.goodbye ↦ parting accepts true (outbound_frame MessageType.goodbye_ack [])
  | MessageType.error ↦ silent (ended false)
  | _ ↦ parting accepts false (outbound_error protocol_error)
]

unfoldable pub turn : (Outbound → Bool) → Timing → SessionId → Heartbeat → Wake → Turn
turn accepts timing session_id beat cancelled = silent (ended false)
turn accepts timing session_id beat closed = silent (ended false)
turn accepts timing session_id beat overdue = elim beat.outstanding [
  | none ↦ silent (going beat)
  | some _ ↦ silent (ended false)
]
turn accepts timing session_id beat (tick now) = elim beat.outstanding [
  | some _ ↦ silent (going beat)
  | none ↦
      let sequence = (beat.sequence + 1) % 2 ^ 64 in
      required accepts (outbound_frame MessageType.ping (to_be 8 sequence)) (record {
        sequence = sequence;
        outstanding = some (sequence, now + timing.heartbeat_timeout);
      })
]
turn accepts timing session_id beat (received (err _)) = silent (ended false)
turn accepts timing session_id beat (received (ok frame)) =
    handle_frame accepts session_id beat frame

abbrev after_turn : Turn → (Heartbeat → Turn) → Turn
after_turn t rest = elim t.verdict [
  | ended clean ↦ t
  | going beat ↦
      let next = rest beat in
      record {
        verdict = next.verdict;
        queued = t.queued ++ next.queued;
        commands = t.commands ++ next.commands;
      }
]

-- `session_loop`, as far as it was woken up.
unfoldable pub session_loop :
    (ℕ → Outbound → Bool) → Timing → SessionId → Heartbeat → List Wake → Turn
session_loop accepts timing session_id beat [] = silent (going beat)
session_loop accepts timing session_id beat (w ∷ wakes) =
    after_turn (turn (accepts 0) timing session_id beat w)
      (λ next. session_loop (λ n. accepts (suc n)) timing session_id next wakes)

abbrev pub initial : Heartbeat
initial = record { sequence = 0; outstanding = none }
