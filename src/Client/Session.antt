-- ===== src/Client/Session.antt =====
-- src/client/control.rs: the loop of a registered session.
-- `select!` waits for what the loop wakes up to next; here that is given. Which messages the
-- queue of the writer takes in a turn, here in the n-th, is given by `accepts`. A data connection's task runs on its own: it is
-- counted when the loop starts it, and `finished` is the moment at which it drops its permit.
pub mod Laws
pub mod Requests
mod Clean
mod Tests
use Prim.Native.String.{String}
use tunlet.Prelude.{
  ℕ, zero, suc, ◌+◌, ◌%◌, ◌^◌, if◌then◌else◌, Bool, Option, none, some, List, [], ◌∷◌, ◌++◌,
}
use tunlet.Prelude.Bytes.{to_be}
use tunlet.Error.{AppError, protocol, new, Result, ok, err}
use tunlet.Protocol.Enums.{MessageType, RequestId, OpenFailure}
use tunlet.Protocol.Small.{decode_request_id, decode_sequence, decode_error}
use tunlet.Protocol.OpenFailed
use tunlet.Protocol.Frame.{Frame}
use tunlet.Timing.{Timing}
use tunlet.Registry.State.{Outbound, outbound_frame}
use tunlet.Control.Session.{Heartbeat, acknowledge, initial}
use tunlet.Control.Writer
use tunlet.Client.Register.{Failure, classify}

-- The reasons of a retry, which are texts for the log, are left out.
pub data Attempt : Type 0 where
  clean : Attempt
  fatal : AppError → Attempt
  retry : Attempt

-- The variables of the loop, and the permits that are left.
pub record Live : Type 0 where
  pub beat : Heartbeat
  pub free : ℕ

pub data Wake : Type 0 where
  stopped cancelled overdue closed finished : Wake
  tick : ℕ → Wake
  received : Result AppError Frame → Wake

pub data Verdict : Type 0 where
  going : Live → Verdict
  ended : Attempt → Verdict

-- What one turn comes to: the verdict, the messages that were queued, and the requests whose data
-- connections were started.
pub record Turn : Type 0 where
  pub verdict : Verdict
  pub queued : List Outbound
  pub started : List RequestId

abbrev silent : Verdict → Turn
silent verdict = record { verdict = verdict; queued = []; started = [] }

abbrev malformed : String → Turn
malformed text = silent (ended (fatal (protocol (new text))))

-- `try_send`
abbrev try_send : (Outbound → Bool) → Outbound → List Outbound
try_send accepts message = if accepts message then message ∷ [] else []

-- The tasks of the writer and of the reader, word for word those of the server's connections.
abbrev writer_loop : (Frame → Bool) → List Outbound → List ℕ → List ℕ
writer_loop = Writer.writer_loop

abbrev read_frames : ℕ → List ℕ → List (Result AppError Frame)
read_frames = Writer.read_frames

-- A message without which the session cannot go on.
abbrev required : (Outbound → Bool) → Outbound → Live → Turn
required accepts message next =
    if accepts message
    then record { verdict = going next; queued = message ∷ []; started = [] }
    else silent (ended retry)

-- `goodbye`: whether an acknowledgement comes is only logged.
unfoldable pub goodbye : (Outbound → Bool) → Turn
goodbye accepts = record {
  verdict = ended clean;
  queued = try_send accepts (outbound_frame MessageType.goodbye []);
  started = [];
}

abbrev pub attempt_of : Failure → Attempt
attempt_of (Failure.fatal e) = fatal e
attempt_of Failure.retry = retry

-- The OPEN message: a task with a permit, or an answer that there is none.
unfoldable pub open_request : (Outbound → Bool) → Live → RequestId → Turn
open_request accepts live request_id = elim live.free [
  | zero ↦ record {
    verdict = going live;
    queued = try_send accepts (
        outbound_frame MessageType.open_failed (
          OpenFailed.encode
            (record { request_id = request_id; reason = OpenFailure.local_capacity })));
    started = [];
  }
  | suc free ↦ record {
    verdict = going (record live { free = free });
    queued = [];
    started = request_id ∷ [];
  }
]

unfoldable pub handle_frame : (Outbound → Bool) → Live → Frame → Turn
handle_frame accepts live frame = elim frame.ty [
  | MessageType.open_request ↦ elim (decode_request_id frame.payload) [
    | err _ ↦ malformed "malformed OPEN"
    | ok request_id ↦ open_request accepts live request_id
  ]
  | MessageType.ping ↦ elim (decode_sequence frame.payload) [
    | err _ ↦ malformed "malformed PING"
    | ok value ↦ required accepts (outbound_frame MessageType.pong (to_be 8 value)) live
  ]
  | MessageType.pong ↦ elim (decode_sequence frame.payload) [
    | err _ ↦ malformed "malformed PONG"
    | ok value ↦ silent (going (record live { beat = acknowledge value live.beat }))
  ]
  | MessageType.server_shutdown ↦ silent (ended retry)
  | MessageType.error ↦ elim (decode_error frame.payload) [
    | err _ ↦ malformed "malformed ERROR"
    | ok code ↦ silent (ended (attempt_of (classify code)))
  ]
  | MessageType.goodbye_ack ↦ silent (going live)
  | _ ↦ malformed "unexpected control message from the server"
]

abbrev unreadable : AppError → Attempt
unreadable (AppError.protocol e) = fatal (protocol e)
unreadable _ = retry

unfoldable pub turn : (Outbound → Bool) → Timing → Live → Wake → Turn
turn accepts timing live stopped = goodbye accepts
turn accepts timing live cancelled = silent (ended retry)
turn accepts timing live closed = silent (ended retry)
turn accepts timing live overdue = elim live.beat.outstanding [
  | none ↦ silent (going live)
  | some _ ↦ silent (ended retry)
]
turn accepts timing live (tick now) = elim live.beat.outstanding [
  | some _ ↦ silent (going live)
  | none ↦
      let sequence = (live.beat.sequence + 1) % 2 ^ 64 in
      required accepts (outbound_frame MessageType.ping (to_be 8 sequence)) (record live {
        beat = record {
          sequence = sequence;
          outstanding = some (sequence, now + timing.heartbeat_timeout);
        };
      })
]
turn accepts timing live (received (err e)) = silent (ended (unreadable e))
turn accepts timing live (received (ok frame)) = handle_frame accepts live frame
turn accepts timing live finished = silent (going (record live { free = live.free + 1 }))

abbrev after_turn : Turn → (Live → Turn) → Turn
after_turn t rest = elim t.verdict [
  | ended attempt ↦ t
  | going live ↦
      let next = rest live in
      record {
        verdict = next.verdict;
        queued = t.queued ++ next.queued;
        started = t.started ++ next.started;
      }
]

unfoldable pub session_loop : (ℕ → Outbound → Bool) → Timing → Live → List Wake → Turn
session_loop accepts timing live [] = silent (going live)
session_loop accepts timing live (w ∷ wakes) =
    after_turn (turn (accepts 0) timing live w)
      (λ next. session_loop (λ n. accepts (suc n)) timing next wakes)

-- `run_session`, as far as it was woken up.
unfoldable pub run_session : (ℕ → Outbound → Bool) → Timing → ℕ → List Wake → Turn
run_session accepts timing max_connections wakes =
    session_loop accepts timing (record { beat = initial; free = max_connections }) wakes
