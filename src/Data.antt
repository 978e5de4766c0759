-- ===== src/Data.antt =====
-- src/server/data.rs: the handshake of a data connection.
-- The reader is what the client sends behind the preamble. Between the look at the request and the
-- claim, the actor handles other commands: `between` is what they do to it.
pub mod Proof
pub mod Laws
pub mod Complete
pub mod Public
pub mod Agreement
mod Tests
use tunlet.Protocol.Frame.{Fault, Faults}
use tunlet.Prelude.{ℕ, if◌then◌else◌, Bool, true, false, not, ◌||◌, Option, none, some, List, []}
use tunlet.Error.{
  ErrorCode, protocol_error, auth_failed, request_unavailable, AppError, Result, ok, err,
}
use tunlet.Protocol.Enums.{Kind, MessageType, Mac, Nonce}
use tunlet.Protocol.DataHello
use tunlet.Protocol.DataHello.{DataHello}
use tunlet.Protocol.DataChallenge
use tunlet.Protocol.DataChallenge.{DataChallenge}
use tunlet.Protocol.Frame.{Frame, require_kind, require_type, read_frame, write_frame, write_error}
use tunlet.Protocol.Exchange.{random}
use tunlet.Auth.{mac, verify, data_transcript, label_data_server, label_data_client}
use tunlet.Registry.State.{Env, ClaimOutcome, delivered, rejected}
use tunlet.Registry.Handle as RegistryHandle
use tunlet.Registry.Handle.{Actor}

-- The socket is with the task that waits for it, or closed after an ERROR frame, or dropped.
pub data End : Type 0 where
  handed_over : End
  refused : ErrorCode → End
  failed : AppError → End

pub record Outcome : Type 0 where
  pub actor : Actor
  pub written : List ℕ
  pub end : End

-- `reject`
unfoldable pub reject : Fault → Actor → List ℕ → ErrorCode → Outcome
reject fault actor written code = record {
  actor = actor;
  written = elim (write_error fault written code) [ ok w ↦ w | err _ ↦ written ];
  end = refused code;
}

abbrev pub fail : Actor → List ℕ → AppError → Outcome
fail actor written error = record { actor = actor; written = written; end = failed error }

abbrev is_err : {E A : Type 0} → Result E A → Bool
is_err (ok _) = false
is_err (err _) = true

-- The test of both frames.
unfoldable pub unexpected : Frame → MessageType → Bool
unexpected frame ty = is_err (require_kind frame Kind.data_kind) || is_err (require_type frame ty)

unfoldable pub settle : Fault → List ℕ → Actor × ClaimOutcome → Outcome
settle fault written (actor, delivered) = record {
  actor = actor;
  written = written;
  end = handed_over;
}
settle fault written (actor, rejected code (some socket)) = reject fault actor written code
settle fault written (actor, rejected code none) =
    fail actor written (AppError.runtime "data connection lost")

module _ (hmac : List ℕ → List ℕ → Mac) (key : List ℕ) where
  abbrev pub challenge_for : List ℕ → Nonce → DataChallenge
  challenge_for transcript server_nonce = record {
    server_nonce = server_nonce;
    server_mac = mac hmac key label_data_server transcript;
  }

module _ (hmac : List ℕ → List ℕ → Mac) (key : List ℕ) (faults : Faults) where
  -- The part of `handshake` behind the challenge.
  unfoldable pub check_proof : Env → Actor → DataHello → List ℕ → List ℕ → List ℕ → ℕ → Outcome
  check_proof env actor hello transcript written reader socket = elim (read_frame reader) [
    | err error ↦ fail actor written error
    | ok (frame, rest) ↦
        if unexpected frame MessageType.data_proof
        then reject (faults 1) actor written protocol_error
        else if not (verify hmac key label_data_client transcript frame.payload)
        then reject (faults 1) actor written auth_failed
        else settle (faults 1) written
            (RegistryHandle.claim env actor hello.session_id hello.request_id socket)
  ]

  -- The part of `handshake` behind the look at the request.
  unfoldable pub challenge :
      (Actor → Actor) → Env → Actor → Option Nonce → DataHello → List ℕ → ℕ → Outcome
  challenge between env actor nonce hello reader socket = elim (random nonce) [
    | err error ↦ fail actor [] error
    | ok server_nonce ↦
        let transcript = data_transcript hello server_nonce in
        elim (write_frame (faults 0) [] (record {
          ty = MessageType.data_challenge;
          payload = DataChallenge.encode (challenge_for hmac key transcript server_nonce);
        })) [
          | err error ↦ fail actor [] error
          | ok written ↦ check_proof env (between actor) hello transcript written reader socket
        ]
  ]

  abbrev challenge_if_present :
      (Actor → Actor) → Env → Actor × Bool → Option Nonce → DataHello → List ℕ → ℕ → Outcome
  challenge_if_present between env (actor, present) nonce hello reader socket =
      if not present
      then reject (faults 1) actor [] request_unavailable
      else challenge between env actor nonce hello reader socket

  unfoldable pub handshake :
      Env → (Actor → Actor) → Env → Actor → Option Nonce → List ℕ → ℕ → Outcome
  handshake env between env' actor nonce reader socket = elim (read_frame reader) [
    | err error ↦ fail actor [] error
    | ok (frame, rest) ↦
        if unexpected frame MessageType.data_hello
        then reject (faults 1) actor [] protocol_error
        else elim (DataHello.decode frame.payload) [
          | err error ↦ reject (faults 1) actor [] error.code
          | ok hello ↦
              challenge_if_present between env'
                (RegistryHandle.peek env actor hello.session_id hello.request_id) nonce hello rest
                socket
        ]
  ]
