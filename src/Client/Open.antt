-- ===== src/Client/Open.antt =====
-- src/client/data.rs: what a client does for an OPEN request.
-- The clock's readings, the two dials and the moment of a cancellation are given.
pub mod Laws
use tunlet.Prelude.{◌+◌, min}
use tunlet.Timing.{Timing}
use tunlet.Protocol.Frame.{Faults}
use tunlet.Prelude.{
  ℕ, ◌-◌, leb, if◌then◌else◌, not, Bool, true, false, Option, none, some, List, [], ◌∷◌,
}
use tunlet.Error.{ErrorCode, AppError, Result, ok, err, ◌>>=◌, ◌>>◌, lift}
use tunlet.Protocol.Enums.{Kind, MessageType, Mac, Nonce, SessionId, RequestId, OpenFailure}
use tunlet.Protocol.DataHello
use tunlet.Protocol.DataHello.{DataHello}
use tunlet.Protocol.DataChallenge
use tunlet.Protocol.DataChallenge.{DataChallenge}
use tunlet.Protocol.OpenFailed
use tunlet.Protocol.Frame.{write_preamble, write_frame}
use tunlet.Protocol.Exchange.{random, answer}
use tunlet.Auth.{mac, verify, data_transcript, label_data_server, label_data_client}
use tunlet.Registry.State.{Outbound}
use tunlet.Protocol.Frame.{Frame}

-- `Failure::Reported` carries a text for the log, which is left out.
pub data Failure : Type 0 where
  cancelled : Failure
  reported : OpenFailure → Failure

-- The time that is left, on a clock that reads `now`.
unfoldable pub remaining : ℕ → ℕ → Result Failure ℕ
remaining deadline now =
    if leb deadline now then err (reported OpenFailure.setup_timeout) else ok (deadline - now)

-- The error for an ERROR frame, without the text of the code.
abbrev pub refusal : ErrorCode → AppError
refusal code = AppError.runtime "server refused"

abbrev pub same : AppError → AppError
same error = error

module _ (hmac : List ℕ → List ℕ → Mac) (key : List ℕ) where
  -- The check of the server's proof.
  unfoldable pub check_challenge : List ℕ → DataChallenge → Result AppError (Unit {0})
  check_challenge transcript challenge =
      if not (verify hmac key label_data_server transcript challenge.server_mac)
      then err AppError.auth
      else ok tt

  -- `data_handshake`: what follows DATA_READY in the stream, and the bytes that were written.
  unfoldable pub data_handshake :
      Faults → Option Nonce → SessionId → RequestId → List ℕ → Result AppError (List ℕ × List ℕ)
  data_handshake faults nonce session_id request_id reader = do
    preamble ← write_preamble (faults 0) [] Kind.data_kind
    client_nonce ← random nonce
    let hello : DataHello = record {
      session_id = session_id;
      request_id = request_id;
      client_nonce = client_nonce;
    }
    written ←
        write_frame (faults 1) preamble
          (record { ty = MessageType.data_hello; payload = DataHello.encode hello })
    (frame, rest) ← answer same same refusal Kind.data_kind MessageType.data_challenge reader
    challenge ← lift (DataChallenge.decode frame.payload)
    let transcript = data_transcript hello challenge.server_nonce
    checked ← check_challenge transcript challenge
    written' ← write_frame (faults 2) written (record {
      ty = MessageType.data_proof;
      payload = mac hmac key label_data_client transcript;
    })
    (frame', rest') ← answer same same refusal Kind.data_kind MessageType.data_ready rest
    ok (rest', written')

-- How the time passes and what the network does while a request is set up: the clock at the three
-- looks at it, within which budgets the target and the server are reached and the handshake ends,
-- and what the handshake gets: a nonce, the faults of its writes, and what the server sends.
pub record Setup : Type 0 where
  pub first : ℕ
  pub second : ℕ
  pub third : ℕ
  pub target_reached : ℕ → Bool
  pub data_reached : ℕ → Bool
  pub handshake_ends : ℕ → Bool
  pub nonce : Option Nonce
  pub faults : Faults
  pub reader : List ℕ

-- What the task of a request knows.
pub record OpenContext : Type 0 where
  pub request_id : RequestId
  pub session_id : SessionId
  pub timing : Timing

abbrev after_handshake : Result AppError (List ℕ × List ℕ) → Result Failure (List ℕ × List ℕ)
after_handshake (err _) = err (reported OpenFailure.data_auth)
after_handshake (ok streams) = ok streams

module _ (hmac : List ℕ → List ℕ → Mac) (key : List ℕ) where
  unfoldable pub setup : OpenContext → ℕ → Setup → Result Failure (List ℕ × List ℕ)
  setup context deadline s = do
    left ← remaining deadline s.first
    data_budget ← remaining deadline s.second
    (if not (s.target_reached (min context.timing.target_connect left))
        then err (reported OpenFailure.target_connect)
        else if not (s.data_reached data_budget)
        then err (reported OpenFailure.data_auth)
        else (remaining deadline s.third >>= λ budget.
            if not (s.handshake_ends budget)
            then err (reported OpenFailure.setup_timeout)
            else after_handshake (
                data_handshake hmac key s.faults s.nonce context.session_id context.request_id
                  s.reader)))

-- What becomes of a request: its two connections are forwarded, with what the server has sent
-- behind the handshake, or messages are queued.
pub data Done : Type 0 where
  forwarded : List ℕ → Done
  queued : List Outbound → Done

abbrev pub report_frame : RequestId → OpenFailure → Frame
report_frame request_id reason = record {
  ty = MessageType.open_failed;
  payload = OpenFailed.encode (record { request_id = request_id; reason = reason });
}

abbrev report : RequestId → OpenFailure → Outbound
report request_id reason = Outbound.frame (report_frame request_id reason)

abbrev pub outcome_of : (Outbound → Bool) → RequestId → Result Failure (List ℕ × List ℕ) → Done
outcome_of accepts request_id (ok streams) = forwarded streams.0
outcome_of accepts request_id (err cancelled) = queued []
outcome_of accepts request_id (err (reported reason)) =
    queued (if accepts (report request_id reason) then report request_id reason ∷ [] else [])

-- `handle_open`, from the clock at its start; where the queue of the writer takes a message is
-- given by `accepts`.
module _ (hmac : List ℕ → List ℕ → Mac) (key : List ℕ) where
  unfoldable pub handle_open : (Outbound → Bool) → OpenContext → ℕ → Bool → Setup → Done
  handle_open accepts context start is_cancelled s = outcome_of accepts context.request_id (
      if is_cancelled
      then err cancelled
      else setup hmac key context (start + context.timing.request_wait) s)
