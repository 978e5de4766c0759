-- ===== src/Client/Register.antt =====
-- src/client/control.rs: the handshake and the registration of a control connection.
-- The reader is what the server sends; the third result is what the client has written.
pub mod Laws
pub mod Errors
pub mod Messages
pub mod Agreement
use tunlet.Protocol.Frame.{Faults}
use Prim.Native.String.{String}
use tunlet.Prelude.{ℕ, ◌==◌, if◌then◌else◌, Bool, not, ◌&&◌, Option, none, some, List, [], ◌∷◌}
use tunlet.Config.{SocketAddr, IpAddr}
use tunlet.Error.{
  ErrorCode, is_fatal_for_client, ProtocolError, new, AppError, Result, ok, err, ◌>>=◌, lift,
}
use tunlet.Protocol.Enums.{Kind, MessageType, Mac, Nonce, SessionId, InstanceId, Mode}
use tunlet.Protocol.ControlHello
use tunlet.Protocol.ControlHello.{ControlHello}
use tunlet.Protocol.ControlChallenge
use tunlet.Protocol.ControlChallenge.{ControlChallenge}
use tunlet.Protocol.Registered
use tunlet.Protocol.Registered.{Registered}
use tunlet.Protocol.Frame.{write_preamble, write_frame}
use tunlet.Protocol.Exchange.{random, answer, map_err}
use tunlet.Auth.{
  mac, verify, control_transcript, ready_transcript, label_control_server, label_control_client,
  label_control_ready,
}

-- `Failure::Retry` carries a text for the log, which is left out.
pub data Failure : Type 0 where
  fatal : AppError → Failure
  retry : Failure

pub record Session : Type 0 where
  pub session_id : SessionId
  pub server_addr : SocketAddr
  pub assigned_port : ℕ
  pub max_connections : ℕ

unfoldable pub classify : ErrorCode → Failure
unfolding is_fatal_for_client
classify code = if is_fatal_for_client code then fatal (AppError.registration code) else retry

-- The errors of the transport: those of the socket are worth another attempt.
unfoldable pub transport : AppError → Failure
transport (AppError.io _) = retry
transport other = fatal other

-- The address before `connect_and_register` fills it in.
abbrev pub unknown_addr : SocketAddr
unknown_addr = record { ip = IpAddr.v4 (0 ∷ 0 ∷ 0 ∷ 0 ∷ []); port = 0 }

module _ (hmac : List ℕ → List ℕ → Mac) (key : List ℕ) where
  -- The check of the server's proof.
  unfoldable pub check_challenge : List ℕ → ControlChallenge → Result Failure (Unit {0})
  check_challenge transcript challenge =
      if not (verify hmac key label_control_server transcript challenge.server_mac)
      then err (fatal AppError.auth)
      else ok tt

  -- The checks of the assignment, behind the handshake.
  unfoldable pub check_registered : List ℕ → ℕ → Registered → Result Failure (Unit {0})
  check_registered transcript requested_port registered =
      if not (
        verify hmac key label_control_ready
          (ready_transcript transcript registered.assigned_port registered.max_connections)
          registered.ready_mac)
      then err (fatal AppError.auth)
      else if not (requested_port == 0) && not (registered.assigned_port == requested_port)
      then err (fatal (AppError.protocol (new "server assigned a different port than requested")))
      else ok tt

  unfoldable pub register :
      Faults
      → Option Nonce
      → InstanceId
      → Mode
      → ℕ
      → List ℕ
      → Result Failure (Session × List ℕ × List ℕ)
  register faults nonce instance_id mode requested_port reader = do
    preamble ← map_err transport (write_preamble (faults 0) [] Kind.control)
    client_nonce ← map_err fatal (random nonce)
    let hello : ControlHello = record {
      instance_id = instance_id;
      client_nonce = client_nonce;
      mode = mode;
      requested_port = requested_port;
    }
    written ← map_err transport (
        write_frame (faults 1) preamble
          (record { ty = MessageType.control_hello; payload = ControlHello.encode hello }))
    (frame, rest) ←
        answer transport fatal classify Kind.control MessageType.control_challenge reader
    challenge ← map_err fatal (lift (ControlChallenge.decode frame.payload))
    let transcript = control_transcript hello challenge.server_nonce challenge.session_id
    checked ← check_challenge transcript challenge
    written' ← map_err transport (
        write_frame (faults 2) written (record {
          ty = MessageType.control_proof;
          payload = mac hmac key label_control_client transcript;
        }))
    (frame', rest') ← answer transport fatal classify Kind.control MessageType.registered rest
    registered ← map_err fatal (lift (Registered.decode frame'.payload))
    accepted ← check_registered transcript requested_port registered
    ok (
      record {
        session_id = challenge.session_id;
        server_addr = unknown_addr;
        assigned_port = registered.assigned_port;
        max_connections = registered.max_connections;
      },
      rest',
      written',
    )
