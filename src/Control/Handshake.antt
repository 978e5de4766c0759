-- ===== src/Control/Handshake.antt =====
-- src/server/control.rs: the handshake.
-- The reader is what the client sends behind the preamble; the challenge is what it is sent in
-- between. The two random values are arguments, `none` for a failure of the system's source.
pub mod Laws
pub mod Complete
use tunlet.Protocol.Frame.{Fault}
use Prim.Native.String.{String}
use tunlet.Prelude.{
  ℕ, ◌≡◌, refl, arith, if◌then◌else◌, Bool, true, not, Option, none, some, List, ◌++◌, length, [],
  ◌≤◌, ◌<◌, inl, inr, Bool-cases,
}
use tunlet.Prelude.Bytes.{IsBytes}
use tunlet.Error.{
  ErrorCode, auth_failed, internal_error, ProtocolError, AppError, Result, ok, err, ◌>>=◌, ◌>>◌,
  lift, >>=-eq-ok,
}
use tunlet.Protocol.Enums.{
  Kind, MessageType, Mac, Nonce, SessionId, Mode, payload_len, is_control, type_as_u8,
}
use tunlet.Protocol.ControlHello
use tunlet.Protocol.ControlHello.{ControlHello}
use tunlet.Protocol.ControlHello.Laws as HelloLaws
use tunlet.Protocol.ControlChallenge
use tunlet.Protocol.ControlChallenge.{ControlChallenge}
use tunlet.Protocol.Frame
use tunlet.Protocol.Frame.{Frame, require_kind, require_type, read_frame, write_frame, type_eq}
use tunlet.Protocol.Exchange.{random, expect}
use tunlet.Auth.{mac, verify, control_transcript, label_control_server, label_control_client}
use tunlet.Auth.Injective.{verify_iff_mac}

pub record Authenticated : Type 0 where
  pub hello : ControlHello
  pub session_id : SessionId
  pub transcript : List ℕ

module _ (hmac : List ℕ → List ℕ → Mac) (key : List ℕ) where
  -- The challenge for a hello.
  unfoldable pub challenge_for : List ℕ → Nonce → SessionId → ControlChallenge
  challenge_for transcript server_nonce session_id = record {
    server_nonce = server_nonce;
    session_id = session_id;
    server_mac = mac hmac key label_control_server transcript;
  }

  -- The part of `handshake` behind the challenge.
  unfoldable pub check_proof : Authenticated → List ℕ → Result AppError (Authenticated × List ℕ)
  check_proof authenticated reader = do
    (frame, rest) ← expect Kind.control MessageType.control_proof reader
    (if not (verify hmac key label_control_client authenticated.transcript frame.payload)
        then err AppError.auth
        else ok (authenticated, rest))

  -- `handshake`: the client that was authenticated, what it sent behind the proof, and the bytes
  -- of the challenge that was written.
  unfoldable pub handshake :
      Fault
      → Option Nonce
      → Option SessionId
      → List ℕ
      → Result AppError (Authenticated × List ℕ × List ℕ)
  handshake fault nonce session reader = do
    (frame, rest) ← expect Kind.control MessageType.control_hello reader
    hello ← lift (ControlHello.decode frame.payload)
    server_nonce ← random nonce
    session_id ← random session
    let transcript = control_transcript hello server_nonce session_id
    written ← write_frame fault [] (record {
      ty = MessageType.control_challenge;
      payload = ControlChallenge.encode (challenge_for transcript server_nonce session_id);
    })
    (authenticated, rest') ←
        check_proof (record { hello = hello; session_id = session_id; transcript = transcript })
          rest
    ok (authenticated, rest', written)

-- The code of the ERROR frame that answers a failed handshake.
unfoldable pub rejection_code : AppError → ErrorCode
rejection_code AppError.auth = auth_failed
rejection_code (AppError.protocol e) = e.code
rejection_code _ = internal_error
