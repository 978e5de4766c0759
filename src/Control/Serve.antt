-- ===== src/Control/Serve.antt =====
-- src/server/control.rs: what `serve` does around the handshake and the session loop.
-- Other commands come between the registration and the end of the session, so that these are two
-- functions: each takes the actor as it is then.
pub mod Laws
use tunlet.Protocol.Frame.{Fault}
use tunlet.Prelude.{ℕ, if◌then◌else◌, Bool, Option, none, some, List, [], ◌∷◌}
use tunlet.Error.{ErrorCode, AppError, Result, ok, err}
use tunlet.Protocol.Enums.{Mac, MessageType, SessionId}
use tunlet.Protocol.Registered
use tunlet.Protocol.Registered.{Registered}
use tunlet.Protocol.Frame.{write_error}
use tunlet.Auth.{mac, ready_transcript, label_control_ready}
use tunlet.Registry.State.{
  Env, Outbound, outbound_frame, outbound_error, close_after_flush, RegisterRequest, Registration,
}
use tunlet.Registry.Handle as RegistryHandle
use tunlet.Registry.Handle.{Actor}
use tunlet.Control.Handshake.{Authenticated, rejection_code}

-- What is written to a client whose handshake failed.
unfoldable pub reject_handshake : Fault → AppError → List ℕ
reject_handshake fault error = elim (write_error fault [] (rejection_code error)) [
  | ok written ↦ written
  | err _ ↦ []
]

-- The channels and tokens of one connection.
pub record Tokens : Type 0 where
  pub writer : ℕ
  pub data_cancel : ℕ
  pub control_cancel : ℕ

abbrev pub request_of : Authenticated → Tokens → RegisterRequest
request_of authenticated tokens = record {
  session_id = authenticated.session_id;
  instance_id = authenticated.hello.instance_id;
  mode = authenticated.hello.mode;
  requested_port = authenticated.hello.requested_port;
  writer = tokens.writer;
  data_cancel = tokens.data_cancel;
  control_cancel = tokens.control_cancel;
}

-- How the registration ends: the session loop starts, or the connection is closed. The first
-- messages of the writer's queue come with it.
pub data Opening : Type 0 where
  started : Registration → List Outbound → Opening
  refused : List Outbound → Opening
  unwritable : Opening

module _ (hmac : List ℕ → List ℕ → Mac) (key : List ℕ) where
  unfoldable pub registered_message : List ℕ → Registration → Registered
  registered_message transcript registration = record {
    assigned_port = registration.assigned_port;
    max_connections = registration.max_connections;
    ready_mac =
        mac hmac key label_control_ready
          (ready_transcript transcript registration.assigned_port registration.max_connections);
  }

  -- `writable`: the writer's task still takes messages.
  abbrev after_registration :
      Env → Authenticated → Bool → Actor × Result ErrorCode Registration → Actor × Opening
  after_registration env authenticated writable (actor, err code) =
      (actor, refused (outbound_error code ∷ (close_after_flush ∷ [])))
  after_registration env authenticated writable (actor, ok registration) =
      if writable
      then (
        actor,
        started registration (
            outbound_frame MessageType.registered
              (Registered.encode (registered_message authenticated.transcript registration))
            ∷ []),
      )
      else (
        RegistryHandle.session_lost env actor authenticated.session_id registration.generation,
        unwritable,
      )

  unfoldable pub open_session : Env → Actor → Authenticated → Tokens → Bool → Actor × Opening
  open_session env actor authenticated tokens writable =
      after_registration env authenticated writable
        (RegistryHandle.register env actor (request_of authenticated tokens))

-- The end of `serve`, behind the session loop, whose result is `clean`.
unfoldable pub close_session : Env → Actor → SessionId → ℕ → Bool → Actor
close_session env actor session_id generation clean =
    if clean
    then RegistryHandle.goodbye env actor session_id generation
    else RegistryHandle.session_lost env actor session_id generation
