-- ===== src/Client/Tests.antt =====
-- src/client: a registration, a session and a process as examples.
use tunlet.Prelude.{none}
use tunlet.Protocol.Frame.{no_faults}
use tunlet.Prelude.{ℕ, ◌≡◌, ◌≢◌, refl, arith, false, some, List, [], ◌∷◌, ◌++◌, replicate, All, inl}
use tunlet.Prelude.Bytes.{IsBytes, IsBytes-of_small, to_be}
use tunlet.Config.{SocketAddr}
use tunlet.Error.{io, ok}
use tunlet.Protocol.Enums.{Kind, Mac, Nonce, SessionId, InstanceId, Mode, type_as_u8}
use tunlet.Protocol.Preamble.{encode_preamble}
use tunlet.Protocol.ControlHello
use tunlet.Protocol.ControlHello.{ControlHello}
use tunlet.Protocol.ControlChallenge
use tunlet.Protocol.Registered
use tunlet.Protocol.Frame
use tunlet.Protocol.Frame.{Frame, read_preamble}
use tunlet.Timing
use tunlet.Auth.{mac, control_transcript}
use tunlet.Registry.State.{Registration}
use tunlet.Control.Handshake.{handshake, challenge_for}
use tunlet.Control.Handshake.Laws.{challenge_frame}
use tunlet.Control.Handshake.Complete.{honest}
use tunlet.Control.Serve.{registered_message}
use tunlet.Client.Register.{Session, unknown_addr, register}
use tunlet.Client.Register.Laws.{Confirms, register_sound}
use tunlet.Client.Register.Agreement.{outcome, registration_agrees}
use tunlet.Client.Session.Requests.{unbounded}
use tunlet.Client.Supervisor.{Trial, timed_out, connected, failed, initial_state, request_of, run}
use tunlet.Client.Supervisor.Port.{Answers, InRange, run_announces}
use tunlet.Client.Supervisor.Retries.{served, run_registers}
use tunlet.Client.Supervisor.Errors.{run_survives_io}

abbrev instance1 : InstanceId
instance1 = replicate 16 1

abbrev client_nonce : Nonce
client_nonce = replicate 32 2

abbrev hello : ControlHello
hello = record {
  instance_id = instance1;
  client_nonce = client_nonce;
  mode = Mode.fresh;
  requested_port = 30000;
}

hello-IsValid : ControlHello.IsValid hello
hello-IsValid = record {
  instance_size = refl;
  nonce_size = refl;
  port_range = omega arith;
  port_allowed = omega arith;
}

-- A function in the place of the HMAC.
abbrev constant : List ℕ → List ℕ → Mac
constant key message = replicate 32 9

abbrev key : List ℕ
key = 7 ∷ []

abbrev nonce : Nonce
nonce = replicate 32 3

abbrev session_id : SessionId
session_id = replicate 16 4

abbrev registration : Registration
registration = record { assigned_port = 30000; max_connections = 256; generation = 1 }

abbrev stream : List ℕ
stream =
    served constant key Timing.default (initial_state instance1 (some 30000)) client_nonce nonce
      session_id registration

abbrev said : List ℕ
said = honest constant key hello nonce session_id []

registration_agrees_example :
    (register constant key no_faults (some client_nonce) instance1 Mode.fresh 30000 stream
      ≡ outcome session_id 30000 256 [] (encode_preamble Kind.control ++ said))
    × (read_preamble (encode_preamble Kind.control ++ said) ≡ ok (Kind.control, said))
    × (handshake constant key none (some nonce) (some session_id) said
        ≡ ok (
          record {
            hello = hello;
            session_id = session_id;
            transcript = control_transcript hello nonce session_id;
          },
          [],
          challenge_frame constant key (control_transcript hello nonce session_id) nonce session_id,
        ))
unfolding request_of
registration_agrees_example =
    registration_agrees constant key (λ k m. refl) hello nonce session_id registration hello-IsValid
      refl refl (omega arith, omega arith) (omega arith, omega arith) (λ _. refl)

stream-IsBytes : IsBytes stream
unfolding request_of Frame.encode ControlChallenge.encode challenge_for Registered.encode
    registered_message to_be mac type_as_u8
stream-IsBytes = IsBytes-of_small stream refl

abbrev established : Session
established = record {
  session_id = session_id;
  server_addr = unknown_addr;
  assigned_port = 30000;
  max_connections = 256;
}

register_sound_example :
    Confirms constant key
      (some client_nonce)
      instance1
      Mode.fresh
      30000
      stream
      established
      []
      (encode_preamble Kind.control ++ said)
register_sound_example =
    register_sound constant key no_faults (some client_nonce) instance1 Mode.fresh 30000 stream []
      (encode_preamble Kind.control ++ said) established stream-IsBytes
      registration_agrees_example.0

abbrev server : SocketAddr
server = unknown_addr

abbrev unlucky : Trial
unlucky = record {
  cancelled_before = false;
  cancelled = false;
  cancelled_after = false;
  connection = timed_out;
  accepts = unbounded;
  wakes = [];
}

abbrev lucky : Trial
lucky = record unlucky { connection = connected server (some client_nonce) no_faults stream }

run_announces_example :
    (p : ℕ) × Answers (some 30000) p
    × All
        (λ q. (q ≡ p) × InRange q)
        (run constant key Timing.default
          (initial_state instance1 (some 30000))
          (unlucky ∷ (lucky ∷ []))).announced
run_announces_example =
    run_announces constant key Timing.default instance1 (some 30000) (unlucky ∷ (lucky ∷ []))
      (tt, (stream-IsBytes, tt))

run_registers_example :
    (run constant key Timing.default
      (initial_state instance1 (some 30000))
      (unlucky ∷ (lucky ∷ []))).announced
    ≡ 30000 ∷ []
unfolding request_of
run_registers_example =
    run_registers constant key Timing.default (λ k m. refl) (initial_state instance1 (some 30000))
      (unlucky ∷ []) lucky server client_nonce nonce session_id registration
      (((refl, refl, refl), inl refl), tt) (refl, refl, refl) refl hello-IsValid refl refl
      (omega arith, omega arith) (omega arith, omega arith) (λ _. refl)

run_survives_io_example :
    (run constant key Timing.default
      (initial_state instance1 (some 30000))
      (unlucky ∷ (lucky ∷ []))).status
    ≢ failed (io "connection reset")
run_survives_io_example =
    run_survives_io constant key Timing.default (initial_state instance1 (some 30000))
      (unlucky ∷ (lucky ∷ [])) "connection reset"
