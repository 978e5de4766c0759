-- ===== src/Client/Register/Agreement.antt =====
-- src/client/control.rs and src/server/control.rs: the two sides of one registration.
use tunlet.Prelude.{none}
use tunlet.Protocol.Exchange.Laws.{write_preamble_ok}
use tunlet.Protocol.Frame.{no_faults}
use tunlet.Prelude.{
  ℕ, ◌^◌, ◌≡◌, ◌≢◌, refl, sym, ap, ◌∙◌, some, List, ◌++◌, [], length, append-nil, append_assoc, ◌≤◌,
  ◌<◌,
}
use tunlet.Error.{Result, ok}
use tunlet.Protocol.Enums.{Kind, MessageType, Mac, Nonce, SessionId}
use tunlet.Protocol.Preamble.{encode_preamble}
use tunlet.Protocol.ControlHello
use tunlet.Protocol.ControlHello.{ControlHello}
use tunlet.Protocol.ControlChallenge
use tunlet.Protocol.ControlChallenge.{ControlChallenge}
use tunlet.Protocol.Registered
use tunlet.Protocol.Registered.{Registered}
use tunlet.Protocol.Frame.{Frame, read_preamble, write_frame}
use tunlet.Protocol.Exchange.{framed}
use tunlet.Protocol.Exchange.Laws.{answer-encode, write_frame_ok}
use tunlet.Auth.{mac, control_transcript, label_control_client}
use tunlet.Control.Handshake.{challenge_for, handshake}
use tunlet.Control.Handshake.Laws.{challenge_frame}
use tunlet.Control.Handshake.Complete.{honest, handshake_complete, proof_legal, hello_legal}
use tunlet.Control.Serve.{registered_message}
use tunlet.Protocol.ControlHello.{AllowedPort}
use tunlet.Protocol.Preamble.{decode_preamble-encode_preamble}
use tunlet.Protocol.Frame.Laws.{read_exact-append}
use tunlet.Protocol.Enums.{preamble_len}
use tunlet.Registry.State.{Registration}
use tunlet.Client.Register.{Failure, fatal, Session, classify, transport, unknown_addr, register}
use tunlet.Client.Register.Laws.{challenge_from, registered_from}
use tunlet.Client.Register.Messages.{
  challenge-IsValid, challenge_checks, challenge_legal, registered-IsValid, registered_checks,
  registered_legal,
}

-- What the client's attempt gives.
abbrev pub outcome :
    SessionId → ℕ → ℕ → List ℕ → List ℕ → Result Failure (Session × List ℕ × List ℕ)
outcome i p m rest written = ok (
  record { session_id = i; server_addr = unknown_addr; assigned_port = p; max_connections = m },
  rest,
  written,
)

module _ (hmac : List ℕ → List ℕ → Mac) (key : List ℕ)
    (size : (k m : List ℕ) → length (hmac k m) ≡ 32) where
  length-encode_preamble : (k : Kind) → length (encode_preamble k) ≡ preamble_len
  unfolding encode_preamble
  length-encode_preamble k = refl

  -- The client's first words.
  hello_written :
      (hello : ControlHello)
      → ControlHello.IsValid hello
      → write_frame none
          (encode_preamble Kind.control)
          (record { ty = MessageType.control_hello; payload = ControlHello.encode hello })
        ≡ ok (
            encode_preamble Kind.control
            ++ framed MessageType.control_hello (ControlHello.encode hello))
  hello_written hello v = write_frame_ok _ _ (hello_legal hello v).size

  said_twice :
      (h p : List ℕ)
      → (encode_preamble Kind.control ++ h) ++ p ≡ encode_preamble Kind.control ++ (h ++ (p ++ []))
  said_twice h p =
      append_assoc (encode_preamble Kind.control) h p
      ∙ ap (λ q. encode_preamble Kind.control ++ (h ++ q)) (sym (append-nil p))

  pub register_complete :
      (hello : ControlHello) (n : Nonce) (i : SessionId) (p m : ℕ) (rest : List ℕ)
      → ControlHello.IsValid hello
      → length n ≡ 32
      → length i ≡ 16
      → Registered.IsValid (registered_from hmac key (control_transcript hello n i) p m)
      → (hello.requested_port ≢ 0 → p ≡ hello.requested_port)
      → register hmac key no_faults
          (some hello.client_nonce)
          hello.instance_id
          hello.mode
          hello.requested_port
          (framed MessageType.control_challenge
              (ControlChallenge.encode (challenge_from hmac key (control_transcript hello n i) n i))
            ++ (framed MessageType.registered
                  (Registered.encode (registered_from hmac key (control_transcript hello n i) p m))
                ++ rest))
        ≡ outcome i p m rest (encode_preamble Kind.control ++ honest hmac key hello n i [])
  unfolding register
  register_complete hello n i p m rest v n_size i_size r_valid asked =
      let t = control_transcript hello n i in
      let c = challenge_from hmac key t n i in
      let r = registered_from hmac key t p m in
      let c_legal = challenge_legal hmac key size t n i n_size i_size in
      let proof : Frame = record {
        ty = MessageType.control_proof;
        payload = mac hmac key label_control_client t;
      } in
      let hello_frame = framed MessageType.control_hello (ControlHello.encode hello) in
      rw
        (
          write_preamble_ok [] Kind.control,
          hello_written hello v,
          answer-encode transport fatal classify Kind.control
              (record { ty = MessageType.control_challenge; payload = ControlChallenge.encode c })
              (framed MessageType.registered (Registered.encode r) ++ rest) c_legal (λ e. cc),
          ControlChallenge.decode-encode_control_challenge c
              (challenge-IsValid hmac key size t n i n_size i_size),
          challenge_checks hmac key size t n i,
          write_frame_ok (encode_preamble Kind.control ++ hello_frame) proof
              (proof_legal hmac key t size).size,
          answer-encode transport fatal classify Kind.control
              (record { ty = MessageType.registered; payload = Registered.encode r }) rest
              (registered_legal hmac key size r r_valid) (λ e. cc),
          Registered.decode-encode_registered r r_valid,
          registered_checks hmac key size t hello.requested_port p m asked,
        )
        (ap (outcome i p m rest) (
          said_twice hello_frame
            (framed MessageType.control_proof (mac hmac key label_control_client t))))

  -- A server and a client that hold the key, of which the server reads what the client writes and
  -- the client reads the server's challenge and the message for the registration, agree: where no
  -- write fails, the HMAC gives 32 bytes, the client's hello is valid, the random values have 32
  -- and 16 bytes, the port and the maximum are those a REGISTERED may carry, and the port is the
  -- one asked for, if any, the client's attempt gives a session with the session id, port and
  -- maximum of the server, the server reads a preamble for a control connection, and its handshake
  -- gives the client's hello, that session id and their transcript. Neither side has anything left
  -- to read.
  pub registration_agrees :
      (hello : ControlHello) (n : Nonce) (i : SessionId) (registration : Registration)
      → ControlHello.IsValid hello
      → length n ≡ 32
      → length i ≡ 16
      → (1024 ≤ registration.assigned_port) × (registration.assigned_port < 65536)
      → (0 < registration.max_connections) × (registration.max_connections < 2 ^ 32)
      → (hello.requested_port ≢ 0 → registration.assigned_port ≡ hello.requested_port)
      → (register hmac key no_faults
            (some hello.client_nonce)
            hello.instance_id
            hello.mode
            hello.requested_port
            (challenge_frame hmac key (control_transcript hello n i) n i
              ++ framed MessageType.registered (
                  Registered.encode
                    (registered_message hmac key (control_transcript hello n i) registration)))
          ≡ outcome i registration.assigned_port registration.max_connections []
              (encode_preamble Kind.control ++ honest hmac key hello n i []))
        × (read_preamble (encode_preamble Kind.control ++ honest hmac key hello n i [])
            ≡ ok (Kind.control, honest hmac key hello n i []))
        × (handshake hmac key none (some n) (some i) (honest hmac key hello n i [])
            ≡ ok (
              record { hello = hello; session_id = i; transcript = control_transcript hello n i },
              [],
              challenge_frame hmac key (control_transcript hello n i) n i,
            ))
  unfolding registered_message read_preamble challenge_for
  registration_agrees hello n i registration v n_size i_size (p_low, p_high) (m_low, m_high) asked =
      let t = control_transcript hello n i in
      let p = registration.assigned_port in
      let m = registration.max_connections in
      let r = framed MessageType.registered (Registered.encode (registered_from hmac key t p m)) in
      (
        ap
              (λ s.
                register hmac key no_faults (some hello.client_nonce) hello.instance_id hello.mode
                  hello.requested_port (challenge_frame hmac key t n i ++ s))
              (sym (append-nil r))
            ∙ register_complete hello n i p m [] v n_size i_size
                (registered-IsValid hmac key size t p m p_low p_high m_low m_high) asked,
        rw (
          read_exact-append preamble_len (encode_preamble Kind.control)
              (honest hmac key hello n i []) (length-encode_preamble Kind.control),
          decode_preamble-encode_preamble Kind.control,
        ),
        handshake_complete hmac key hello n i [] size v n_size i_size,
      )
