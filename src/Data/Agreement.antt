-- ===== src/Data/Agreement.antt =====
-- src/server/data.rs, src/server/listener.rs and src/client/data.rs: a data connection from its
-- handshake to its forwarding.
use tunlet.Prelude.{none}
use tunlet.Protocol.Frame.{no_faults}
use tunlet.Prelude.{ℕ, ◌≡◌, refl, ap, ◌∙◌, true, some, List, ◌++◌, [], length, append_assoc}
use tunlet.Error.{ok}
use tunlet.Protocol.Enums.{Kind, MessageType, Mac, Nonce}
use tunlet.Protocol.Preamble.{encode_preamble}
use tunlet.Protocol.DataHello
use tunlet.Protocol.DataHello.{DataHello}
use tunlet.Protocol.Frame.{empty, write_frame}
use tunlet.Protocol.Exchange.{framed}
use tunlet.Protocol.Exchange.Laws.{write_frame_ok}
use tunlet.Registry.State.{Env, ClaimOutcome, delivered}
use tunlet.Registry.Handle as RegistryHandle
use tunlet.Registry.Handle.{Actor}
use tunlet.Client.Open.{data_handshake}
use tunlet.Data.{Outcome, handed_over, settle, handshake}
use tunlet.Data.Public.{serve_public}
use tunlet.Data.Complete.{
  honest, challenge_frame, result, client_connects, server_serves, ready_legal,
}

settled :
    (written : List ℕ) (c : Actor × ClaimOutcome)
    → c.1 ≡ delivered
    → settle none written c ≡ record { actor = c.0; written = written; end = handed_over }
unfolding settle
settled written c e = rw e refl

ready_written :
    (written : List ℕ)
    → write_frame none written (empty MessageType.data_ready)
      ≡ ok (written ++ framed MessageType.data_ready [])
ready_written written = write_frame_ok written (empty MessageType.data_ready) ready_legal.size

module _ (hmac : List ℕ → List ℕ → Mac) (key : List ℕ)
    (size : (k m : List ℕ) → length (hmac k m) ≡ 32) (env env' : Env) (between : Actor → Actor)
    (actor : Actor) where
  -- A client and a server that hold the key set up a data connection: where no write fails, the
  -- HMAC gives 32 bytes, the client's hello is valid, the nonce has 32 bytes, the request is
  -- pending, and its claim is delivered when the proof was read, the server hands the connection
  -- over, the waiting task writes DATA_READY in time and forwards, and the client, reading what
  -- the server has written and what the task forwards behind it, ends its handshake with that and
  -- has written what the server has read.
  pub data_connection_agrees :
      (hello : DataHello) (n : Nonce) (rest : List ℕ) (socket : ℕ)
      → DataHello.IsValid hello
      → length n ≡ 32
      → (RegistryHandle.peek env actor hello.session_id hello.request_id).1 ≡ true
      → (RegistryHandle.claim env'
          (between (RegistryHandle.peek env actor hello.session_id hello.request_id).0)
          hello.session_id
          hello.request_id
          socket).1
        ≡ delivered
      → (outcome : Outcome) × (handshake hmac key no_faults env between env' actor
            (some n)
            (honest hmac key hello n [])
            socket
          ≡ outcome)
        × (outcome.end ≡ handed_over)
        × ((serve_public none
              (some outcome.written)
              true
              hello.session_id
              hello.request_id).forwards
            ≡ true)
        × (data_handshake hmac key no_faults
              (some hello.client_nonce)
              hello.session_id
              hello.request_id
              ((serve_public none
                  (some outcome.written)
                  true
                  hello.session_id
                  hello.request_id).written
                ++ rest)
            ≡ result rest (encode_preamble Kind.data_kind ++ honest hmac key hello n []))
  unfolding serve_public
  data_connection_agrees hello n rest socket v n_size there taken =
      let c =
        RegistryHandle.claim env'
          (between (RegistryHandle.peek env actor hello.session_id hello.request_id).0)
          hello.session_id hello.request_id socket in
      let challenge = challenge_frame hmac key hello n in
      let outcome : Outcome = record { actor = c.0; written = challenge; end = handed_over } in
      (
        outcome,
        server_serves hmac key size env env' between actor hello n [] socket v n_size there
            ∙ settled challenge c taken,
        refl,
        rw (serve_public, ready_written challenge) refl,
        rw (serve_public, ready_written challenge)
            (ap
                (data_handshake hmac key no_faults (some hello.client_nonce) hello.session_id
                  hello.request_id)
                (append_assoc challenge (framed MessageType.data_ready []) rest)
              ∙ client_connects hmac key size hello n rest v n_size),
      )
