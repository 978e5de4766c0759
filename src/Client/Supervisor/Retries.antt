-- ===== src/Client/Supervisor/Retries.antt =====
-- src/client/mod.rs: a client process whose first attempts do not reach a server.
use tunlet.Protocol.Frame.{no_faults}
use tunlet.Prelude.{
  ℕ, ◌≡◌, ◌≢◌, refl, ap, ◌∙◌, arith, Bool, if◌then◌else◌, ◌≤◌, ◌<◌, ◌^◌, false, some, List, [], ◌∷◌,
  ◌++◌, All, ◌⊎◌, inl, inr, length, append-nil,
}
use tunlet.Config.{SocketAddr}
use tunlet.Error.{ok}
use tunlet.Protocol.Enums.{MessageType, Mac, Nonce, SessionId}
use tunlet.Protocol.ControlHello
use tunlet.Protocol.Registered
use tunlet.Protocol.Exchange.{framed}
use tunlet.Auth.{control_transcript}
use tunlet.Control.Handshake.Laws.{challenge_frame}
use tunlet.Control.Serve.{registered_message}
use tunlet.Registry.State.{Registration}
use tunlet.Timing.{Timing}
use tunlet.Client.Register.{Session}
use tunlet.Client.Register.Laws.{hello_of}
use tunlet.Client.Register.Agreement.{registration_agrees}
use tunlet.Client.Session.{retry}
use tunlet.Client.Supervisor.{
  ClientState, timed_out, unreachable, connected, Trial, running, stopped, Progress, Run,
  request_of, connect_and_register, connect, attempt, after_attempt, run,
}

-- An attempt without a cancellation.
abbrev pub Undisturbed : Trial → Type 0
Undisturbed trial =
    (trial.cancelled_before ≡ false) × (trial.cancelled ≡ false) × (trial.cancelled_after ≡ false)

-- Such an attempt that reaches no server in time.
abbrev pub Unlucky : Trial → Type 0
Unlucky trial =
    Undisturbed trial × ((trial.connection ≡ timed_out) ⊎ (trial.connection ≡ unreachable))

module _ (hmac : List ℕ → List ℕ → Mac) (key : List ℕ) (timing : Timing) where
  -- What a server that holds the key sends to the attempt of a client in a state.
  abbrev pub served : ClientState → Nonce → Nonce → SessionId → Registration → List ℕ
  served state nonce n i registration =
      let hello = hello_of state.instance_id nonce (request_of state).0 (request_of state).1 in
      let transcript = control_transcript hello n i in
      challenge_frame hmac key transcript n i
      ++ framed MessageType.registered
          (Registered.encode (registered_message hmac key transcript registration))

  attempt-Unlucky :
      (state : ClientState) (trial : Trial)
      → Unlucky trial
      → attempt hmac key timing state trial
        ≡ record { state = state; announced = []; outcome = some retry }
  unfolding attempt
  attempt-Unlucky state trial ((before, here, after), inl e) = rw (attempt, here, e) refl
  attempt-Unlucky state trial ((before, here, after), inr e) = rw (attempt, here, e) refl

  -- Such an attempt leaves everything to the others.
  skip :
      (state : ClientState) (trial : Trial) (trials : List Trial)
      → Unlucky trial
      → run hmac key timing state (trial ∷ trials) ≡ run hmac key timing state trials
  unfolding run
  skip state trial trials u = rw (run, attempt-Unlucky state trial u, u.0.0, u.0.2) refl

  run-Unlucky :
      (state : ClientState) (failures trials : List Trial)
      → All Unlucky failures
      → run hmac key timing state (failures ++ trials) ≡ run hmac key timing state trials
  unfolding run
  run-Unlucky state [] trials h = refl
  run-Unlucky state (trial ∷ failures) trials (u, h) =
      skip state trial (failures ++ trials) u ∙ run-Unlucky state failures trials h

  run_one :
      (state : ClientState) (trial : Trial)
      → trial.cancelled_before ≡ false
      → run hmac key timing state (trial ∷ [])
        ≡ after_attempt hmac key timing
            (attempt hmac key timing state trial)
            trial.cancelled_after
            (record { status = running; announced = [] })
  unfolding run
  run_one state trial e =
      ap
        (λ b.
          if b
          then record { status = stopped; announced = [] }
          else after_attempt hmac key timing (attempt hmac key timing state trial)
              trial.cancelled_after (record { status = running; announced = [] }))
        e

  after_announced :
      (progress : Progress) (cancelled_after : Bool)
      → (after_attempt hmac key timing progress cancelled_after
          (record { status = running; announced = [] })).announced
        ≡ progress.announced
  after_announced progress cancelled_after = ground (arith, append-nil progress.announced)

  attempt_lucky :
      (state : ClientState) (trial : Trial) (session : Session)
      → trial.cancelled ≡ false
      → connect hmac key timing state (request_of state) trial.connection ≡ ok session
      → (attempt hmac key timing state trial).announced ≡ session.assigned_port ∷ []
  unfolding attempt
  attempt_lucky state trial session here e = ground arith

  run_lucky :
      (state : ClientState) (trial : Trial) (session : Session)
      → Undisturbed trial
      → connect hmac key timing state (request_of state) trial.connection ≡ ok session
      → (run hmac key timing state (trial ∷ [])).announced ≡ session.assigned_port ∷ []
  run_lucky state trial session (before, here, after) e =
      ap (λ (r : Run). r.announced) (run_one state trial before)
      ∙ after_announced (attempt hmac key timing state trial) trial.cancelled_after
      ∙ attempt_lucky state trial session here e

  connect_honest :
      (size : (k m : List ℕ) → length (hmac k m) ≡ 32) (state : ClientState) (addr : SocketAddr)
      (nonce n : Nonce) (i : SessionId) (registration : Registration)
      → ControlHello.IsValid
          (hello_of state.instance_id nonce (request_of state).0 (request_of state).1)
      → length n ≡ 32
      → length i ≡ 16
      → (1024 ≤ registration.assigned_port) × (registration.assigned_port < 65536)
      → (0 < registration.max_connections) × (registration.max_connections < 2 ^ 32)
      → ((request_of state).1 ≢ 0 → registration.assigned_port ≡ (request_of state).1)
      → connect hmac key timing state
          (request_of state)
          (connected addr (some nonce) no_faults (served state nonce n i registration))
        ≡ ok (record {
          session_id = i;
          server_addr = addr;
          assigned_port = registration.assigned_port;
          max_connections = registration.max_connections;
        })
  unfolding connect_and_register
  connect_honest size state addr nonce n i registration v n_size i_size p m asked =
      let hello = hello_of state.instance_id nonce (request_of state).0 (request_of state).1 in
      rw
        (
          connect,
          (registration_agrees hmac key size hello n i registration v n_size i_size p m asked).0,
        )
        refl

  -- A client keeps trying until it is registered: however many attempts reach no server in time,
  -- if none is cancelled and a next one reaches a server that holds the key, then the client has
  -- announced the port that this server assigned, and no other. No write of that attempt fails,
  -- the HMAC gives 32 bytes, the hello is valid, the random values have 32 and 16 bytes, the port
  -- and the maximum are those a REGISTERED may carry, and the port is the one asked for, if any.
  pub run_registers :
      (size : (k m : List ℕ) → length (hmac k m) ≡ 32) (state : ClientState) (failures : List Trial)
      (trial : Trial) (addr : SocketAddr) (nonce n : Nonce) (i : SessionId)
      (registration : Registration)
      → All Unlucky failures
      → Undisturbed trial
      → trial.connection
        ≡ connected addr (some nonce) no_faults (served state nonce n i registration)
      → ControlHello.IsValid
          (hello_of state.instance_id nonce (request_of state).0 (request_of state).1)
      → length n ≡ 32
      → length i ≡ 16
      → (1024 ≤ registration.assigned_port) × (registration.assigned_port < 65536)
      → (0 < registration.max_connections) × (registration.max_connections < 2 ^ 32)
      → ((request_of state).1 ≢ 0 → registration.assigned_port ≡ (request_of state).1)
      → (run hmac key timing state (failures ++ (trial ∷ []))).announced
        ≡ registration.assigned_port ∷ []
  run_registers size state failures trial addr nonce n i registration u t there v n_size i_size p m
        asked =
      ap (λ (r : Run). r.announced) (run-Unlucky state failures (trial ∷ []) u)
      ∙ run_lucky state trial _ t (
          ap (connect hmac key timing state (request_of state)) there
          ∙ connect_honest size state addr nonce n i registration v n_size i_size p m asked)
