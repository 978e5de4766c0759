-- ===== src/Client/Supervisor/Port.antt =====
-- src/client/mod.rs: the ports that a client process announces.
use tunlet.Protocol.Frame.{Faults}
use tunlet.Prelude.{
  ℕ, ◌≡◌, ◌≢◌, refl, subst, ap, sym, ◌∙◌, arith, ◌≤◌, ◌<◌, Bool-cases, Bool, Option, none, some,
  List, [], ◌∷◌, ◌++◌, All, ◌⊎◌, inl, inr, ℕ_discrete,
}
use tunlet.Prelude.Bytes.{IsBytes}
use tunlet.Config.{SocketAddr}
use tunlet.Error.{ok, >>=-eq-ok, Result-cases}
use tunlet.Protocol.Enums.{Mac, Nonce, InstanceId, Mode}
use tunlet.Timing.{Timing}
use tunlet.Client.Register.{Session, register}
use tunlet.Client.Register.Laws.{register_sound}
use tunlet.Client.Supervisor.{
  ClientState, Connection, timed_out, unreachable, connected, Trial, Progress, Run, initial_state,
  request_of, connect_and_register, connect, attempt, after_attempt, run,
}

-- What a socket delivers is bytes.
abbrev pub IsSound : Connection → Type 0
IsSound timed_out = Unit {0}
IsSound unreachable = Unit {0}
IsSound (connected _ _ _ reader) = IsBytes reader

-- A port that a REGISTERED may carry.
abbrev pub InRange : ℕ → Type 0
InRange p = (1024 ≤ p) × (p < 65536)

-- The port that was asked for, if any.
abbrev pub Answers : Option ℕ → ℕ → Type 0
Answers none p = Unit {0}
Answers (some requested) p = (requested ≡ 0) ⊎ (p ≡ requested)

module _ (hmac : List ℕ → List ℕ → Mac) (key : List ℕ) (timing : Timing) where
  -- What a session's port has to do with the port that was asked for.
  abbrev Fits : ℕ → ℕ → Type 0
  Fits requested p = InRange p × (requested ≢ 0 → p ≡ requested)

  registered_port :
      (id : InstanceId) (mode : Mode) (requested : ℕ) (addr : SocketAddr) (nonce : Option Nonce)
      (faults : Faults) (reader : List ℕ) (session : Session)
      → IsBytes reader
      → connect_and_register hmac key timing id mode requested addr nonce faults reader ≡ ok session
      → Fits requested session.assigned_port
  unfolding connect_and_register
  registered_port id mode requested addr nonce faults reader session bytes e =
      >>=-eq-ok (register hmac key faults nonce id mode requested reader) _ e
        λ (s, rest, written) e1 k1.
          let c =
            register_sound hmac key faults nonce id mode requested reader rest written s bytes e1 in
          let same : s.assigned_port ≡ session.assigned_port = ground arith in
          subst (Fits requested) same ((c.valid.port_low, c.valid.port_high), c.asked)

  connect_port :
      (state : ClientState) (mode : Mode) (requested : ℕ) (connection : Connection)
      (session : Session)
      → IsSound connection
      → connect hmac key timing state (mode, requested) connection ≡ ok session
      → Fits requested session.assigned_port
  connect_port state mode requested timed_out session sound e = absurd (cc)
  connect_port state mode requested unreachable session sound e = absurd (cc)
  connect_port state mode requested (connected addr nonce faults reader) session sound e =
      registered_port state.instance_id mode requested addr nonce faults reader session sound
        (ground arith)

  -- The two ways of an attempt: nothing is announced and nothing changes, or a port is announced
  -- that the next attempt asks for.
  abbrev Announces : ClientState → Progress → Type 0
  Announces state progress =
      ((progress.announced ≡ []) × (progress.state ≡ state))
      ⊎ ((p : ℕ) × (progress.announced ≡ p ∷ [])
          × Fits (request_of state).1 p
          × (request_of progress.state ≡ (Mode.resume, p)))

  attempt_port :
      (state : ClientState) (trial : Trial)
      → IsSound trial.connection
      → Announces state (attempt hmac key timing state trial)
  unfolding attempt request_of
  attempt_port state trial sound = elim (Bool-cases trial.cancelled) [
    | inl e ↦ rw e (inl (refl, refl))
    | inr e ↦
        elim (Result-cases (connect hmac key timing state (request_of state) trial.connection)) [
          | inr (outcome, e1) ↦ rw (e, e1) (inl (refl, refl))
          | inl (session, e1) ↦
              rw (e, e1)
                (inr (
                  session.assigned_port,
                  refl,
                  connect_port state (request_of state).0 (request_of state).1 trial.connection
                      session sound e1,
                  refl,
                ))
        ]
  ]

  after_attempt_announced :
      (progress : Progress) (cancelled_after : Bool) (rest : Run)
      → ((after_attempt hmac key timing progress cancelled_after rest).announced
          ≡ progress.announced)
        ⊎ ((after_attempt hmac key timing progress cancelled_after rest).announced
            ≡ progress.announced ++ rest.announced)
  after_attempt_announced progress cancelled_after rest = ground arith

  -- One port for all attempts, that which is asked for if one is.
  abbrev OnePort : ℕ → List ℕ → Type 0
  OnePort requested announced =
      (p : ℕ) × (requested ≢ 0 → p ≡ requested) × All (λ q. (q ≡ p) × InRange q) announced

  nowhere : (requested : ℕ) → OnePort requested []
  nowhere requested = (requested, λ _. refl, tt)

  -- The next attempt asks for the port that this one was given.
  OnePort-next :
      (requested p : ℕ) (rest : List ℕ)
      → Fits requested p
      → OnePort p rest
      → OnePort requested (p ∷ rest)
  OnePort-next requested p rest (range, asked) (q, same, all) =
      let q_is : q ≡ p = same (λ zero. omega (arith, range.0)) in
      (p, asked, ((refl, range), subst (λ r. All (λ s. (s ≡ r) × InRange s) rest) q_is all))

  OnePort-turn :
      (state : ClientState) (progress : Progress) (after : List ℕ) (rest : List ℕ)
      → Announces state progress
      → OnePort (request_of progress.state).1 rest
      → (after ≡ progress.announced) ⊎ (after ≡ progress.announced ++ rest)
      → OnePort (request_of state).1 after
  OnePort-turn state progress after rest (inl (none_yet, same)) later (inl e) =
      subst (OnePort (request_of state).1) (sym (e ∙ none_yet)) (nowhere (request_of state).1)
  OnePort-turn state progress after rest (inl (none_yet, same)) later (inr e) =
      subst (OnePort (request_of state).1) (sym (e ∙ ap (λ l. l ++ rest) none_yet))
        (subst (λ s. OnePort (request_of s).1 rest) same later)
  OnePort-turn state progress after rest (inr (p, one, fits, next)) later (inl e) =
      subst (OnePort (request_of state).1) (sym (e ∙ one))
        (OnePort-next (request_of state).1 p [] fits (nowhere p))
  OnePort-turn state progress after rest (inr (p, one, fits, next)) later (inr e) =
      subst (OnePort (request_of state).1) (sym (e ∙ ap (λ l. l ++ rest) one)) (
        OnePort-next (request_of state).1 p rest fits
          (subst (λ (x : Mode × ℕ). OnePort x.1 rest) next later))

  OnePort-run :
      (state : ClientState) (trials : List Trial)
      → All (λ trial. IsSound trial.connection) trials
      → OnePort (request_of state).1 (run hmac key timing state trials).announced
  unfolding run attempt
  OnePort-run state [] sound = nowhere (request_of state).1
  OnePort-run state (trial ∷ trials) (here, sound) = elim (Bool-cases trial.cancelled_before) [
    | inl e ↦ rw e (nowhere (request_of state).1)
    | inr e ↦
        let progress = attempt hmac key timing state trial in
        let rest = run hmac key timing progress.state trials in
        rw e (
          OnePort-turn state progress _ rest.announced (attempt_port state trial here)
            (OnePort-run progress.state trials sound)
            (after_attempt_announced progress trial.cancelled_after rest))
  ]

  -- A client process whose connections deliver bytes announces one port, however many attempts it
  -- makes: one within 1024..65535, and the one that was asked for on the command line, if any but
  -- 0.
  pub run_announces :
      (id : InstanceId) (requested_port : Option ℕ) (trials : List Trial)
      → All (λ trial. IsSound trial.connection) trials
      → (p : ℕ) × Answers requested_port p
        × All
            (λ q. (q ≡ p) × InRange q)
            (run hmac key timing (initial_state id requested_port) trials).announced
  unfolding request_of
  run_announces id none trials sound =
      let (p, asked, all) = OnePort-run (initial_state id none) trials sound in (p, tt, all)
  run_announces id (some port) trials sound =
      let (p, asked, all) = OnePort-run (initial_state id (some port)) trials sound in
      elim (ℕ_discrete port 0) [
        | yes nothing ↦ (p, inl nothing, all)
        | no something ↦ (p, inr (asked something), all)
      ]
