-- ===== src/Client/Supervisor/Errors.antt =====
-- src/client/mod.rs and src/client/control.rs: the errors that end a client process.
use Prim.Native.String.{String}
use tunlet.Client.Session.Laws.{Verdict-cases}
use tunlet.Prelude.{
  suc, ℕ, ◌≡◌, ◌≢◌, ◌∙◌, arith, Bool, true, false, Bool-cases, Option, none, some, List, [], ◌∷◌,
  inl, inr, subst,
}
use tunlet.Error.{AppError, io, Result, ok, err, Result-cases}
use tunlet.Protocol.Enums.{Mac, Mode}
use tunlet.Timing.{Timing}
use tunlet.Registry.State.{Outbound}
use tunlet.Control.Session.{initial}
use tunlet.Client.Register.{Failure, Session, classify, register}
use tunlet.Client.Session.{
  Attempt, clean, fatal, retry, ended, Live, Wake, turn, goodbye, handle_frame, open_request,
  session_loop, run_session,
}
use tunlet.Client.Supervisor.{
  ClientState, Connection, Trial, Run, failed, connect_and_register, connect, attempt,
  after_attempt, request_of, run,
}
use tunlet.Client.Register.Errors.{NotIo, Robust, Robust-register}

turn_not_io :
    (accepts : Outbound → Bool) (timing : Timing) (live : Live) (w : Wake) (x : String)
    → (turn accepts timing live w).verdict ≢ ended (fatal (io x))
unfolding turn goodbye handle_frame open_request classify
turn_not_io accepts timing live (Wake.received (ok f)) x e = ground arith
turn_not_io accepts timing live (Wake.received (err y)) x e = ground arith
turn_not_io accepts timing live Wake.stopped x e = cc
turn_not_io accepts timing live Wake.cancelled x e = cc
turn_not_io accepts timing live Wake.closed x e = cc
turn_not_io accepts timing live Wake.overdue x e = ground arith
turn_not_io accepts timing live Wake.finished x e = cc
turn_not_io accepts timing live (Wake.tick now) x e = ground arith

session_not_io :
    (accepts : ℕ → Outbound → Bool) (timing : Timing) (live : Live) (wakes : List Wake) (x : String)
    → (session_loop accepts timing live wakes).verdict ≢ ended (fatal (io x))
unfolding session_loop
session_not_io accepts timing live [] x = λ e. cc
session_not_io accepts timing live (w ∷ wakes) x =
    elim (Verdict-cases (turn (accepts 0) timing live w).verdict) [
      | inl (next, e) ↦ rw e (session_not_io (λ n. accepts (suc n)) timing next wakes x)
      | inr (a, e) ↦ λ h. turn_not_io (accepts 0) timing live w x (ground arith)
    ]

module _ (hmac : List ℕ → List ℕ → Mac) (key : List ℕ) (timing : Timing) where
  fatal_inj :
      {y z : AppError} → ◌≡◌ {A = Result Attempt Session} (err (fatal y)) (err (fatal z)) → y ≡ z
  fatal_inj e = cc

  connect_not_io :
      (state : ClientState) (asked : Mode × ℕ) (connection : Connection) (x : String)
      → connect hmac key timing state asked connection ≢ err (fatal (io x))
  unfolding connect_and_register
  connect_not_io state asked Connection.timed_out x = λ e. cc
  connect_not_io state asked Connection.unreachable x = λ e. cc
  connect_not_io state asked (Connection.connected addr nonce faults reader) x =
      let robust = Robust-register hmac key faults nonce state.instance_id asked.0 asked.1 reader in
      elim (Result-cases
        (register hmac key faults nonce state.instance_id asked.0 asked.1 reader)) [
          | inl (s, e) ↦ rw (connect, e) (λ h. cc)
          | inr (Failure.retry, e) ↦ rw (connect, e) (λ h. cc)
          | inr (Failure.fatal y, e) ↦
              let not_io : NotIo y = subst Robust e robust in
              rw (connect, e) (λ h. subst NotIo (fatal_inj h) not_io)
        ]

  attempt_not_io :
      (state : ClientState) (trial : Trial) (x : String)
      → (attempt hmac key timing state trial).outcome ≢ some (fatal (io x))
  unfolding attempt run_session
  attempt_not_io state trial x = elim (Bool-cases trial.cancelled) [
    | inl e ↦ rw e (λ h. cc)
    | inr e ↦
        elim (Result-cases (connect hmac key timing state (request_of state) trial.connection)) [
          | inr (outcome, e1) ↦
              rw (e, e1)
                (λ h.
                  connect_not_io state (request_of state) trial.connection x (e1 ∙ ground arith))
          | inl (session, e1) ↦
              rw (e, e1)
                (λ h.
                  session_not_io trial.accepts timing
                    (record { beat = initial; free = session.max_connections }) trial.wakes x
                    (ground arith))
        ]
  ]

  after_not_io :
      (outcome : Option Attempt) (state : ClientState) (announced : List ℕ) (rest : Run) (b : Bool)
      (x : String)
      → outcome ≢ some (fatal (io x))
      → rest.status ≢ failed (io x)
      → (after_attempt hmac key timing
          (record { state = state; announced = announced; outcome = outcome })
          b
          rest).status
        ≢ failed (io x)
  after_not_io none state announced rest b x here later = λ h. cc
  after_not_io (some clean) state announced rest b x here later = λ h. cc
  after_not_io (some (fatal e)) state announced rest b x here later = λ h. here (ground arith)
  after_not_io (some retry) state announced rest true x here later = λ h. cc
  after_not_io (some retry) state announced rest false x here later = later

  -- A client process is not ended by an error of a socket: whatever happens to its attempts,
  -- failing writes included, what it fails with is another error.
  pub run_survives_io :
      (state : ClientState) (trials : List Trial) (x : String)
      → (run hmac key timing state trials).status ≢ failed (io x)
  unfolding run attempt
  run_survives_io state [] x = λ e. cc
  run_survives_io state (trial ∷ trials) x =
      let progress = attempt hmac key timing state trial in
      let rest = run hmac key timing progress.state trials in
      let here = attempt_not_io state trial x in
      let later = run_survives_io progress.state trials x in
      elim (Bool-cases trial.cancelled_before) [
        | inl e ↦ rw e (λ h. cc)
        | inr e ↦ rw e (
            after_not_io progress.outcome progress.state progress.announced rest
              trial.cancelled_after x here later)
      ]
