-- ===== src/Client/Supervisor.antt =====
-- src/client/mod.rs and src/client/control.rs: the attempts of a client process.
-- What happens to each attempt is given by a `Trial`: how the connection goes, what wakes the
-- session up, and when the process is cancelled.
pub mod Errors
pub mod Port
pub mod Retries
use tunlet.Protocol.Frame.{Faults}
use tunlet.Prelude.{ℕ, if◌then◌else◌, Bool, true, false, Option, none, some, List, [], ◌∷◌, ◌++◌}
use tunlet.Config.{SocketAddr}
use tunlet.Error.{AppError, Result, ok, err, ◌>>=◌}
use tunlet.Protocol.Enums.{Mac, Nonce, InstanceId, Mode}
use tunlet.Timing.{Timing}
use tunlet.Registry.State.{Outbound}
use tunlet.Client.Register.{Failure, Session, register}
use tunlet.Client.Session.{
  attempt_of, Attempt, clean, fatal, retry, Verdict, going, ended, Turn, Wake, run_session,
}

pub record ClientState : Type 0 where
  pub instance_id : InstanceId
  pub requested_port : Option ℕ
  pub last_assigned : Option ℕ
  pub ever_registered : Bool

-- How connecting goes: past its deadline, without a socket, or to a peer with an address, with the
-- nonce that is drawn then, the faults of its writes, and what the server sends.
pub data Connection : Type 0 where
  timed_out unreachable : Connection
  connected : SocketAddr → Option Nonce → Faults → List ℕ → Connection

-- The cancellation is seen before the attempt, while it connects, or after it.
pub record Trial : Type 0 where
  pub cancelled_before : Bool
  pub cancelled : Bool
  pub cancelled_after : Bool
  pub connection : Connection
  pub accepts : ℕ → Outbound → Bool
  pub wakes : List Wake

-- What came of an attempt; its outcome is missing while the session runs. The announced ports are
-- those of the lines `remote_port=`.
pub record Progress : Type 0 where
  pub state : ClientState
  pub announced : List ℕ
  pub outcome : Option Attempt

pub data Status : Type 0 where
  running stopped : Status
  failed : AppError → Status

pub record Run : Type 0 where
  pub status : Status
  pub announced : List ℕ

abbrev unwrap_or_zero : Option ℕ → ℕ
unwrap_or_zero none = 0
unwrap_or_zero (some port) = port

-- The registration mode of an attempt, and the port that it asks for.
unfoldable pub request_of : ClientState → Mode × ℕ
request_of state =
    if state.ever_registered
    then elim state.last_assigned [
      | some port ↦ (Mode.resume, port)
      | none ↦ (Mode.fresh, unwrap_or_zero state.requested_port)
    ]
    else (Mode.fresh, unwrap_or_zero state.requested_port)

abbrev pub initial_state : InstanceId → Option ℕ → ClientState
initial_state instance_id requested_port = record {
  instance_id = instance_id;
  requested_port = requested_port;
  last_assigned = none;
  ever_registered = false;
}

abbrev outcome_of : Verdict → Option Attempt
outcome_of (going live) = none
outcome_of (ended a) = some a

module _ (hmac : List ℕ → List ℕ → Mac) (key : List ℕ) (timing : Timing) where
  unfoldable pub connect_and_register :
      InstanceId → Mode → ℕ → SocketAddr → Option Nonce → Faults → List ℕ → Result Failure Session
  connect_and_register instance_id mode requested_port server_addr nonce faults reader = do
    (session, rest, written) ← register hmac key faults nonce instance_id mode requested_port reader
    ok (record session { server_addr = server_addr })

  abbrev pub connect : ClientState → Mode × ℕ → Connection → Result Attempt Session
  connect state asked timed_out = err retry
  connect state asked unreachable = err retry
  connect state asked (connected server_addr nonce faults reader) =
      elim (connect_and_register state.instance_id asked.0 asked.1 server_addr nonce faults
        reader) [ err failure ↦ err (attempt_of failure) | ok session ↦ ok session ]

  unfoldable pub attempt : ClientState → Trial → Progress
  attempt state trial =
      if trial.cancelled
      then record { state = state; announced = []; outcome = some clean }
      else elim (connect state (request_of state) trial.connection) [
        | err outcome ↦ record { state = state; announced = []; outcome = some outcome }
        | ok session ↦ record {
          state = record state {
            ever_registered = true;
            last_assigned = some session.assigned_port;
          };
          announced = session.assigned_port ∷ [];
          outcome =
              outcome_of
                (run_session trial.accepts timing session.max_connections trial.wakes).verdict;
        }
      ]

  abbrev pub after_attempt : Progress → Bool → Run → Run
  after_attempt progress cancelled_after rest = elim progress.outcome [
    | none ↦ record { status = running; announced = progress.announced }
    | some clean ↦ record { status = stopped; announced = progress.announced }
    | some (fatal e) ↦ record { status = failed e; announced = progress.announced }
    | some retry ↦
        if cancelled_after
        then record { status = stopped; announced = progress.announced }
        else record { status = rest.status; announced = progress.announced ++ rest.announced }
  ]

  -- The loop of `run`, for the attempts that are given.
  unfoldable pub run : ClientState → List Trial → Run
  run state [] = record { status = running; announced = [] }
  run state (trial ∷ trials) =
      let progress = attempt state trial in
      let rest = run progress.state trials in
      if trial.cancelled_before
      then record { status = stopped; announced = [] }
      else after_attempt progress trial.cancelled_after rest
