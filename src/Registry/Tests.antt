-- ===== src/Registry/Tests.antt =====
-- src/server/registry.rs: a registry with one session and one public connection as an example.
use tunlet.Prelude.{
  ℕ, ◌≡◌, ◌≢◌, refl, arith, true, false, none, some, [], ◌∷◌, replicate, inr, ℕ_discrete, ◌⊎◌,
}
use tunlet.Prelude.Maps.{lookup, insert, insert_ordered}
use tunlet.Prelude.Bytes.{bytes_discrete}
use tunlet.Config.{ServerConfig, IpAddr, Level}
use tunlet.Timing
use tunlet.Error.{ErrorCode, Result, ok, err, replaced, request_unavailable}
use tunlet.Protocol.Enums.{SessionId, RequestId, InstanceId, fresh, resume, MessageType}
use tunlet.Registry.State.{
  Registry, Env, SessionRef, PortSlot, active, reserved, RegisterRequest, Registration, Connection,
  listening, sent, serving, delivered, rejected, new, key_discrete, take_generation, slot_at,
  session_of, request_of, outbound_frame,
}
use tunlet.Registry.Slots.{bind_slot, ensure_slot, owner}
use tunlet.Registry.Register.{register, choose_port, install, take_over, displace, new_semaphore}
use tunlet.Registry.Lifecycle.{session_lost, goodbye, sweep}
use tunlet.Registry.Public.{draw, open_request, admit, accepted_public, claim, change}
use tunlet.Registry.Actor.{registers, accepted, handle_command, registration, nothing}
use tunlet.Registry.Invariant.{Inv}
use tunlet.Registry.Invariant.Step.{
  IsFresh, Reachable, starts, handles, Reachable-Inv, register_returns,
}
use tunlet.Registry.Invariant.Register.{installed}
use tunlet.Registry.Invariant.Public.{Accepts}
use tunlet.Registry.Permits.{Balanced}
use tunlet.Registry.Permits.Steps.{Reachable-Balanced}
use tunlet.Registry.Delivery
use tunlet.Registry.Delivery.{Claimable}
use tunlet.Registry.Departure
use tunlet.Registry.Displaced.{displaced_notices}
use tunlet.Registry.Departure.{IsGone}
use tunlet.Registry.Expiry.{sweep_exact, live_slot, live_request}
use tunlet.Registry.Opening.{Opens, Loses, accepted_public-Opens}
use tunlet.Registry.Ownership.{ports_of, keep, release, expire, endings_refine}
use tunlet.Registry.Outcome.{Registers, register_accepted, register_refused}

abbrev config : ServerConfig
config = record {
  key = replicate 32 7;
  listen = record { ip = IpAddr.v4 (127 ∷ 0 ∷ 0 ∷ 1 ∷ []); port = 7000 };
  data_bind = IpAddr.v4 (0 ∷ 0 ∷ 0 ∷ 0 ∷ []);
  min_port = 20000;
  max_port = 20002;
  max_connections = 2;
  log_level = Level.info;
  quiet = false;
}

abbrev pub env : Env
env = record {
  now = 2000;
  bind = λ ip port. none;
  try_send = λ writer message. true;
  receives = λ sender. true;
  random = λ n. some (replicate 16 9);
  draws = 2;
}

abbrev pub id1 : SessionId
id1 = replicate 16 1

abbrev id2 : SessionId
id2 = replicate 16 2

abbrev instance1 : InstanceId
instance1 = replicate 16 3

abbrev instance2 : InstanceId
instance2 = replicate 16 4

abbrev request1 : RegisterRequest
request1 = record {
  session_id = id1;
  instance_id = instance1;
  mode = fresh;
  requested_port = 30000;
  writer = 11;
  data_cancel = 12;
  control_cancel = 13;
}

-- Another process asks for the same port.
abbrev request2 : RegisterRequest
request2 = record {
  session_id = id2;
  instance_id = instance2;
  mode = fresh;
  requested_port = 30000;
  writer = 21;
  data_cancel = 22;
  control_cancel = 23;
}

abbrev session1 : SessionRef
session1 = record {
  session_id = id1;
  instance_id = instance1;
  generation = 1;
  port = 30000;
  writer = 11;
  data_cancel = 12;
  control_cancel = 13;
  permits = 1;
}

abbrev slot1 : PortSlot
slot1 = record { listener_id = 1; listener_cancel = 1; state = active session1 }

-- The first session is registered.
abbrev one : Registry
one = record {
  config = config;
  timing = Timing.default;
  ports = (30000, slot1) ∷ [];
  sessions = (id1, session1) ∷ [];
  pending = [];
  global_connections = 8192;
  next_generation = 2;
  next_listener_id = 2;
  semaphores = new_semaphore 1 2 (λ _. 0);
  tasks = [];
  next_sender = 0;
  effects = listening 1 30000 ∷ [];
}

fresh1 : IsFresh (new config Timing.default) request1
unfolding new lookup
fresh1 = record { allowed = inr (omega arith); unknown = refl; room = omega arith }

registers1 :
    handle_command env (new config Timing.default) (registers request1)
    ≡ some (
      one,
      registration (ok (record { assigned_port = 30000; max_connections = 2; generation = 1 })),
      false,
    )
unfolding handle_command register choose_port ensure_slot bind_slot new install take_over
    take_generation lookup insert insert_ordered
registers1 = refl

one-Reachable : Reachable config Timing.default one
one-Reachable = handles env (registers request1) _ _ starts fresh1 registers1

abbrev pub request_id : RequestId
request_id = replicate 16 9

abbrev task : Connection
task = record {
  socket = 5;
  deadline = 11000;
  cancel = 12;
  session_id = id1;
  request_id = request_id;
  session_permit = 1;
}

-- A public connection waits for the session.
abbrev pub two : Registry
two = record one {
  pending = ((id1, request_id), record { generation = 1; deadline = 11000; sender = 0 }) ∷ [];
  global_connections = 8191;
  next_sender = 1;
  semaphores = change 1 1 (new_semaphore 1 2 (λ _. 0));
  tasks = task ∷ [];
  effects =
      listening 1 30000
      ∷ (sent 11 (outbound_frame MessageType.open_request request_id) ∷ (serving task ∷ []));
}

accepts : accepted_public env one 1 30000 5 1000 ≡ some two
unfolding accepted_public admit draw open_request lookup insert bytes_discrete key_discrete
accepts = refl

accepts_step : handle_command env one (accepted 1 30000 5 1000) ≡ some (two, nothing, false)
unfolding handle_command accepted_public admit draw open_request lookup insert bytes_discrete
    key_discrete
accepts_step = refl

pub two-Reachable : Reachable config Timing.default two
two-Reachable = handles env (accepted 1 30000 5 1000) _ _ one-Reachable tt accepts_step

Reachable-Inv_example : Inv two
Reachable-Inv_example = Reachable-Inv two-Reachable

Reachable-Balanced_example : Balanced two
Reachable-Balanced_example = Reachable-Balanced two-Reachable

-- Requests to the registry with one session.
fresh2 : IsFresh two request2
unfolding lookup bytes_discrete
fresh2 = record { allowed = inr (omega arith); unknown = refl; room = omega arith }

register_returns_example :
    (out : Registry × Result ErrorCode Registration) × (register env two request2 ≡ some out)
    × Inv out.0
register_returns_example = register_returns env two request2 (Reachable-Inv two-Reachable) fresh2

abbrev answer2 : Registration
answer2 = record { assigned_port = 30000; max_connections = 2; generation = 2 }

abbrev three : Registry
three = installed env two request2 30000 slot1

displaces : register env two request2 ≡ some (three, ok answer2)
unfolding register choose_port ensure_slot install take_generation lookup ℕ_discrete take_over
    displace
displaces = refl

register_accepted_example : Registers two request2 three answer2
register_accepted_example =
    register_accepted env two three request2 answer2 (Reachable-Inv two-Reachable) fresh2 displaces

-- Another process may not resume the port, and its own may.
abbrev foreign : RegisterRequest
foreign = record request2 { mode = resume }

refuses : register env two foreign ≡ some (two, err replaced)
unfolding register choose_port lookup owner bytes_discrete ℕ_discrete
refuses = refl

register_refused_example : two ≡ two
register_refused_example = register_refused env two two foreign replaced refuses

abbrev again : RegisterRequest
again = record request1 { session_id = id2; mode = resume }

-- Claims of the request that waits.
claimed : (claim env two id1 request_id 8).1 ≡ delivered
unfolding claim lookup bytes_discrete key_discrete
claimed = refl

claim_delivered_example :
    Claimable env two id1 request_id
    × (request_of (claim env two id1 request_id 8).0 (id1, request_id) ≡ none)
claim_delivered_example = Delivery.claim_delivered env two id1 request_id 8 claimed

claim_once_example :
    claim env (claim env two id1 request_id 8).0 id1 request_id 9
    ≡ ((claim env two id1 request_id 8).0, rejected request_unavailable (some 9))
claim_once_example = Delivery.claim_once env env two id1 request_id 8 9 claimed

unclaimed : (claim env two id2 request_id 8).1 ≢ delivered
unfolding claim lookup bytes_discrete
unclaimed e = ground arith

claim_rejected_example :
    ((claim env two id2 request_id 8).1 ≡ rejected request_unavailable (some 8))
    × (((claim env two id2 request_id 8).0 ≡ two)
        ⊎ ((c : Claimable env two id2 request_id) × (env.receives c.entry.sender ≡ false)))
claim_rejected_example = Delivery.claim_rejected env two id2 request_id 8 unclaimed

claimable : Claimable env two id1 request_id
unfolding lookup bytes_discrete key_discrete
claimable = record {
  session = session1;
  entry = record { generation = 1; deadline = 11000; sender = 0 };
  known = refl;
  waiting = refl;
  current = refl;
  in_time = omega arith;
}

accepted_public-Opens_example :
    (two ≡ one)
    ⊎ ((session : SessionRef) × (id : RequestId) × Accepts one 1 30000 session
        × ((true ≡ true) × Opens one session 5 1000 id two
            ⊎ (true ≡ false) × Loses env one 30000 session two))
accepted_public-Opens_example =
    accepted_public-Opens env one two 1 30000 5 1000 (Reachable-Inv one-Reachable) accepts

accepted_public_returns_example : accepted_public env one 1 30000 5 1000 ≢ none
unfolding lookup
accepted_public_returns_example =
    Delivery.accepted_public_returns env one 1 30000 5 1000 0 (omega arith)
      (inr (request_id, refl, λ id. refl))

-- The ends of the session, and of time.
known1 : session_of two id1 ≡ some session1
unfolding lookup bytes_discrete
known1 = refl

session_lost_reserves_example :
    ((slot : PortSlot) × (slot_at two 30000 ≡ some slot)
      × (slot_at (session_lost env id1 1 two) 30000
          ≡ some (record slot { state = reserved instance1 1 302000 })))
    × IsGone (session_lost env id1 1 two) id1
session_lost_reserves_example =
    Departure.session_lost_reserves two session1 (Reachable-Inv two-Reachable) known1 env

goodbye_releases_example :
    (slot_at (goodbye id1 1 two) 30000 ≡ none) × IsGone (goodbye id1 1 two) id1
goodbye_releases_example =
    Departure.goodbye_releases two session1 (Reachable-Inv two-Reachable) known1

endings_refine_example :
    (ports_of (session_lost env id1 1 two) 30000 ≡ keep 30000 instance1 302000 (ports_of two) 30000)
    × (ports_of (goodbye id1 1 two) 30000 ≡ release 30000 (ports_of two) 30000)
    × (ports_of (sweep 20000 two) 30000 ≡ expire 20000 (ports_of two) 30000)
endings_refine_example =
    endings_refine two session1 env 20000 30000 (Reachable-Inv two-Reachable) known1

displaced_notices_example : (session_lost env id1 1 three ≡ three) × (goodbye id1 1 three ≡ three)
displaced_notices_example =
    displaced_notices env env two three request2 answer2 session1 (Reachable-Inv two-Reachable)
      fresh2 displaces known1 refl

sweep_exact_example :
    ((p : ℕ) → slot_at (sweep 20000 two) p ≡ live_slot 20000 (slot_at two p))
    × ((key : SessionId × RequestId)
        → request_of (sweep 20000 two) key ≡ live_request 20000 (request_of two key))
    × ((sweep 20000 two).sessions ≡ two.sessions)
sweep_exact_example = sweep_exact 20000 two (Reachable-Inv two-Reachable)
