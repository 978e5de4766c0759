-- ===== src/Registry/Invariant/Step.antt =====
-- src/server/registry.rs: the invariant in `handle_command`, and the reachable states.
use tunlet.Prelude.{
  ℕ, ◌≡◌, refl, sym, ◌∙◌, subst, ◌<◌, ◌+◌, ◌^◌, Bool, none, some, Option, inl, inr, Option-cases,
  get_elem?,
}
use tunlet.Config.{ServerConfig}
use tunlet.Timing.{Timing}
use tunlet.Error.{ErrorCode, Result, err}
use tunlet.Protocol.ControlHello.{AllowedPort}
use tunlet.Registry.State.{Registry, Env, RegisterRequest, Registration, session_of, new}
use tunlet.Registry.Register.{register}
use tunlet.Registry.Lifecycle.{sweep, shutdown_all}
use tunlet.Registry.Public.{accepted_public, finish_task}
use tunlet.Registry.Actor.{
  Command, registers, accepted, claim_data, peek_data, open_failed, lost, goodbyes,
  request_finished, shutdown, Reply, handle_command, Step, going_on, quietly,
}
use tunlet.Registry.Invariant.{Inv, new-Inv}
use tunlet.Registry.Invariant.Lifecycle.{session_lost-Inv, goodbye-Inv}
use tunlet.Registry.Invariant.Sweep.{sweep-Inv, shutdown_all-Inv}
use tunlet.Registry.Invariant.Register.{register_cases, installed-Inv}
use tunlet.Registry.Invariant.Public.{claim-Inv, accepted_public-Inv, forget_Holds}

-- A request as a connection handler sends it: its port passed the check of CONTROL_HELLO, its
-- session identifier is new, and the counter of generations is not used up.
pub record IsFresh (self : Registry) (request : RegisterRequest) : Type 0 where
  pub allowed : AllowedPort request.mode request.requested_port
  pub unknown : session_of self request.session_id ≡ none
  pub room : self.next_generation + 1 < 2 ^ 64

-- From a state in which the tables agree, a registration that is fresh and asks for an allowed
-- port returns: the slot that the code expects after the choice of a port is there, and the tables
-- agree afterwards.
pub register_returns :
    (env : Env) (self : Registry) (request : RegisterRequest)
    → Inv self
    → IsFresh self request
    → (out : Registry × Result ErrorCode Registration) × (register env self request ≡ some out)
      × Inv out.0
register_returns env self request v f =
    register_cases
      (λ r. (out : Registry × Result ErrorCode Registration) × (r ≡ some out) × Inv out.0) env self
      request f.room (λ self' code b v'. ((self', err code), refl, v'))
      (λ self' port slot b v' found asked. (
        (_, _),
        refl,
        installed-Inv env self' request port slot v' found (
            subst (λ s. session_of (record self { sessions = s }) request.session_id ≡ none)
              (sym b.sessions) f.unknown),
      ))
      v f.allowed

-- What a command must be for the registry to take it.
abbrev pub IsSound : Registry → Command → Type 0
IsSound self (registers request) = IsFresh self request
IsSound self _ = Unit {0}

pub going_on_kept :
    {A : Type 0} (P : Registry → Type 0) (reply : A → Reply) (out : Option (Registry × A))
    {self : Registry} {answer : Reply} {stop : Bool}
    → ((r : Registry × A) → out ≡ some r → P r.0)
    → going_on reply out ≡ some (self, answer, stop)
    → P self
going_on_kept P reply none h e = absurd (cc)
going_on_kept P reply (some (self', a)) h e = subst P (cc) (h (self', a) refl)

pub quietly_kept :
    (P : Registry → Type 0) (out : Option Registry) {self : Registry} {answer : Reply} {stop : Bool}
    → ((r : Registry) → out ≡ some r → P r)
    → quietly out ≡ some (self, answer, stop)
    → P self
quietly_kept P none h e = absurd (cc)
quietly_kept P (some self') h e = subst P (cc) (h self' refl)

pub some_state :
    (P : Registry → Type 0) {self self' : Registry} {answer answer' : Reply} {stop stop' : Bool}
    → P self
    → ◌≡◌ {A = Step} (some (self, answer, stop)) (some (self', answer', stop'))
    → P self'
some_state P p e = subst P (cc) p

pub out_inj : {A : Type 0} {a b : A} → some a ≡ some b → a ≡ b
out_inj e = cc

pub handle_command-Inv :
    (env : Env) (self : Registry) (c : Command) {self' : Registry} {answer : Reply} {stop : Bool}
    → Inv self
    → IsSound self c
    → handle_command env self c ≡ some (self', answer, stop)
    → Inv self'
unfolding handle_command
handle_command-Inv env self (registers request) v f =
    let (out, e, v') = register_returns env self request v f in
    going_on_kept Inv _ (register env self request) λ r e'.
      subst {A = Registry × Result ErrorCode Registration} (λ o. Inv o.0) (out_inj (sym e ∙ e')) v'
handle_command-Inv env self (accepted listener_id port socket at) v f =
    quietly_kept Inv (accepted_public env self listener_id port socket at)
      λ r e. accepted_public-Inv env self r listener_id port socket at v e
handle_command-Inv env self (claim_data id request_id socket) v f =
    some_state Inv (claim-Inv env self id request_id socket v)
handle_command-Inv env self (peek_data id request_id) v f = some_state Inv v
handle_command-Inv env self (open_failed id request_id reason) v f =
    some_state Inv (forget_Holds self (id, request_id) v)
handle_command-Inv env self (lost id generation) v f =
    some_state Inv (session_lost-Inv env id generation self v)
handle_command-Inv env self (goodbyes id generation) v f =
    some_state Inv (goodbye-Inv id generation self v)
handle_command-Inv env self (request_finished id request_id) v f =
    some_state Inv (forget_Holds self (id, request_id) v)
handle_command-Inv env self shutdown v f = some_state Inv (shutdown_all-Inv env self)

-- The states that the actor reaches.
pub data Reachable (config : ServerConfig) (timing : Timing) : Registry → Type 0 where
  starts : Reachable config timing (new config timing)
  sweeps :
      {self : Registry} (now : ℕ)
      → Reachable config timing self
      → Reachable config timing (sweep now self)
  handles :
      {self self' : Registry} (env : Env) (c : Command) (answer : Reply) (stop : Bool)
      → Reachable config timing self
      → IsSound self c
      → handle_command env self c ≡ some (self', answer, stop)
      → Reachable config timing self'
  ends :
      {self : Registry} (n : ℕ)
      → Reachable config timing self
      → Reachable config timing (finish_task self n)
  stops :
      {self : Registry} (env : Env)
      → Reachable config timing self
      → Reachable config timing (shutdown_all env self)

finish_task-Inv : (self : Registry) (n : ℕ) → Inv self → Inv (finish_task self n)
unfolding finish_task
finish_task-Inv self n v = elim (Option-cases (get_elem? self.tasks n)) [
  | inl e ↦ rw (e, finish_task) v
  | inr (task, e) ↦ rw (e, finish_task) v
]

-- In every state that the registry actor reaches from its start, by sweeps, by commands whose
-- registrations are fresh and have an allowed port, by ends of its tasks and by shutdowns, the
-- tables agree: each active port holds a registered session of that port, each session holds its
-- port, each pending request waits for a registered session of its own generation, generations are
-- below the counter, there are at most 1024 slots, and the control port has no slot.
pub Reachable-Inv :
    {config : ServerConfig} {timing : Timing} {self : Registry}
    → Reachable config timing self
    → Inv self
Reachable-Inv {config} {timing} starts = new-Inv config timing
Reachable-Inv (sweeps {self} now r) = sweep-Inv now self (Reachable-Inv r)
Reachable-Inv (handles {self} env c answer stop r f e) =
    handle_command-Inv env self c (Reachable-Inv r) f e
Reachable-Inv (ends {self} n r) = finish_task-Inv self n (Reachable-Inv r)
Reachable-Inv (stops {self} env r) = shutdown_all-Inv env self
