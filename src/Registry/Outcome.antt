-- ===== src/Registry/Outcome.antt =====
-- src/server/registry.rs: the answers of `register`, seen from outside.
use tunlet.Prelude.{
  ℕ, ◌≡◌, ◌≢◌, refl, sym, ap, subst, ◌∙◌, arith, ◌+◌, ◌==◌, if◌then◌else◌, not, ◌&&◌, none, some,
  Option, List, inl, inr, Bool-cases, Option-cases, ℕ_discrete,
}
use tunlet.Prelude.Maps.{lookup, insert, remove, lookup-insert, lookup-remove}
use tunlet.Prelude.Bytes.{bytes_discrete}
use tunlet.Protocol.Enums.{SessionId}
use tunlet.Error.{ErrorCode, Result, ok, err}
use tunlet.Registry.State.{
  Registry, Env, SessionRef, PortSlot, RegisterRequest, Registration, slot_at, session_of,
  take_generation,
}
use tunlet.Registry.Register.{register, choose_port, after_choice, install, take_over}
use tunlet.Registry.Consistent.{SlotState-cases}
use tunlet.Registry.Invariant.{Inv, owner_at}
use tunlet.Registry.Invariant.Slots.{Binds}
use tunlet.Registry.Invariant.TakeOver.{owned_by}
use tunlet.Registry.Invariant.Register.{
  register_cases, installed, installed-Inv, registered_session, counted, displace-Displaces,
}
use tunlet.Registry.Invariant.Step.{IsFresh, out_inj}
use tunlet.Registry.Permits.Registration.{take_over-Calm}
use tunlet.Registry.Admission.{Harmless, choose_port-Harmless}

lookup_other :
    (id : SessionId) {own : SessionId}
    → id ≢ own
    → (s : SessionRef) (sessions : List (SessionId × SessionRef))
    → lookup bytes_discrete id (insert bytes_discrete own s sessions)
      ≡ lookup bytes_discrete id sessions
lookup_other id {own} other s sessions =
    ground (arith, lookup-insert bytes_discrete id own s sessions)

install_ok :
    (env : Env) (self : Registry) (request : RegisterRequest) (port : ℕ) {self' : Registry}
    {code : ErrorCode}
    → install env self request port ≢ some (self', err code)
unfolding install take_generation
install_ok env self request port e = ground arith

refused :
    (env : Env) (self : Registry) (request : RegisterRequest) (out : Registry × Result ErrorCode ℕ)
    {self' : Registry} {code : ErrorCode}
    → Harmless self out
    → after_choice env request out ≡ some (self', err code)
    → self' ≡ self
refused env self request (self'', ok port) h e = absurd (install_ok env self'' request port e)
refused env self request (self'', err code) h e = ground arith

-- A refused registration leaves the registry as it was.
pub register_refused :
    (env : Env) (self self' : Registry) (request : RegisterRequest) (code : ErrorCode)
    → register env self request ≡ some (self', err code)
    → self' ≡ self
unfolding register
register_refused env self self' request code =
    elim (Bool-cases
      (not (request.requested_port == 0) && request.requested_port == self.config.listen.port)) [
        | inl bad ↦ rw (bad, register) (λ e. ground arith)
        | inr good ↦
            rw (good, register)
              (refused env self request (choose_port env self request)
                (choose_port-Harmless env self request))
      ]

-- The sessions that a take-over of a port leaves.
abbrev pub off_port : ℕ → Option SessionRef → Option SessionRef
off_port port none = none
off_port port (some s) = if s.port == port then none else some s

pub record Registers (self : Registry) (request : RegisterRequest) (self' : Registry)
    (answer : Registration) : Type 0 where
  pub session : SessionRef
  pub known : session_of self' request.session_id ≡ some session
  pub held : owner_at self' answer.assigned_port ≡ some session
  pub instance_id : session.instance_id ≡ request.instance_id
  pub asked : request.requested_port ≢ 0 → answer.assigned_port ≡ request.requested_port
  pub generation : answer.generation ≡ self.next_generation
  pub own_generation : session.generation ≡ self.next_generation
  pub counter : self'.next_generation ≡ self.next_generation + 1
  pub limit : answer.max_connections ≡ self.config.max_connections
  pub permits : self'.semaphores session.permits ≡ self.config.max_connections
  pub others :
      (id : SessionId)
      → id ≢ request.session_id
      → session_of self' id ≡ off_port answer.assigned_port (session_of self id)

module _ (env : Env) (self : Registry) (request : RegisterRequest) (port : ℕ) (slot : PortSlot)
    (v : Inv self) (found : slot_at self port ≡ some slot) where
  installed_known :
      session_of (installed env self request port slot) request.session_id
      ≡ some (registered_session self request port)
  installed_known = ground (
    arith,
    lookup-insert bytes_discrete request.session_id request.session_id
        (registered_session self request port)
        (take_over env port slot (registered_session self request port) (counted self)).sessions,
  )

  vacant_others :
      (id : SessionId)
      → owner_at self port ≡ none
      → session_of self id ≡ off_port port (session_of self id)
  vacant_others id vacant = elim (Option-cases (session_of self id)) [
    | inl e ↦ ground arith
    | inr (t, e) ↦ ground (arith, v.agreed.session_slot id t e)
  ]

  displaced_others :
      (previous : SessionRef) (id : SessionId)
      → owner_at self port ≡ some previous
      → lookup bytes_discrete id (remove bytes_discrete previous.session_id self.sessions)
        ≡ off_port port (session_of self id)
  displaced_others previous id held =
      let (own, known) = v.agreed.slot_session port previous held in
      elim (Option-cases (session_of self id)) [
        | inl e ↦ ground (arith, lookup-remove bytes_discrete id previous.session_id self.sessions)
        | inr (t, e) ↦ elim (bytes_discrete id previous.session_id) [
          | yes same ↦
              ground (arith, lookup-remove bytes_discrete id previous.session_id self.sessions)
          | no other ↦ ground (
            arith,
            lookup-remove bytes_discrete id previous.session_id self.sessions,
            v.agreed.session_slot id t e,
          )
        ]
      ]

  installed_others :
      (id : SessionId)
      → id ≢ request.session_id
      → session_of (installed env self request port slot) id ≡ off_port port (session_of self id)
  unfolding take_over
  installed_others id other =
      let s = registered_session self request port in
      lookup_other id other s _ ∙ elim (SlotState-cases slot.state) [
        | inr (i, g, t, e) ↦ rw (e, take_over) (vacant_others id (ground arith))
        | inl (previous, e) ↦
            let d = displace-Displaces env previous (record (counted self) {
              ports = insert ℕ_discrete port (owned_by s slot) self.ports;
            }) in
            rw (e, take_over) (rw d.sessions (displaced_others previous id (ground arith)))
      ]

  installed-Registers :
      session_of self request.session_id ≡ none
      → (request.requested_port ≢ 0 → port ≡ request.requested_port)
      → Registers self request (installed env self request port slot) (record {
        assigned_port = port;
        max_connections = self.config.max_connections;
        generation = self.next_generation;
      })
  installed-Registers unknown asked =
      let s = registered_session self request port in
      let c = take_over-Calm env port slot s (counted self) in
      record {
        session = s;
        known = installed_known;
        held =
            ((installed-Inv env self request port slot v found unknown).agreed.session_slot
              request.session_id s installed_known).1;
        instance_id = refl;
        asked = asked;
        generation = refl;
        own_generation = refl;
        counter = c.generation;
        limit = refl;
        permits = rw c.semaphores (ground arith);
        others = installed_others;
      }

Binds-Registers :
    {self between self' : Registry} (request : RegisterRequest) (answer : Registration)
    → Binds self between
    → Registers between request self' answer
    → Registers self request self' answer
Binds-Registers {self} {between} request answer b r = record {
  session = r.session;
  known = r.known;
  held = r.held;
  instance_id = r.instance_id;
  asked = r.asked;
  generation = r.generation ∙ b.generation;
  own_generation = r.own_generation ∙ b.generation;
  counter = r.counter ∙ ap (λ n. n + 1) b.generation;
  limit = r.limit ∙ ap (λ c. c.max_connections) b.config;
  permits = r.permits ∙ ap (λ c. c.max_connections) b.config;
  others = λ id other.
      r.others id other
      ∙ ap (λ l. off_port answer.assigned_port (lookup bytes_discrete id l)) b.sessions;
}

abbrev Answers : Registry → RegisterRequest → Registry × Result ErrorCode Registration → Type 0
Answers self request (self', ok answer) = Registers self request self' answer
Answers self request (self', err code) = Unit

-- A fresh registration that succeeds, where the tables agree, installs the session of the request
-- under the next generation as the owner of the assigned port, which is the requested one if one
-- was requested, with a new semaphore of the configured size; of the other sessions exactly those
-- on that port are gone.
pub register_accepted :
    (env : Env) (self self' : Registry) (request : RegisterRequest) (answer : Registration)
    → Inv self
    → IsFresh self request
    → register env self request ≡ some (self', ok answer)
    → Registers self request self' answer
register_accepted env self self' request answer v f =
    register_cases (λ r. r ≡ some (self', ok answer) → Registers self request self' answer) env self
      request f.room (λ self'' code b v' e. absurd (cc))
      (λ self'' port slot b v' found asked e. subst (Answers self request) (out_inj e) (
        Binds-Registers request _ b (
          installed-Registers env self'' request port slot v' found
            (subst (λ l. lookup bytes_discrete request.session_id l ≡ none) (sym b.sessions)
              f.unknown)
            asked)))
      v f.allowed
