-- ===== src/Registry/Invariant/Register.antt =====
-- src/server/registry.rs: the invariant in `register`.
use tunlet.Prelude.{
  ℕ, ◌≡◌, ◌≢◌, refl, sym, subst, arith, ◌≤◌, ◌<◌, ◌+◌, ◌^◌, ◌==◌, true, false, not, ◌&&◌, none,
  some, Option, ℕ_discrete, if_pos, if_neg, ◌⊎◌, inl, inr, Bool-cases, Option-cases,
}
use tunlet.Prelude.Maps.{insert}
use tunlet.Prelude.Bytes.{bytes_discrete}
use tunlet.Protocol.Enums.{Mode, fresh, resume}
use tunlet.Error.{ErrorCode, Result, ok, err}
use tunlet.Registry.State.{
  Registry, Env, SessionRef, PortSlot, RegisterRequest, Registration, slot_at, session_of,
  take_generation,
}
use tunlet.Registry.Slots.{owner, returning, ensure_slot}
use tunlet.Registry.Register.{
  drop_pending_for, drop_session, displace, choose_port, new_session, take_over, install,
  after_choice, register, new_semaphore,
}
use tunlet.Registry.Consistent.{SlotState-cases}
use tunlet.Registry.Invariant.{Inv}
use tunlet.Registry.Invariant.Slots.{
  Binds, Binds-refl, Chosen, failed_choice, found_choice, ensure_slot-Chosen,
  allocate_automatic-Chosen,
}
use tunlet.Protocol.ControlHello.{AllowedPort}
use tunlet.Registry.Invariant.TakeOver.{owned_by, vacant_Holds, displaced_Holds}

pub Mode-cases : (m : Mode) → (m ≡ fresh) ⊎ (m ≡ resume)
Mode-cases fresh = inl refl
Mode-cases resume = inr refl

-- What a displacement leaves alone, and what it takes away.
pub record Displaces (previous : SessionRef) (self self' : Registry) : Type 0 where
  pub config : self'.config ≡ self.config
  pub ports : self'.ports ≡ self.ports
  pub sessions : self'.sessions ≡ (drop_session previous.session_id self).sessions
  pub pending : self'.pending ≡ (drop_pending_for previous.session_id self).pending
  pub generation : self'.next_generation ≡ self.next_generation
  pub semaphores : self'.semaphores ≡ self.semaphores
  pub tasks : self'.tasks ≡ self.tasks
  pub global : self'.global_connections ≡ self.global_connections

pub displace-Displaces :
    (env : Env) (previous : SessionRef) (self : Registry)
    → Displaces previous self (displace env previous self)
unfolding displace
displace-Displaces env previous self = ground arith

-- The state before the take-over, and the state that registration ends in.
abbrev pub counted : Registry → Registry
counted self = record self {
  next_generation = self.next_generation + 1;
  semaphores = new_semaphore self.next_generation self.config.max_connections self.semaphores;
}

abbrev pub registered_session : Registry → RegisterRequest → ℕ → SessionRef
registered_session self request port = new_session request port self.next_generation

abbrev pub installed : Env → Registry → RegisterRequest → ℕ → PortSlot → Registry
installed env self request port slot =
    let s = registered_session self request port in
    let self' = take_over env port slot s (counted self) in
    record self' { sessions = insert bytes_discrete request.session_id s self'.sessions }

take_over_config :
    (env : Env) (port : ℕ) (slot : PortSlot) (s : SessionRef) (self : Registry)
    → (take_over env port slot s self).config ≡ self.config
unfolding take_over displace
take_over_config env port slot s self = ground arith

pub install_lem :
    (env : Env) (self : Registry) (request : RegisterRequest) (port : ℕ) (slot : PortSlot)
    → self.next_generation + 1 < 2 ^ 64
    → slot_at self port ≡ some slot
    → install env self request port
      ≡ some (
        installed env self request port slot,
        ok (record {
          assigned_port = port;
          max_connections = self.config.max_connections;
          generation = self.next_generation;
        }),
      )
unfolding install take_generation
install_lem env self request port slot room found =
    ground
      (arith, take_over_config env port slot (registered_session self request port) (counted self))

pub installed-Inv :
    (env : Env) (self : Registry) (request : RegisterRequest) (port : ℕ) (slot : PortSlot)
    → Inv self
    → slot_at self port ≡ some slot
    → session_of self request.session_id ≡ none
    → Inv (installed env self request port slot)
unfolding take_over drop_pending_for
installed-Inv env self request port slot v found unknown =
    let s = registered_session self request port in
    elim (SlotState-cases slot.state) [
      | inr (i, g, t, e) ↦
          rw (e, take_over) (vacant_Holds self v s slot found unknown refl (ground arith))
      | inl (previous, e) ↦
          let self' : Registry = record (counted self) {
            ports = insert ℕ_discrete port (owned_by s slot) self.ports;
          } in
          let d = displace-Displaces env previous self' in
          rw (e, take_over)
            (rw (d.config, d.ports, d.sessions, d.pending, d.generation)
              (displaced_Holds self v s slot found unknown refl previous e))
    ]

-- The choice of a port keeps the invariant, and gives the port that was asked for.
choose_port-Chosen :
    (env : Env) (self : Registry) (request : RegisterRequest)
    → Inv self
    → AllowedPort request.mode request.requested_port
    → ((request.requested_port ≢ 0) → request.requested_port ≢ self.config.listen.port)
    → Chosen self (choose_port env self request)
unfolding choose_port
choose_port-Chosen env self request v allowed usable = elim (Mode-cases request.mode) [
  | inl e ↦
      rw (e, choose_port)
        (elim (Bool-cases (request.requested_port == 0)) [
          | inl zero_port ↦ rw zero_port (allocate_automatic-Chosen env self request.instance_id v)
          | inr port ↦ rw port (
              ensure_slot-Chosen env self request.requested_port false v
                (usable (λ z. ground arith)))
        ])
  | inr e ↦
      let low : 1024 ≤ request.requested_port =
        subst (λ m. AllowedPort m request.requested_port) e allowed in
      rw (e, choose_port)
        (elim (Option-cases (slot_at self request.requested_port)) [
          | inl free ↦ rw free (
              ensure_slot-Chosen env self request.requested_port true v (usable (λ z. omega arith)))
          | inr (slot, found) ↦
              rw found (elim (bytes_discrete (owner slot.state) request.instance_id) [
                | yes own ↦
                    rw (if_pos _ own)
                      (found_choice self request.requested_port v (λ z. ground arith))
                | no foreign ↦ rw (if_neg _ foreign) (failed_choice self ErrorCode.replaced v)
              ])
        ])
]

returning_port :
    {A : Type 0} (b port : ℕ) (out : Registry × Result ErrorCode A)
    → (returning b out).1 ≡ ok port
    → port ≡ b
returning_port b port (self, ok a) e = cc
returning_port b port (self, err code) e = cc

choose_port-requested :
    (env : Env) (self : Registry) (request : RegisterRequest) (port : ℕ)
    → request.requested_port ≢ 0
    → (choose_port env self request).1 ≡ ok port
    → port ≡ request.requested_port
unfolding choose_port
choose_port-requested env self request port asked e = ground (
  arith,
  returning_port request.requested_port port (ensure_slot env self request.requested_port false),
  returning_port request.requested_port port (ensure_slot env self request.requested_port true),
)

module _ {ℓ} (P : Option (Registry × Result ErrorCode Registration) → Type ℓ) (env : Env)
    (self : Registry) (request : RegisterRequest) (room : self.next_generation + 1 < 2 ^ 64)
    (failed : (self' : Registry) (code : ErrorCode)
      → Binds self self'
      → Inv self'
      → P (some (self', err code)))
    (done : (self' : Registry) (port : ℕ) (slot : PortSlot)
      → Binds self self'
      → Inv self'
      → slot_at self' port ≡ some slot
      → (request.requested_port ≢ 0 → port ≡ request.requested_port)
      → P (
          some (
            installed env self' request port slot,
            ok (record {
              assigned_port = port;
              max_connections = self'.config.max_connections;
              generation = self'.next_generation;
            }),
          ))) where
  after_choice_cases :
      (out : Registry × Result ErrorCode ℕ)
      → Chosen self out
      → ((port : ℕ) → request.requested_port ≢ 0 → out.1 ≡ ok port → port ≡ request.requested_port)
      → P (after_choice env request out)
  after_choice_cases (self', err code) c asked = failed self' code c.binds c.inv
  after_choice_cases (self', ok port) c asked = elim (Option-cases (slot_at self' port)) [
    | inl e ↦ absurd (c.slot port refl e)
    | inr (slot, e) ↦
        subst P (sym (install_lem env self' request port slot (rw c.binds.generation room) e))
          (done self' port slot c.binds c.inv e (λ h. asked port h refl))
  ]

  -- A rule for `register`, where the counter has room: it ends with an error and at most a new
  -- reservation, or with the take-over of a port that has a slot.
  pub register_cases :
      Inv self → AllowedPort request.mode request.requested_port → P (register env self request)
  unfolding register
  register_cases v allowed =
      elim (Bool-cases
        (not (request.requested_port == 0) && request.requested_port == self.config.listen.port)) [
          | inl bad ↦ rw (bad, register) (failed self _ (Binds-refl self) v)
          | inr good ↦
              rw (good, register)
                (after_choice_cases (choose_port env self request)
                  (choose_port-Chosen env self request v allowed (λ nonzero same. ground arith))
                  (choose_port-requested env self request))
        ]
