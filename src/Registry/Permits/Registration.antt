-- ===== src/Registry/Permits/Registration.antt =====
-- src/server/registry.rs: the permits in `register`.
use tunlet.Prelude.{ℕ, ◌≡◌, refl, subst, arith, ◌≤◌, ◌<◌, ◌+◌, some, inl, inr, ℕ_discrete}
use tunlet.Prelude.Maps.{lookup, insert, lookup-insert, lookup-remove}
use tunlet.Prelude.Bytes.{bytes_discrete}
use tunlet.Error.{ErrorCode, Result}
use tunlet.Protocol.Enums.{SessionId}
use tunlet.Registry.State.{Registry, Env, SessionRef, PortSlot, RegisterRequest, Registration}
use tunlet.Registry.Register.{register, take_over}
use tunlet.Registry.Consistent.{SlotState-cases}
use tunlet.Registry.Invariant.{Inv}
use tunlet.Registry.Invariant.Slots.{Binds}
use tunlet.Registry.Invariant.Register.{
  register_cases, installed, displace-Displaces, counted, registered_session,
}
use tunlet.Registry.Invariant.TakeOver.{owned_by}
use tunlet.Registry.Invariant.Step.{IsFresh, out_inj}
use tunlet.Registry.Permits.{holders, Balanced}
use tunlet.Registry.Permits.Calm.{Calm, Calm-Balanced}

-- A take-over leaves the permits alone.
pub take_over-Calm :
    (env : Env) (port : ℕ) (slot : PortSlot) (s : SessionRef) (self : Registry)
    → Calm self (take_over env port slot s self)
unfolding take_over
take_over-Calm env port slot s self = elim (SlotState-cases slot.state) [
  | inr (i, g, t, e) ↦
      rw (e, take_over)
        (record {
          config = refl;
          global = refl;
          tasks = refl;
          semaphores = refl;
          generation = refl;
          sessions = λ id t h. h;
        })
  | inl (previous, e) ↦
      let d =
        displace-Displaces env previous
          (record self { ports = insert ℕ_discrete port (owned_by s slot) self.ports }) in
      rw (e, take_over)
        (record {
          config = d.config;
          global = d.global;
          tasks = d.tasks;
          semaphores = d.semaphores;
          generation = d.generation;
          sessions = λ id t h. ground (
            arith,
            d.sessions,
            lookup-remove bytes_discrete id previous.session_id self.sessions,
          );
        })
]

-- The permits of the new generation, whatever the take-over did to the rest.
counted_each :
    (self : Registry) (name : ℕ)
    → Balanced self
    → 0 < name
    → name < self.next_generation + 1
    → (counted self).semaphores name + holders name self.tasks ≡ self.config.max_connections
counted_each self name b low high = ground (arith, b.each name low, b.later name)

counted_named :
    (self after : Registry) (s : SessionRef) (id : SessionId) (t : SessionRef)
    → Balanced self
    → Calm (counted self) after
    → s.permits ≡ self.next_generation
    → lookup bytes_discrete id (insert bytes_discrete s.session_id s after.sessions) ≡ some t
    → (0 < t.permits) × (t.permits < self.next_generation + 1)
counted_named self after s id t b c own h = elim (bytes_discrete id s.session_id) [
  | yes here ↦
      let same : s ≡ t =
        ground (arith, lookup-insert bytes_discrete id s.session_id s after.sessions) in
      let start = b.started in rw⁻¹ same (rw own (omega arith, omega arith))
  | no other ↦
      let (low, high) = b.named id t (
        c.sessions id t
          (ground (arith, lookup-insert bytes_discrete id s.session_id s after.sessions))) in
      (low, omega arith)
]

installed-Balanced :
    (env : Env) (self : Registry) (request : RegisterRequest) (port : ℕ) (slot : PortSlot)
    → Balanced self
    → Balanced (installed env self request port slot)
installed-Balanced env self request port slot b =
    let s = registered_session self request port in
    let c = take_over-Calm env port slot s (counted self) in
    record {
      global = rw (c.global, c.tasks) b.global;
      each = λ name low high.
          rw (c.semaphores, c.tasks, c.config)
            (counted_each self name b low (rw⁻¹ c.generation high));
      later = λ name high.
          let high' : self.next_generation + 1 ≤ name = rw⁻¹ c.generation high in
          rw c.tasks (b.later name (omega arith));
      named = λ id t h.
          rw c.generation
            (counted_named self (take_over env port slot s (counted self)) s id t b c refl h);
      started = rw c.generation (omega arith);
    }

Binds-Calm : {self self' : Registry} → Binds self self' → Calm self self'
Binds-Calm {self} b = record {
  config = b.config;
  global = b.global;
  tasks = b.tasks;
  semaphores = b.semaphores;
  generation = b.generation;
  sessions = λ id s h. subst (λ l. lookup bytes_discrete id l ≡ some s) b.sessions h;
}

pub register-Balanced :
    (env : Env) (self : Registry) (request : RegisterRequest)
    (out : Registry × Result ErrorCode Registration)
    → Inv self
    → IsFresh self request
    → Balanced self
    → register env self request ≡ some out
    → Balanced out.0
register-Balanced env self request out v f b =
    register_cases (λ r. r ≡ some out → Balanced out.0) env self request f.room
      (λ self' code binds v' e.
        subst {A = Registry × Result ErrorCode Registration} (λ o. Balanced o.0) (out_inj e)
          (Calm-Balanced (Binds-Calm binds) b))
      (λ self' port slot binds v' found asked e.
        subst {A = Registry × Result ErrorCode Registration} (λ o. Balanced o.0) (out_inj e)
          (installed-Balanced env self' request port slot (Calm-Balanced (Binds-Calm binds) b)))
      v f.allowed
