-- ===== src/Registry/Ownership.antt =====
-- src/server/registry.rs: the ports as their users see them, without listeners, tables and
-- effects, and what the ends of sessions and of reservations do to them.
use tunlet.Prelude.{
  ℕ, ◌≡◌, refl, ap, ◌∙◌, arith, ◌+◌, ◌==◌, leb, if◌then◌else◌, Option, none, some, ℕ_discrete,
}
use tunlet.Prelude.Maps.{lookup-insert, lookup-remove}
use tunlet.Protocol.Enums.{SessionId, InstanceId}
use tunlet.Registry.State.{
  Registry, Env, SessionRef, PortSlot, active, reserved, slot_at, session_of,
}
use tunlet.Registry.Register.{drop_pending_for}
use tunlet.Registry.Lifecycle.{session_lost, goodbye, sweep}
use tunlet.Registry.Invariant.{Inv}
use tunlet.Registry.Invariant.Lifecycle.{session_lost_lem, goodbye_lem}
use tunlet.Registry.Invariant.Ending.{reserve, current, own_slot}
use tunlet.Registry.Expiry.{live_slot, sweep_exact}

pub data Owner : Type 0 where
  unowned : Owner
  held_by : SessionId → Owner
  kept_for : InstanceId → ℕ → Owner

-- The abstract ports, and the three ways in which an owner loses one.
abbrev pub Ports : Type 0
Ports = ℕ → Owner

abbrev pub keep : ℕ → InstanceId → ℕ → Ports → Ports
keep port instance until ports q = if q == port then kept_for instance until else ports q

abbrev pub release : ℕ → Ports → Ports
release port ports q = if q == port then unowned else ports q

abbrev expire_one : ℕ → Owner → Owner
expire_one now unowned = unowned
expire_one now (held_by id) = held_by id
expire_one now (kept_for instance until) =
    if leb until now then unowned else kept_for instance until

abbrev pub expire : ℕ → Ports → Ports
expire now ports q = expire_one now (ports q)

-- The ports of a registry.
abbrev owner_of : Option PortSlot → Owner
owner_of none = unowned
owner_of (some slot) = elim slot.state [
  | active session ↦ held_by session.session_id
  | reserved instance generation until ↦ kept_for instance until
]

abbrev pub ports_of : Registry → Ports
ports_of self port = owner_of (slot_at self port)

module _ (self : Registry) (s : SessionRef) (v : Inv self)
    (known : session_of self s.session_id ≡ some s) where
  loss_keeps :
      (env : Env) (q : ℕ)
      → ports_of (session_lost env s.session_id s.generation self) q
        ≡ keep s.port s.instance_id (env.now + self.timing.reservation) (ports_of self) q
  unfolding drop_pending_for
  loss_keeps env q =
      let (slot, found, held) = own_slot self s.session_id s v known in
      rw (session_lost_lem env self s slot known found (current self s.session_id s v known)) (
        ground (
          arith,
          lookup-insert ℕ_discrete q s.port (reserve s (env.now + self.timing.reservation) slot)
              self.ports,
        ))

  goodbye_frees :
      (q : ℕ)
      → ports_of (goodbye s.session_id s.generation self) q ≡ release s.port (ports_of self) q
  unfolding drop_pending_for
  goodbye_frees q =
      let (slot, found, held) = own_slot self s.session_id s v known in
      rw (goodbye_lem self s slot known found (current self s.session_id s v known))
        (ground (arith, lookup-remove ℕ_discrete q s.port self.ports))

expired_slot :
    (now : ℕ) (o : Option PortSlot) → owner_of (live_slot now o) ≡ expire_one now (owner_of o)
expired_slot now none = refl
expired_slot now (some slot) = ground arith

-- The registry's tables implement the ports with an owner each: where the tables agree, for a
-- registered session under its own generation, its loss keeps its port for its instance until the
-- reservation time from now, its goodbye frees its port, and a sweep at a moment frees exactly the
-- ports that were kept until then at most; every other port has the owner that it had.
pub endings_refine :
    (self : Registry) (s : SessionRef) (env : Env) (now q : ℕ)
    → Inv self
    → session_of self s.session_id ≡ some s
    → (ports_of (session_lost env s.session_id s.generation self) q
        ≡ keep s.port s.instance_id (env.now + self.timing.reservation) (ports_of self) q)
      × (ports_of (goodbye s.session_id s.generation self) q ≡ release s.port (ports_of self) q)
      × (ports_of (sweep now self) q ≡ expire now (ports_of self) q)
endings_refine self s env now q v known = (
  loss_keeps self s v known env q,
  goodbye_frees self s v known q,
  ap owner_of ((sweep_exact now self v).0 q) ∙ expired_slot now (slot_at self q),
)
