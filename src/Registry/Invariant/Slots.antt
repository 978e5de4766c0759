-- ===== src/Registry/Invariant/Slots.antt =====
-- src/server/registry.rs: the invariant in the choice and the binding of a port.
use tunlet.Prelude.{
  ℕ, zero, suc, ◌≡◌, ◌≢◌, refl, arith, ◌<◌, leb, ◌==◌, Bool, ◌||◌, none, some, length, ℕ_discrete,
  List, [], ◌∷◌, subst, inl, inr, Bool-cases, Option-cases,
}
use tunlet.Prelude.Maps.{
  lookup, insert_ordered, lookup-insert_ordered, length-insert_ordered, insert_ordered-Distinct,
}
use tunlet.Protocol.Enums.{InstanceId}
use tunlet.Error.{ErrorCode, Result, ok, err}
use tunlet.Registry.State.{Registry, Env, PortSlot, slot_at, max_slots}
use tunlet.Registry.Slots.{
  bind_slot, placeholder, is_some, ensure_slot, scan, after_bind, allocate_automatic, find_owned,
  returning,
}
use tunlet.Registry.Consistent.{active_in, keep-Consistent}
use tunlet.Registry.Invariant.{Inv, owner_at}

-- What binding leaves alone, and what is so of the port that it returns.
pub record Binds (self : Registry) (self' : Registry) : Type 0 where
  pub config : self'.config ≡ self.config
  pub timing : self'.timing ≡ self.timing
  pub sessions : self'.sessions ≡ self.sessions
  pub pending : self'.pending ≡ self.pending
  pub generation : self'.next_generation ≡ self.next_generation
  pub semaphores : self'.semaphores ≡ self.semaphores
  pub tasks : self'.tasks ≡ self.tasks
  pub global : self'.global_connections ≡ self.global_connections

pub Binds-refl : (self : Registry) → Binds self self
Binds-refl self = record {
  config = refl;
  timing = refl;
  sessions = refl;
  pending = refl;
  generation = refl;
  semaphores = refl;
  tasks = refl;
  global = refl;
}

pub bind_slot-Binds :
    (env : Env) (self : Registry) (port : ℕ) → Binds self (bind_slot env self port).0
unfolding bind_slot
bind_slot-Binds env self port = ground arith

pub bind_slot_err :
    (env : Env) (self : Registry) (port : ℕ) (code : ErrorCode)
    → (bind_slot env self port).1 ≡ err code
    → (bind_slot env self port).0 ≡ self
unfolding bind_slot
bind_slot_err env self port code e = ground arith

module _ (env : Env) (self : Registry) (v : Inv self) (port : ℕ) where
  bind_owner :
      slot_at self port ≡ none
      → (slot : PortSlot) (p : ℕ) → active_in (some slot) ≡ none
      → active_in (lookup ℕ_discrete p (insert_ordered port slot self.ports)) ≡ owner_at self p
  bind_owner vacant slot p placeholder =
      ground (arith, lookup-insert_ordered p port slot self.ports)

  pub bind_slot-Inv :
      slot_at self port ≡ none
      → length self.ports < max_slots
      → port ≢ self.config.listen.port
      → Inv (bind_slot env self port).0
  unfolding bind_slot
  bind_slot-Inv vacant room public = elim (Option-cases (env.bind self.config.data_bind port)) [
    | inr (x, e) ↦ rw (e, bind_slot) v
    | inl e ↦
        rw (e, bind_slot)
          (record {
            agreed =
                keep-Consistent _ _ _ _ _ _ v.agreed (λ p. bind_owner vacant _ p refl) (λ id. refl)
                  v.agreed.request_session;
            young = v.young;
            few_slots = omega (arith, length-insert_ordered port _ self.ports);
            control_port = ground (
              arith,
              lookup-insert_ordered self.config.listen.port port (placeholder env self) self.ports,
              v.control_port,
            );
            distinct_ports = insert_ordered-Distinct port _ self.ports vacant v.distinct_ports;
            distinct_requests = v.distinct_requests;
          })
  ]

pub bind_slot-found :
    (env : Env) (self : Registry) (port id : ℕ)
    → (bind_slot env self port).1 ≡ ok id
    → slot_at (bind_slot env self port).0 port ≢ none
unfolding bind_slot
bind_slot-found env self port id h e =
    ground (arith, lookup-insert_ordered port port (placeholder env self) self.ports)

-- What the choice of a port comes to: the invariant is kept, and the chosen port has a slot.
pub record Chosen (self : Registry) (out : Registry × Result ErrorCode ℕ) : Type 0 where
  pub binds : Binds self out.0
  pub inv : Inv out.0
  pub slot : (port : ℕ) → out.1 ≡ ok port → slot_at out.0 port ≢ none

-- A free port that is not the control port.
pub record Vacant (self : Registry) (port : ℕ) : Type 0 where
  pub unbound : slot_at self port ≡ none
  pub room : length self.ports < max_slots
  pub usable : port ≢ self.config.listen.port

ok_inj : {a b : ℕ} → ◌≡◌ {A = Result ErrorCode ℕ} (ok a) (ok b) → a ≡ b
ok_inj e = cc

returning_twice :
    {A : Type 0} (port : ℕ) (out : Registry × Result ErrorCode A)
    → returning port (returning tt out) ≡ returning port out
returning_twice port (self, ok a) = refl
returning_twice port (self, err code) = refl

bind-Chosen :
    (env : Env) (self : Registry) (port : ℕ)
    → Inv self
    → Vacant self port
    → Chosen self (returning port (bind_slot env self port))
bind-Chosen env self port v w =
    go (bind_slot env self port) (bind_slot-Binds env self port)
      (bind_slot-Inv env self v port w.unbound w.room w.usable) (bind_slot-found env self port)
  where
    go :
        (out : Registry × Result ErrorCode ℕ)
        → Binds self out.0
        → Inv out.0
        → ((id : ℕ) → out.1 ≡ ok id → slot_at out.0 port ≢ none)
        → Chosen self (returning port out)
    go (self', ok id) b i found = record {
      binds = b;
      inv = i;
      slot = λ p e. subst (λ q. slot_at self' q ≢ none) (ok_inj e) (found id refl);
    }
    go (self', err code) b i found = record { binds = b; inv = i; slot = λ p e. absurd (cc) }

-- A failed choice leaves the state, or a bind of it.
pub failed_choice : (self : Registry) (code : ErrorCode) → Inv self → Chosen self (self, err code)
failed_choice self code v = record { binds = Binds-refl self; inv = v; slot = λ p e. absurd (cc) }

pub found_choice :
    (self : Registry) (port : ℕ) → Inv self → slot_at self port ≢ none → Chosen self (self, ok port)
found_choice self port v h = record {
  binds = Binds-refl self;
  inv = v;
  slot = λ p e. subst (λ q. slot_at self q ≢ none) (ok_inj e) h;
}

after_bind-Chosen :
    (self : Registry) (port : ℕ) (rest : Registry → Registry × Result ErrorCode ℕ)
    (out : Registry × Result ErrorCode ℕ)
    → Chosen self (returning port out)
    → ((code : ErrorCode) → out.1 ≡ err code → out.0 ≡ self)
    → Chosen self (rest self)
    → Chosen self (after_bind port rest out)
after_bind-Chosen self port rest (self', ok id) c same r = c
after_bind-Chosen self port rest (self', err ErrorCode.port_unavailable) c same r =
    rw (same ErrorCode.port_unavailable refl) r
after_bind-Chosen self port rest (self', err _) c same r = c

scan-Chosen :
    (env : Env) (k : ℕ) (self : Registry) (port : ℕ)
    → Inv self
    → length self.ports < max_slots
    → Chosen self (scan env k self port)
unfolding scan
scan-Chosen env zero self port v room = failed_choice self _ v
scan-Chosen env (suc k) self port v room =
    elim (Bool-cases (port == self.config.listen.port || is_some (slot_at self port))) [
      | inl e ↦ rw (e, scan) (scan-Chosen env k self (suc port) v room)
      | inr e ↦
          rw (e, scan)
            (after_bind-Chosen self port (λ self'. scan env k self' (suc port))
              (bind_slot env self port)
              (bind-Chosen env self port v
                (record { unbound = ground arith; room = room; usable = ground arith }))
              (bind_slot_err env self port) (scan-Chosen env k self (suc port) v room))
    ]

find_owned-found :
    (instance_id : InstanceId) (ports : List (ℕ × PortSlot)) (port : ℕ)
    → find_owned instance_id ports ≡ some port
    → lookup ℕ_discrete port ports ≢ none
unfolding find_owned lookup
find_owned-found instance_id [] port e = cc
find_owned-found instance_id ((p, slot) ∷ ports) port e =
    ground (arith, find_owned-found instance_id ports port)

pub allocate_automatic-Chosen :
    (env : Env) (self : Registry) (instance_id : InstanceId)
    → Inv self
    → Chosen self (allocate_automatic env self instance_id)
unfolding allocate_automatic
allocate_automatic-Chosen env self instance_id v =
    elim (Option-cases (find_owned instance_id self.ports)) [
      | inr (port, e) ↦
          rw (e, allocate_automatic)
            (found_choice self port v (find_owned-found instance_id self.ports port e))
      | inl e ↦
          rw (e, allocate_automatic)
            (elim (Bool-cases (leb max_slots (length self.ports))) [
              | inl full ↦ rw full (failed_choice self _ v)
              | inr room ↦ rw room (scan-Chosen env _ self self.config.min_port v (ground arith))
            ])
    ]

pub ensure_slot-Chosen :
    (env : Env) (self : Registry) (port : ℕ) (exclusive_new : Bool)
    → Inv self
    → port ≢ self.config.listen.port
    → Chosen self (returning port (ensure_slot env self port exclusive_new))
unfolding ensure_slot
ensure_slot-Chosen env self port exclusive_new v usable =
    elim (Bool-cases (is_some (slot_at self port))) [
      | inl e ↦ rw e (elim (Bool-cases exclusive_new) [
        | inl x ↦ rw x (failed_choice self _ v)
        | inr x ↦ rw x (found_choice self port v (ground arith))
      ])
      | inr e ↦ rw e (elim (Bool-cases (leb max_slots (length self.ports))) [
        | inl full ↦ rw full (failed_choice self _ v)
        | inr room ↦
            rw (room, returning_twice port (bind_slot env self port))
              (bind-Chosen env self port v
                (record { unbound = ground arith; room = ground arith; usable = usable }))
      ])
    ]
