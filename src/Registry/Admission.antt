-- ===== src/Registry/Admission.antt =====
-- src/server/registry.rs: what `register` answers.
use tunlet.Prelude.{
  ℕ, zero, suc, ◌≡◌, refl, sym, subst, arith, ◌==◌, leb, Bool, true, false, ◌||◌, if_pos, if_neg,
  inl, inr, Bool-cases, Option-cases, length,
}
use tunlet.Prelude.Bytes.{bytes_discrete}
use tunlet.Protocol.Enums.{InstanceId}
use tunlet.Error.{ErrorCode, Result, ok, err}
use tunlet.Registry.State.{Registry, Env, RegisterRequest, slot_at}
use tunlet.Registry.Slots.{
  bind_slot, returning, ensure_slot, find_owned, after_bind, scan, allocate_automatic, owner,
  is_some,
}
use tunlet.Registry.Register.{choose_port}
use tunlet.Registry.Invariant.Register.{Mode-cases}

-- Whatever fails in the choice of a port leaves the state as it was.
abbrev pub Harmless : {A : Type 0} → Registry → Registry × Result ErrorCode A → Type 0
Harmless self (self', ok a) = Unit
Harmless self (self', err code) = self' ≡ self

returning-Harmless :
    {A B : Type 0} (b : B) (self : Registry) (out : Registry × Result ErrorCode A)
    → Harmless self out
    → Harmless self (returning b out)
returning-Harmless b self (self', ok a) h = tt
returning-Harmless b self (self', err code) h = h

bind_slot-Harmless :
    (env : Env) (self : Registry) (port : ℕ) → Harmless self (bind_slot env self port)
unfolding bind_slot
bind_slot-Harmless env self port = elim (Option-cases (env.bind self.config.data_bind port)) [
  | inl e ↦ rw (e, bind_slot) tt
  | inr (x, e) ↦ rw (e, bind_slot) (ground arith)
]

after_bind-Harmless :
    (self : Registry) (port : ℕ) (rest : Registry → Registry × Result ErrorCode ℕ)
    (out : Registry × Result ErrorCode ℕ)
    → Harmless self out
    → Harmless self (rest self)
    → Harmless self (after_bind port rest out)
after_bind-Harmless self port rest (self', ok id) h r = tt
after_bind-Harmless self port rest (self', err ErrorCode.port_unavailable) h r =
    subst (λ s. Harmless self (rest s)) (sym h) r
after_bind-Harmless self port rest (self', err _) h r = h

scan-Harmless :
    (env : Env) (k : ℕ) (self : Registry) (port : ℕ) → Harmless self (scan env k self port)
unfolding scan
scan-Harmless env zero self port = refl
scan-Harmless env (suc k) self port =
    elim (Bool-cases (port == self.config.listen.port || is_some (slot_at self port))) [
      | inl e ↦ rw (e, scan) (scan-Harmless env k self (suc port))
      | inr e ↦
          rw (e, scan)
            (after_bind-Harmless self port (λ self'. scan env k self' (suc port))
              (bind_slot env self port) (bind_slot-Harmless env self port)
              (scan-Harmless env k self (suc port)))
    ]

allocate_automatic-Harmless :
    (env : Env) (self : Registry) (id : InstanceId) → Harmless self (allocate_automatic env self id)
unfolding allocate_automatic
allocate_automatic-Harmless env self id = elim (Option-cases (find_owned id self.ports)) [
  | inr (port, e) ↦ rw (e, allocate_automatic) tt
  | inl e ↦
      rw (e, allocate_automatic)
        (elim (Bool-cases (leb 1024 (length self.ports))) [
          | inl full ↦ rw full refl
          | inr room ↦ rw room (scan-Harmless env _ self self.config.min_port)
        ])
]

ensure_slot-Harmless :
    (env : Env) (self : Registry) (port : ℕ) (exclusive_new : Bool)
    → Harmless self (ensure_slot env self port exclusive_new)
unfolding ensure_slot
ensure_slot-Harmless env self port exclusive_new = elim (Bool-cases (is_some (slot_at self port))) [
  | inl e ↦ rw e (elim (Bool-cases exclusive_new) [ inl x ↦ rw x refl | inr x ↦ rw x tt ])
  | inr e ↦ rw e (elim (Bool-cases (leb 1024 (length self.ports))) [
    | inl full ↦ rw full refl
    | inr room ↦
        rw room
          (returning-Harmless tt self (bind_slot env self port) (bind_slot-Harmless env self port))
  ])
]

pub choose_port-Harmless :
    (env : Env) (self : Registry) (request : RegisterRequest)
    → Harmless self (choose_port env self request)
unfolding choose_port
choose_port-Harmless env self request = elim (Mode-cases request.mode) [
  | inl e ↦
      rw (e, choose_port)
        (elim (Bool-cases (request.requested_port == 0)) [
          | inl zero_port ↦ rw zero_port (allocate_automatic-Harmless env self request.instance_id)
          | inr port ↦ rw port (
              returning-Harmless request.requested_port self
                (ensure_slot env self request.requested_port false)
                (ensure_slot-Harmless env self request.requested_port false))
        ])
  | inr e ↦
      rw (e, choose_port)
        (elim (Option-cases (slot_at self request.requested_port)) [
          | inl free ↦ rw free (
              returning-Harmless request.requested_port self
                (ensure_slot env self request.requested_port true)
                (ensure_slot-Harmless env self request.requested_port true))
          | inr (slot, found) ↦
              rw found (elim (bytes_discrete (owner slot.state) request.instance_id) [
                | yes own ↦ rw (if_pos _ own) tt
                | no foreign ↦ rw (if_neg _ foreign) refl
              ])
        ])
]
