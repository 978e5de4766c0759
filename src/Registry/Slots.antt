-- ===== src/Registry/Slots.antt =====
-- src/server/registry.rs: finding and binding a public port.
use tunlet.Prelude.{
  ℕ, zero, suc, ◌+◌, ◌-◌, ◌^◌, ◌%◌, ◌==◌, leb, if◌then◌else◌, Bool, true, false, ◌||◌, List, [],
  ◌∷◌, Option, none, some, ite, length, replicate,
}
use tunlet.Prelude.Maps.{insert_ordered}
use tunlet.Prelude.Bytes.{bytes_discrete}
use tunlet.Error.{
  ErrorCode, server_busy, replaced, port_unavailable, no_port_available, internal_error, Result, ok,
  err,
}
use tunlet.Protocol.Enums.{InstanceId}
use tunlet.Registry.State.{
  Registry, Env, PortSlot, SlotState, active, reserved, BindError, addr_in_use, permission_denied,
  other, max_slots, slot_at, emit, listening,
}

-- `net::is_port_taken`
unfoldable pub is_port_taken : BindError → Bool
is_port_taken addr_in_use = true
is_port_taken permission_denied = true
is_port_taken other = false

abbrev pub is_some : {A : Type 0} → Option A → Bool
is_some none = false
is_some (some a) = true

-- The slot of a port that was just bound: its owner is installed next.
abbrev pub placeholder : Env → Registry → PortSlot
placeholder env self = record {
  listener_id = self.next_listener_id;
  listener_cancel = self.next_listener_id;
  state = reserved (replicate 16 0) 0 (env.now + self.timing.reservation);
}

-- `Registry::bind_slot`. The slot is a placeholder: the caller installs the owner next.
-- The token of the new listener is named by the listener's number.
unfoldable pub bind_slot : Env → Registry → ℕ → Registry × Result ErrorCode ℕ
unfolding is_port_taken
bind_slot env self port = elim (env.bind self.config.data_bind port) [
  | some error ↦ (self, if is_port_taken error then err port_unavailable else err internal_error)
  | none ↦
      let listener_id = self.next_listener_id in
      (
        emit (listening listener_id port) (record self {
          next_listener_id = (listener_id + 1) % 2 ^ 64;
          ports = insert_ordered port (placeholder env self) self.ports;
        }),
        ok listener_id,
      )
]

-- `.map(|_| ())`, and `Ok(port)` in the scan.
abbrev pub returning :
    {A B : Type 0} → B → Registry × Result ErrorCode A → Registry × Result ErrorCode B
returning b (self, ok _) = (self, ok b)
returning b (self, err code) = (self, err code)

-- `Registry::ensure_slot`; the source ignores its `instance_id` too.
unfoldable pub ensure_slot : Env → Registry → ℕ → Bool → Registry × Result ErrorCode (Unit {0})
ensure_slot env self port exclusive_new =
    if is_some (slot_at self port)
    then (if exclusive_new then (self, err replaced) else (self, ok tt))
    else if leb max_slots (length self.ports)
    then (self, err server_busy)
    else returning tt (bind_slot env self port)

-- The instance that a slot belongs to.
unfoldable pub owner : SlotState → InstanceId
owner (active session) = session.instance_id
owner (reserved instance_id _ _) = instance_id

-- The lowest port that the instance owns: the slots are in the order of their ports.
unfoldable pub find_owned : InstanceId → List (ℕ × PortSlot) → Option ℕ
unfolding owner bytes_discrete
find_owned instance_id [] = none
find_owned instance_id ((port, slot) ∷ ports) =
    ite (bytes_discrete (owner slot.state) instance_id) (some port) (find_owned instance_id ports)

-- What the scan does with the answer of `bind_slot`; `rest` goes on with the next port.
abbrev pub after_bind :
    ℕ
    → (Registry → Registry × Result ErrorCode ℕ)
    → Registry × Result ErrorCode ℕ
    → Registry × Result ErrorCode ℕ
after_bind port rest (self, ok _) = (self, ok port)
after_bind port rest (self, err port_unavailable) = rest self
after_bind port rest (self, err code) = (self, err code)

-- `for port in min..=max`: `k` ports from `port` on are left.
unfoldable pub scan : Env → ℕ → Registry → ℕ → Registry × Result ErrorCode ℕ
scan env zero self port = (self, err no_port_available)
scan env (suc k) self port = elim (port == self.config.listen.port || is_some (slot_at self port)) [
  | true ↦ scan env k self (suc port)
  | false ↦ after_bind port (λ self'. scan env k self' (suc port)) (bind_slot env self port)
]

-- `Registry::allocate_automatic`
unfoldable pub allocate_automatic : Env → Registry → InstanceId → Registry × Result ErrorCode ℕ
allocate_automatic env self instance_id = elim (find_owned instance_id self.ports) [
  | some port ↦ (self, ok port)
  | none ↦
      if leb max_slots (length self.ports)
      then (self, err server_busy)
      else scan env (self.config.max_port + 1 - self.config.min_port) self self.config.min_port
]
