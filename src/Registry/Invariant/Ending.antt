-- ===== src/Registry/Invariant/Ending.antt =====
-- src/server/registry.rs: the tables at the end of a session.
use tunlet.Prelude.{
  ℕ, ◌≡◌, ◌≢◌, refl, sym, subst, arith, ◌≤◌, ◌<◌, true, none, some, Option, ℕ_discrete, List, ite,
}
use tunlet.Prelude.Maps.{
  lookup, insert, remove, Distinct, lookup-insert, lookup-remove, lookup-retain, insert-Distinct,
  remove-Distinct, retain-Distinct, length-remove, length-insert_found,
}
use tunlet.Prelude.Bytes.{bytes_discrete}
use tunlet.Protocol.Enums.{SessionId}
use tunlet.Registry.State.{
  Registry, SessionRef, PortSlot, active, reserved, PendingRequest, RequestKey, key_discrete,
  slot_at, session_of, request_of, max_slots,
}
use tunlet.Registry.Register.{drop_pending_for, drop_session, other_session}
use tunlet.Registry.Lifecycle.{is_current}
use tunlet.Registry.Consistent.{Consistent, active_in, drop-Consistent}
use tunlet.Registry.Invariant.{Holds, Inv, owner_at}

-- The slot of a registered session is its own: the tests for this in the code always succeed.
pub current :
    (self : Registry) (id : SessionId) (s : SessionRef)
    → Inv self
    → session_of self id ≡ some s
    → is_current (slot_at self s.port) s.generation ≡ true
current self id s v h = ground (arith, v.agreed.session_slot id s h)

-- The requests that `drop_pending_for` leaves.
pub kept_requests :
    (self : Registry) (id : SessionId) (key : RequestKey) (e : PendingRequest)
    → Distinct key_discrete self.pending
    → request_of (drop_pending_for id self) key ≡ some e
    → (request_of self key ≡ some e) × (key.0 ≢ id)
unfolding drop_pending_for
kept_requests self id key e d h =
    ground (arith, lookup-retain key_discrete (other_session id) key self.pending d)

pub active_slot :
    (o : Option PortSlot) (s : SessionRef)
    → active_in o ≡ some s
    → (slot : PortSlot) × (o ≡ some slot) × (slot.state ≡ active s)
active_slot none s h = absurd (cc)
active_slot (some slot) s h = (slot, refl, ground arith)

abbrev pub reserve : SessionRef → ℕ → PortSlot → PortSlot
reserve s expires_at slot = record slot { state = reserved s.instance_id s.generation expires_at }

module _ (self : Registry) (id : SessionId) (s : SessionRef) (v : Inv self)
    (known : session_of self id ≡ some s) where
  pub own_id : s.session_id ≡ id
  own_id = (v.agreed.session_slot id s known).0

  pub own_known : session_of self s.session_id ≡ some s
  own_known = subst (λ i. session_of self i ≡ some s) (sym own_id) known

  -- The end of the session, for any slots in which its port has no owner.
  pub ended :
      (ports : List (ℕ × PortSlot))
      → ((p : ℕ)
          → active_in (lookup ℕ_discrete p ports)
            ≡ ite (ℕ_discrete p s.port) none (owner_at self p))
      → Consistent
          (λ p. active_in (lookup ℕ_discrete p ports))
          (session_of (drop_session id self))
          (request_of (drop_pending_for id self))
  ended ports vacated =
      drop-Consistent _ _ _ _ _ _ v.agreed s own_known vacated
        (λ i. rw own_id (lookup-remove bytes_discrete i id self.sessions))
        (λ key e h. rw own_id (kept_requests self id key e v.distinct_requests h))

  left_young :
      (i : SessionId) (t : SessionRef)
      → session_of (drop_session id self) i ≡ some t
      → t.generation < self.next_generation
  left_young i t h = v.young i t (ground (arith, lookup-remove bytes_discrete i id self.sessions))

  pub left-Distinct : Distinct key_discrete (drop_pending_for id self).pending
  unfolding drop_pending_for
  left-Distinct = retain-Distinct key_discrete (other_session id) self.pending v.distinct_requests

  pub own_slot : (slot : PortSlot) × (slot_at self s.port ≡ some slot) × (slot.state ≡ active s)
  own_slot = active_slot (slot_at self s.port) s (v.agreed.session_slot id s known).1

  pub control_not_own : self.config.listen.port ≢ s.port
  control_not_own e = let (slot, found, _) = own_slot in ground (arith, v.control_port, found)

  pub lost_Inv :
      (expires_at : ℕ) (slot : PortSlot)
      → slot_at self s.port ≡ some slot
      → Holds self.config.listen.port self.next_generation
          (insert ℕ_discrete s.port (reserve s expires_at slot) self.ports)
          (drop_session id self).sessions
          (drop_pending_for id self).pending
  lost_Inv expires_at slot found = record {
    agreed = ended (insert ℕ_discrete s.port (reserve s expires_at slot) self.ports) λ p.
        ground (arith, lookup-insert ℕ_discrete p s.port (reserve s expires_at slot) self.ports);
    young = left_young;
    few_slots =
        subst (λ n. n ≤ max_slots)
          (sym (
            length-insert_found ℕ_discrete s.port (reserve s expires_at slot) self.ports
              (ground arith)))
          v.few_slots;
    control_port = ground (
      arith,
      lookup-insert ℕ_discrete self.config.listen.port s.port (reserve s expires_at slot)
          self.ports,
      control_not_own,
      v.control_port,
    );
    distinct_ports =
        insert-Distinct ℕ_discrete s.port (reserve s expires_at slot) self.ports v.distinct_ports;
    distinct_requests = left-Distinct;
  }

  pub closed_Inv :
      Holds self.config.listen.port self.next_generation
        (remove ℕ_discrete s.port self.ports)
        (drop_session id self).sessions
        (drop_pending_for id self).pending
  closed_Inv = record {
    agreed =
        ended (remove ℕ_discrete s.port self.ports)
          λ p. ground (arith, lookup-remove ℕ_discrete p s.port self.ports);
    young = left_young;
    few_slots = omega (arith, length-remove ℕ_discrete s.port self.ports, v.few_slots);
    control_port =
        ground (
          arith,
          lookup-remove ℕ_discrete self.config.listen.port s.port self.ports,
          v.control_port,
        );
    distinct_ports = remove-Distinct ℕ_discrete s.port self.ports v.distinct_ports;
    distinct_requests = left-Distinct;
  }
