-- ===== src/Registry/Invariant/TakeOver.antt =====
-- src/server/registry.rs: the tables when a port is taken over.
use tunlet.Prelude.{ℕ, ◌≡◌, ◌≢◌, sym, subst, arith, ◌≤◌, ◌+◌, none, some, length, ℕ_discrete, List}
use tunlet.Prelude.Maps.{
  lookup, insert, remove, Distinct, lookup-insert, lookup-remove, insert-Distinct,
  length-insert_found,
}
use tunlet.Prelude.Bytes.{bytes_discrete}
use tunlet.Registry.State.{
  Registry, SessionRef, PortSlot, active, slot_at, session_of, request_of, max_slots,
}
use tunlet.Registry.Register.{drop_pending_for, drop_session}
use tunlet.Registry.Consistent.{Consistent, active_in, add-Consistent}
use tunlet.Registry.Invariant.{Holds, Inv}
use tunlet.Registry.Invariant.Ending.{ended, left-Distinct, reserve}

abbrev pub owned_by : SessionRef → PortSlot → PortSlot
owned_by s slot = record slot { state = active s }

module _ (self : Registry) (v : Inv self) (s : SessionRef) (slot : PortSlot)
    (found : slot_at self s.port ≡ some slot) (unknown : session_of self s.session_id ≡ none)
    (generation : s.generation ≡ self.next_generation) where
  control_not_taken : self.config.listen.port ≢ s.port
  control_not_taken e = ground (arith, v.control_port, found)

  taken_few : length (insert ℕ_discrete s.port (owned_by s slot) self.ports) ≤ max_slots
  taken_few =
      subst (λ n. n ≤ max_slots)
        (sym (length-insert_found ℕ_discrete s.port (owned_by s slot) self.ports (ground arith)))
        v.few_slots

  taken_control :
      lookup ℕ_discrete self.config.listen.port
        (insert ℕ_discrete s.port (owned_by s slot) self.ports)
      ≡ none
  taken_control = ground (
    arith,
    lookup-insert ℕ_discrete self.config.listen.port s.port (owned_by s slot) self.ports,
    control_not_taken,
    v.control_port,
  )

  taken-Distinct : Distinct ℕ_discrete (insert ℕ_discrete s.port (owned_by s slot) self.ports)
  taken-Distinct = insert-Distinct ℕ_discrete s.port (owned_by s slot) self.ports v.distinct_ports

  -- The port was reserved: nobody is displaced.
  pub vacant_Holds :
      active_in (some slot) ≡ none
      → Holds self.config.listen.port
          (self.next_generation + 1)
          (insert ℕ_discrete s.port (owned_by s slot) self.ports)
          (insert bytes_discrete s.session_id s self.sessions)
          self.pending
  vacant_Holds vacant = record {
    agreed =
        add-Consistent _ _ _ _ _ _ v.agreed s (ground arith) unknown
          (λ p. ground (arith, lookup-insert ℕ_discrete p s.port (owned_by s slot) self.ports))
          (λ id. lookup-insert bytes_discrete id s.session_id s self.sessions) (λ key e h. h);
    young = λ id t h.
        ground (arith, lookup-insert bytes_discrete id s.session_id s self.sessions, v.young id t);
    few_slots = taken_few;
    control_port = taken_control;
    distinct_ports = taken-Distinct;
    distinct_requests = v.distinct_requests;
  }

  module _ (previous : SessionRef) (held : slot.state ≡ active previous) where
    previous_known :
        (previous.port ≡ s.port) × (session_of self previous.session_id ≡ some previous)
    previous_known = ground (arith, v.agreed.slot_session s.port previous)

    -- The slots as if the previous owner's connection had been lost first.
    emptied : List (ℕ × PortSlot)
    emptied = insert ℕ_discrete s.port (reserve previous 0 slot) self.ports

    after_previous :
        Consistent
          (λ p. active_in (lookup ℕ_discrete p emptied))
          (session_of (drop_session previous.session_id self))
          (request_of (drop_pending_for previous.session_id self))
    unfolding emptied
    after_previous = ended self previous.session_id previous v previous_known.1 emptied λ p.
        ground (
          arith,
          lookup-insert ℕ_discrete p s.port (reserve previous 0 slot) self.ports,
          previous_known.0,
        )

    -- The port was active: its owner is displaced.
    pub displaced_Holds :
        Holds self.config.listen.port
          (self.next_generation + 1)
          (insert ℕ_discrete s.port (owned_by s slot) self.ports)
          (insert bytes_discrete s.session_id s
            (remove bytes_discrete previous.session_id self.sessions))
          (drop_pending_for previous.session_id self).pending
    unfolding emptied
    displaced_Holds = record {
      agreed =
          add-Consistent _ _ _ _ _ _ after_previous s
            (ground
              (arith, lookup-insert ℕ_discrete s.port s.port (reserve previous 0 slot) self.ports))
            (ground
              (arith, lookup-remove bytes_discrete s.session_id previous.session_id self.sessions))
            (λ p. ground (
              arith,
              lookup-insert ℕ_discrete p s.port (owned_by s slot) self.ports,
              lookup-insert ℕ_discrete p s.port (reserve previous 0 slot) self.ports,
            ))
            (λ id.
              lookup-insert bytes_discrete id s.session_id s
                (drop_session previous.session_id self).sessions)
            (λ key e h. h);
      young = λ id t h. ground (
        arith,
        lookup-insert bytes_discrete id s.session_id s
            (drop_session previous.session_id self).sessions,
        lookup-remove bytes_discrete id previous.session_id self.sessions,
        v.young id t,
      );
      few_slots = taken_few;
      control_port = taken_control;
      distinct_ports = taken-Distinct;
      distinct_requests = left-Distinct self previous.session_id previous v previous_known.1;
    }
