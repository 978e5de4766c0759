-- ===== src/Registry/Departure.antt =====
-- src/server/registry.rs: what becomes of a port when its session ends.
use tunlet.Prelude.{◌≡◌, ◌≢◌, refl, arith, ◌+◌, none, some, Option, ℕ_discrete}
use tunlet.Prelude.Maps.{lookup, remove, lookup-insert, lookup-remove}
use tunlet.Prelude.Bytes.{bytes_discrete}
use tunlet.Protocol.Enums.{SessionId}
use tunlet.Registry.State.{
  Registry, Env, SessionRef, PortSlot, reserved, PendingRequest, RequestKey, slot_at, session_of,
  request_of,
}
use tunlet.Registry.Register.{drop_pending_for}
use tunlet.Registry.Lifecycle.{session_lost, goodbye}
use tunlet.Registry.Invariant.{Inv}
use tunlet.Registry.Invariant.Lifecycle.{lost_state, closed_state, session_lost_lem, goodbye_lem}
use tunlet.Registry.Invariant.Ending.{reserve, kept_requests, current, own_slot}

-- Nothing is left of a session but its port.
pub record IsGone (self : Registry) (id : SessionId) : Type 0 where
  pub session : session_of self id ≡ none
  pub requests : (key : RequestKey) → key.0 ≡ id → request_of self key ≡ none

absent : (o : Option PendingRequest) → ((e : PendingRequest) → o ≢ some e) → o ≡ none
absent none h = refl
absent (some e) h = absurd (h e refl)

module _ (self : Registry) (s : SessionRef) (v : Inv self)
    (known : session_of self s.session_id ≡ some s) where
  dropped_session :
      lookup bytes_discrete s.session_id (remove bytes_discrete s.session_id self.sessions) ≡ none
  dropped_session =
      ground (arith, lookup-remove bytes_discrete s.session_id s.session_id self.sessions)

  dropped_requests :
      (key : RequestKey)
      → key.0 ≡ s.session_id
      → request_of (drop_pending_for s.session_id self) key ≡ none
  dropped_requests key e =
      absent _ λ r h. (kept_requests self s.session_id key r v.distinct_requests h).1 e

  lost_slot :
      (env : Env) (slot : PortSlot)
      → slot_at (lost_state env self s slot) s.port
        ≡ some (reserve s (env.now + self.timing.reservation) slot)
  unfolding drop_pending_for
  lost_slot env slot = ground (
    arith,
    lookup-insert ℕ_discrete s.port s.port (reserve s (env.now + self.timing.reservation) slot)
        self.ports,
  )

  closed_slot : (slot : PortSlot) → slot_at (closed_state self s slot) s.port ≡ none
  unfolding drop_pending_for
  closed_slot slot = ground (arith, lookup-remove ℕ_discrete s.port s.port self.ports)

module _ (self : Registry) (s : SessionRef) (v : Inv self)
    (known : session_of self s.session_id ≡ some s) where
  -- Where the tables agree, the loss of a registered session under its own generation keeps the
  -- slot and the listener of its port, reserved for the instance until the reservation time from
  -- now, and leaves no session and no pending request under its identifier.
  pub session_lost_reserves :
      (env : Env)
      → ((slot : PortSlot) × (slot_at self s.port ≡ some slot)
          × (slot_at (session_lost env s.session_id s.generation self) s.port
              ≡ some (record slot {
                state = reserved s.instance_id s.generation (env.now + self.timing.reservation);
              })))
        × IsGone (session_lost env s.session_id s.generation self) s.session_id
  unfolding drop_pending_for
  session_lost_reserves env =
      let (slot, found, held) = own_slot self s.session_id s v known in
      rw (session_lost_lem env self s slot known found (current self s.session_id s v known)) (
        (slot, found, lost_slot self s v known env slot),
        record {
          session = dropped_session self s v known;
          requests = dropped_requests self s v known;
        },
      )

  -- Where the tables agree, the goodbye of a registered session under its own generation leaves no
  -- slot at its port, no session under its identifier and none of its pending requests.
  pub goodbye_releases :
      (slot_at (goodbye s.session_id s.generation self) s.port ≡ none)
      × IsGone (goodbye s.session_id s.generation self) s.session_id
  unfolding drop_pending_for
  goodbye_releases =
      let (slot, found, held) = own_slot self s.session_id s v known in
      rw (goodbye_lem self s slot known found (current self s.session_id s v known)) (
        closed_slot self s v known slot,
        record {
          session = dropped_session self s v known;
          requests = dropped_requests self s v known;
        },
      )
