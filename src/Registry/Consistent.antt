-- ===== src/Registry/Consistent.antt =====
-- src/server/registry.rs: ports, sessions and pending requests as three partial functions that
-- agree.
use tunlet.Prelude.{
  ℕ, ◌≡◌, ◌≢◌, refl, ◌∙◌, arith, Option, none, some, ite, ℕ_discrete, ◌⊎◌, inl, inr,
}
use tunlet.Prelude.Bytes.{bytes_discrete}
use tunlet.Protocol.Enums.{SessionId}
use tunlet.Registry.State.{
  SessionRef, PortSlot, SlotState, active, reserved, PendingRequest, RequestKey,
}

-- The session that a slot belongs to, if it is not a reservation.
abbrev pub active_in : Option PortSlot → Option SessionRef
active_in none = none
active_in (some slot) = elim slot.state [ active s ↦ some s | reserved _ _ _ ↦ none ]

pub SlotState-cases :
    (st : SlotState)
    → ((s : SessionRef) × (st ≡ active s))
      ⊎ ((i : SessionId) × (g : ℕ) × (t : ℕ) × (st ≡ reserved i g t))
SlotState-cases (active s) = inl (s, refl)
SlotState-cases (reserved i g t) = inr (i, g, t, refl)

-- Each active port holds a registered session of that port, each session holds its port, and each
-- request waits for a registered session of its own generation.
pub record Consistent (owner : ℕ → Option SessionRef) (session : SessionId → Option SessionRef)
    (request : RequestKey → Option PendingRequest) : Type 0 where
  pub slot_session :
      (p : ℕ) (s : SessionRef) → owner p ≡ some s → (s.port ≡ p) × (session s.session_id ≡ some s)
  pub session_slot :
      (id : SessionId) (s : SessionRef)
      → session id ≡ some s
      → (s.session_id ≡ id) × (owner s.port ≡ some s)
  pub request_session :
      (key : RequestKey) (e : PendingRequest)
      → request key ≡ some e
      → (s : SessionRef) × (session key.0 ≡ some s) × (s.generation ≡ e.generation)

module _ (owner owner' : ℕ → Option SessionRef) (session session' : SessionId → Option SessionRef)
    (request request' : RequestKey → Option PendingRequest)
    (c : Consistent owner session request) where
  -- A session ends: its port has no owner, and its requests are dropped.
  pub drop-Consistent :
      (gone : SessionRef)
      → session gone.session_id ≡ some gone
      → ((p : ℕ) → owner' p ≡ ite (ℕ_discrete p gone.port) none (owner p))
      → ((id : SessionId) → session' id ≡ ite (bytes_discrete id gone.session_id) none (session id))
      → ((key : RequestKey) (e : PendingRequest)
          → request' key ≡ some e
          → (request key ≡ some e) × (key.0 ≢ gone.session_id))
      → Consistent owner' session' request'
  drop-Consistent gone known ports sessions requests = record {
    slot_session = λ p s h. ground (arith, ports p, sessions s.session_id, c.slot_session p s);
    session_slot = λ id s h. ground (
      arith,
      ports s.port,
      sessions id,
      c.session_slot id s,
      c.session_slot gone.session_id gone known,
    );
    request_session = λ key e h.
        let (old, other) = requests key e h in
        let (s, known', same) = c.request_session key e old in
        (s, ground (arith, sessions key.0, other, known'), same);
  }

  -- A session of a new identifier takes a port without owner.
  pub add-Consistent :
      (new : SessionRef)
      → owner new.port ≡ none
      → session new.session_id ≡ none
      → ((p : ℕ) → owner' p ≡ ite (ℕ_discrete p new.port) (some new) (owner p))
      → ((id : SessionId)
          → session' id ≡ ite (bytes_discrete id new.session_id) (some new) (session id))
      → ((key : RequestKey) (e : PendingRequest) → request' key ≡ some e → request key ≡ some e)
      → Consistent owner' session' request'
  add-Consistent new vacant unknown ports sessions requests = record {
    slot_session = λ p s h. ground (arith, ports p, sessions s.session_id, c.slot_session p s);
    session_slot = λ id s h. ground (arith, ports s.port, sessions id, c.session_slot id s);
    request_session = λ key e h.
        let (s, known, same) = c.request_session key e (requests key e h) in
        (s, ground (arith, sessions key.0), same);
  }

  -- The owners and sessions stay, and every request is an old one or waits for a session.
  pub keep-Consistent :
      ((p : ℕ) → owner' p ≡ owner p)
      → ((id : SessionId) → session' id ≡ session id)
      → ((key : RequestKey) (e : PendingRequest)
          → request' key ≡ some e
          → (s : SessionRef) × (session key.0 ≡ some s) × (s.generation ≡ e.generation))
      → Consistent owner' session' request'
  keep-Consistent ports sessions requests = record {
    slot_session = λ p s h. ground (arith, ports p, sessions s.session_id, c.slot_session p s);
    session_slot = λ id s h. ground (arith, ports s.port, sessions id, c.session_slot id s);
    request_session =
        λ key e h. let (s, known, same) = requests key e h in (s, sessions key.0 ∙ known, same);
  }
