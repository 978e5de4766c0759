-- ===== src/Registry/Opening.antt =====
-- src/server/registry.rs: what `accepted_public` does for the session that holds the port.
use tunlet.Prelude.{
  ℕ, ◌≡◌, ◌≢◌, refl, sym, subst, arith, ◌+◌, true, false, none, some, ◌⊎◌, inl, inr, [], ◌∷◌, ◌++◌,
  append_assoc, Bool-cases,
}
use tunlet.Prelude.Maps.{lookup-insert}
use tunlet.Protocol.Enums.{RequestId, MessageType}
use tunlet.Registry.State.{
  Registry, Env, SessionRef, PortSlot, reserved, PendingRequest, RequestKey, Connection, sent,
  serving, key_discrete, slot_at, request_of, outbound_frame,
}
use tunlet.Registry.Lifecycle.{session_lost}
use tunlet.Registry.Public.{accepted_public, open_request}
use tunlet.Registry.Invariant.{Inv}
use tunlet.Registry.Invariant.Public.{Accepts, accepted_public_cases, holder}
use tunlet.Registry.Invariant.Step.{out_inj}
use tunlet.Registry.Departure.{IsGone, session_lost_reserves}

-- The task that serves a public connection.
abbrev pub task_of : Registry → SessionRef → ℕ → ℕ → RequestId → Connection
task_of self session socket at request_id = record {
  socket = socket;
  deadline = at + self.timing.request_wait;
  cancel = session.data_cancel;
  session_id = session.session_id;
  request_id = request_id;
  session_permit = session.permits;
}

-- A request was opened for a session.
pub record Opens (self : Registry) (session : SessionRef) (socket at : ℕ) (request_id : RequestId)
    (self' : Registry) : Type 0 where
  pub unused : request_of self (session.session_id, request_id) ≡ none
  pub waits :
      request_of self' (session.session_id, request_id)
      ≡ some (record {
        generation = session.generation;
        deadline = at + self.timing.request_wait;
        sender = self.next_sender;
      })
  pub other_requests :
      (key : RequestKey)
      → key ≢ (session.session_id, request_id)
      → request_of self' key ≡ request_of self key
  pub served : self'.tasks ≡ task_of self session socket at request_id ∷ self.tasks
  pub session_permit : self'.semaphores session.permits + 1 ≡ self.semaphores session.permits
  pub other_permits :
      (name : ℕ) → name ≢ session.permits → self'.semaphores name ≡ self.semaphores name
  pub global_permit : self'.global_connections + 1 ≡ self.global_connections
  pub sessions : self'.sessions ≡ self.sessions
  pub ports : self'.ports ≡ self.ports
  pub told :
      self'.effects
      ≡ self.effects
        ++ (sent session.writer (outbound_frame MessageType.open_request request_id)
            ∷ (serving (task_of self session socket at request_id) ∷ []))

-- The session lost its connection: its port is reserved and its requests are gone.
pub record Loses (env : Env) (self : Registry) (port : ℕ) (session : SessionRef) (self' : Registry)
    : Type 0 where
  pub slot : PortSlot
  pub held : slot_at self port ≡ some slot
  pub kept :
      slot_at self' port
      ≡ some (record slot {
        state = reserved session.instance_id session.generation (env.now + self.timing.reservation);
      })
  pub gone : IsGone self' session.session_id

module _ (env : Env) (self : Registry) (session : SessionRef) (port listener_id : ℕ) (socket at : ℕ)
    (request_id : RequestId) (v : Inv self) (a : Accepts self listener_id port session)
    (free : request_of self (session.session_id, request_id) ≡ none) where
  opened :
      env.try_send session.writer (outbound_frame MessageType.open_request request_id) ≡ true
      → Opens self session socket at request_id (open_request env self session socket at request_id)
  unfolding open_request
  opened took =
      let key : RequestKey = (session.session_id, request_id) in
      let entry : PendingRequest = record {
        generation = session.generation;
        deadline = at + self.timing.request_wait;
        sender = self.next_sender;
      } in
      let some_left = a.session_room in
      let some_global = a.global_room in
      rw (took, open_request)
        (record {
          unused = free;
          waits = ground (arith, lookup-insert key_discrete key key entry self.pending);
          other_requests =
              λ k other. ground (arith, lookup-insert key_discrete k key entry self.pending);
          served = refl;
          session_permit = ground arith;
          other_permits = λ name other. ground arith;
          global_permit = ground arith;
          sessions = refl;
          ports = refl;
          told =
              append_assoc self.effects
                (sent session.writer (outbound_frame MessageType.open_request request_id) ∷ [])
                (serving (task_of self session socket at request_id) ∷ []);
        })

  lost :
      env.try_send session.writer (outbound_frame MessageType.open_request request_id) ≡ false
      → Loses env self port session (open_request env self session socket at request_id)
  unfolding open_request
  lost full =
      let known = holder self session port v a in
      let (here, known') = v.agreed.slot_session port session (ground (arith, a.found, a.held)) in
      let ((slot, found, kept), gone) = session_lost_reserves self session v known env in
      rw (full, open_request)
        (record {
          slot = slot;
          held = subst (λ p. slot_at self p ≡ some slot) here found;
          kept =
              subst
                (λ p.
                  slot_at (session_lost env session.session_id session.generation self) p
                  ≡ some (record slot {
                    state =
                        reserved session.instance_id session.generation
                          (env.now + self.timing.reservation);
                  }))
                here kept;
          gone = gone;
        })

-- Where the tables agree, a public connection whose handling returns leaves the state unchanged;
-- or it was accepted on the listener of a port that a session holds, with a permit of the session
-- and a global one free, and there is an identifier for it. Then, if the queue of the session
-- takes OPEN, that identifier was not pending for the session and now waits with the generation of
-- the session, its own deadline and a new sender, every other request, session and port is as it
-- was, OPEN is queued, a task serves the connection, and the session has one permit fewer and the
-- server one global permit fewer; and if the queue does not take it, the session is lost: its port
-- is reserved for its instance until the reservation time from now, and neither the session nor a
-- request of it is left.
pub accepted_public-Opens :
    (env : Env) (self self' : Registry) (listener_id port socket at : ℕ)
    → Inv self
    → accepted_public env self listener_id port socket at ≡ some self'
    → (self' ≡ self)
      ⊎ ((session : SessionRef) × (request_id : RequestId) × Accepts self listener_id port session
          × (((env.try_send session.writer (outbound_frame MessageType.open_request request_id)
                  ≡ true)
                × Opens self session socket at request_id self')
              ⊎ ((env.try_send session.writer (outbound_frame MessageType.open_request request_id)
                    ≡ false)
                  × Loses env self port session self')))
accepted_public-Opens env self self' listener_id port socket at v =
    accepted_public_cases
      (λ r.
        r ≡ some self'
        → (self' ≡ self)
          ⊎ ((session : SessionRef) × (request_id : RequestId) × Accepts self listener_id port
                session
              × (((env.try_send session.writer (outbound_frame MessageType.open_request request_id)
                      ≡ true)
                    × Opens self session socket at request_id self')
                  ⊎ ((env.try_send session.writer
                          (outbound_frame MessageType.open_request request_id)
                        ≡ false)
                      × Loses env self port session self'))))
      env self listener_id port socket at (λ e. inl (sym (out_inj e))) (λ e. absurd (cc))
      λ session id a free e. inr (
        session,
        id,
        a,
        elim (Bool-cases
            (env.try_send session.writer (outbound_frame MessageType.open_request id))) [
              | inl took ↦ inl (
                took,
                subst (Opens self session socket at id) (out_inj e)
                    (opened env self session port listener_id socket at id v a free took),
              )
              | inr full ↦ inr (
                full,
                subst (Loses env self port session) (out_inj e)
                    (lost env self session port listener_id socket at id v a free full),
              )
            ],
      )
