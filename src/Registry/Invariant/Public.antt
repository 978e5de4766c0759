-- ===== src/Registry/Invariant/Public.antt =====
-- src/server/registry.rs: the invariant in `accepted_public` and `claim`.
use tunlet.Prelude.{
  ℕ, zero, suc, ◌≡◌, ◌≢◌, refl, subst, arith, ◌<◌, ◌+◌, ◌==◌, leb, Bool, false, not, ◌||◌, none,
  some, Option, ◌⊎◌, inl, inr, Bool-cases, Option-cases,
}
use tunlet.Prelude.Maps.{
  lookup, insert, remove, lookup-insert, lookup-remove, insert-Distinct, remove-Distinct,
}
use tunlet.Protocol.Enums.{SessionId, RequestId, MessageType}
use tunlet.Registry.State.{
  Registry, Env, SessionRef, PortSlot, active, PendingRequest, RequestKey, key_discrete, slot_at,
  session_of, request_of, outbound_frame,
}
use tunlet.Registry.Slots.{is_some}
use tunlet.Registry.Public.{
  draw, drawn, failed, exhausted, Draw, open_request, after_draw, admit, accepted_public, claim,
}
use tunlet.Registry.Consistent.{keep-Consistent, SlotState-cases}
use tunlet.Registry.Invariant.{Holds, Inv}
use tunlet.Registry.Invariant.Lifecycle.{session_lost-Inv}

-- A drawn identifier is free.
pub draw_free :
    (fuel : ℕ) (random : ℕ → Option RequestId) (taken : RequestId → Bool) (id : RequestId)
    → draw fuel random taken ≡ drawn id
    → taken id ≡ false
unfolding draw
draw_free zero random taken id e = cc
draw_free (suc fuel) random taken id e =
    ground (arith, draw_free fuel (λ n. random (suc n)) taken id)

-- The loop ends as soon as the source of randomness fails or gives a free identifier.
pub draw_ends :
    (fuel n : ℕ) (random : ℕ → Option RequestId) (taken : RequestId → Bool)
    → n < fuel
    → ((random n ≡ none) ⊎ ((id : RequestId) × (random n ≡ some id) × (taken id ≡ false)))
    → draw fuel random taken ≢ exhausted
unfolding draw
draw_ends zero n random taken h free = absurd (omega arith)
draw_ends (suc fuel) zero random taken h free = λ e. ground arith
draw_ends (suc fuel) (suc n) random taken h free =
    λ e. ground (arith, draw_ends fuel n (λ m. random (suc m)) taken (omega arith) free)

pub forget_Holds :
    (self : Registry) (key : RequestKey)
    → Inv self
    → Holds self.config.listen.port self.next_generation self.ports self.sessions
        (remove key_discrete key self.pending)
forget_Holds self key v = record {
  agreed =
      keep-Consistent _ _ _ _ _ _ v.agreed (λ p. refl) (λ id. refl)
        λ k e h.
          v.agreed.request_session k e
            (ground (arith, lookup-remove key_discrete k key self.pending));
  young = v.young;
  few_slots = v.few_slots;
  control_port = v.control_port;
  distinct_ports = v.distinct_ports;
  distinct_requests = remove-Distinct key_discrete key self.pending v.distinct_requests;
}

pub claim-Inv :
    (env : Env) (self : Registry) (session_id : SessionId) (request_id : RequestId) (socket : ℕ)
    → Inv self
    → Inv (claim env self session_id request_id socket).0
unfolding claim
claim-Inv env self session_id request_id socket v =
    elim (Option-cases (session_of self session_id)) [
      | inl e ↦ rw (e, claim) v
      | inr (session, e) ↦
          rw (e, claim)
            (elim (Option-cases (request_of self (session_id, request_id))) [
              | inl e' ↦ rw e' v
              | inr (entry, e') ↦
                  rw e'
                    (elim (Bool-cases (
                      not (entry.generation == session.generation) || leb entry.deadline env.now)) [
                        | inl stale ↦ rw stale v
                        | inr good ↦ rw good (elim (Bool-cases (env.receives entry.sender)) [
                          | inl there ↦ rw there (forget_Holds self (session_id, request_id) v)
                          | inr gone ↦ rw gone (forget_Holds self (session_id, request_id) v)
                        ])
                      ])
            ])
    ]

-- Each request waits for a session, the new one for the session that it was opened for.
waiting :
    (self : Registry) (session : SessionRef) (key : RequestKey) (entry : PendingRequest)
    → Inv self
    → session_of self session.session_id ≡ some session
    → key.0 ≡ session.session_id
    → entry.generation ≡ session.generation
    → (k : RequestKey) (e : PendingRequest)
    → lookup key_discrete k (insert key_discrete key entry self.pending) ≡ some e
    → (s : SessionRef) × (session_of self k.0 ≡ some s) × (s.generation ≡ e.generation)
waiting self session key entry v known own same k e h = elim (key_discrete k key) [
  | yes here ↦
      (session, ground arith, ground (arith, lookup-insert key_discrete k key entry self.pending))
  | no other ↦
      v.agreed.request_session k e
        (ground (arith, lookup-insert key_discrete k key entry self.pending))
]

-- The session of the slot that a socket was accepted on.
pub record Accepts (self : Registry) (listener_id port : ℕ) (session : SessionRef) : Type 0 where
  pub slot : PortSlot
  pub found : slot_at self port ≡ some slot
  pub listener : slot.listener_id ≡ listener_id
  pub held : slot.state ≡ active session
  pub session_room : self.semaphores session.permits ≢ 0
  pub global_room : self.global_connections ≢ 0

pub holder :
    (self : Registry) (session : SessionRef) {listener_id : ℕ} (port : ℕ)
    → Inv self
    → Accepts self listener_id port session
    → session_of self session.session_id ≡ some session
holder self session port v a = ground (arith, v.agreed.slot_session port session, a.found, a.held)

some_inj : {a b : Registry} → some a ≡ some b → a ≡ b
some_inj e = cc

pub open_request-Inv :
    (env : Env) (self : Registry) (session : SessionRef) (socket at : ℕ) (request_id : RequestId)
    → Inv self
    → session_of self session.session_id ≡ some session
    → Inv (open_request env self session socket at request_id)
unfolding open_request
open_request-Inv env self session socket at request_id v known =
    elim (Bool-cases
      (env.try_send session.writer (outbound_frame MessageType.open_request request_id))) [
        | inr full ↦ rw full (session_lost-Inv env session.session_id session.generation self v)
        | inl sent ↦
            let key : RequestKey = (session.session_id, request_id) in
            let entry : PendingRequest = record {
              generation = session.generation;
              deadline = at + self.timing.request_wait;
              sender = self.next_sender;
            } in
            rw sent (record {
              agreed =
                  keep-Consistent _ _ _ _ _ _ v.agreed (λ p. refl) (λ id. refl)
                    λ k e h. waiting self session key entry v known refl refl k e h;
              young = v.young;
              few_slots = v.few_slots;
              control_port = v.control_port;
              distinct_ports = v.distinct_ports;
              distinct_requests =
                  insert-Distinct key_discrete key entry self.pending v.distinct_requests;
            })
      ]

module _ {ℓ} (P : Option Registry → Type ℓ) (env : Env) (self : Registry)
    (listener_id port socket at : ℕ) (ignored : P (some self)) (endless : P none)
    (opened : (session : SessionRef) (request_id : RequestId)
      → Accepts self listener_id port session
      → request_of self (session.session_id, request_id) ≡ none
      → P (some (open_request env self session socket at request_id))) where
  after_draw_cases :
      (session : SessionRef) (d : Draw)
      → Accepts self listener_id port session
      → ((id : RequestId)
          → d ≡ drawn id
          → is_some (request_of self (session.session_id, id)) ≡ false)
      → P (after_draw env self session socket at d)
  after_draw_cases session (drawn id) a free = opened session id a (free_request (free id refl))
    where
      free_request : {o : Option PendingRequest} → is_some o ≡ false → o ≡ none
      free_request h = ground arith
  after_draw_cases session failed a free = ignored
  after_draw_cases session exhausted a free = endless

  admit_cases :
      (session : SessionRef) (slot : PortSlot)
      → slot_at self port ≡ some slot
      → slot.listener_id ≡ listener_id
      → slot.state ≡ active session
      → P (admit env self session socket at)
  unfolding admit
  admit_cases session slot e own held = elim (Bool-cases (self.semaphores session.permits == 0)) [
    | inl full ↦ rw full ignored
    | inr room ↦ rw room (elim (Bool-cases (self.global_connections == 0)) [
      | inl full ↦ rw full ignored
      | inr global ↦ rw global (
          after_draw_cases session _
            (record {
              slot = slot;
              found = e;
              listener = own;
              held = held;
              session_room = ground arith;
              global_room = ground arith;
            })
            (draw_free env.draws env.random _))
    ])
  ]

  -- A rule for `accepted_public`: the socket is dropped, or a request is opened for the session
  -- that holds the port, under a free identifier and with both permits; or the draw does not end.
  pub accepted_public_cases : P (accepted_public env self listener_id port socket at)
  unfolding accepted_public
  accepted_public_cases = elim (Option-cases (slot_at self port)) [
    | inl e ↦ rw (e, accepted_public) ignored
    | inr (slot, e) ↦
        rw (e, accepted_public)
          (elim (Bool-cases (slot.listener_id == listener_id)) [
            | inr stale ↦ rw stale ignored
            | inl own ↦ rw own (elim (SlotState-cases slot.state) [
              | inr (i, g, t, st) ↦ rw st ignored
              | inl (session, st) ↦ rw st (admit_cases session slot e (ground arith) st)
            ])
          ])
  ]

pub accepted_public-Inv :
    (env : Env) (self self' : Registry) (listener_id port socket at : ℕ)
    → Inv self
    → accepted_public env self listener_id port socket at ≡ some self'
    → Inv self'
accepted_public-Inv env self self' listener_id port socket at v =
    accepted_public_cases (λ r. r ≡ some self' → Inv self') env self listener_id port socket at
      (λ e. subst Inv (some_inj e) v) (λ e. absurd (cc))
      λ session id a free e.
        subst Inv (some_inj e)
          (open_request-Inv env self session socket at id v (holder self session port v a))
