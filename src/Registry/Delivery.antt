-- ===== src/Registry/Delivery.antt =====
-- src/server/registry.rs: what `claim` and `accepted_public` promise to their callers.
use tunlet.Prelude.{
  ℕ, ◌≡◌, ◌≢◌, refl, arith, ◌<◌, ◌==◌, leb, true, false, not, ◌||◌, none, some, Option, ◌⊎◌, inl,
  inr, Bool-cases, Option-cases,
}
use tunlet.Prelude.Maps.{lookup, remove, lookup-remove}
use tunlet.Error.{request_unavailable}
use tunlet.Protocol.Enums.{SessionId, RequestId}
use tunlet.Registry.State.{
  Registry, Env, SessionRef, PendingRequest, RequestKey, ClaimOutcome, delivered, rejected,
  key_discrete, session_of, slot_at, request_of,
}
use tunlet.Registry.Consistent.{SlotState-cases}
use tunlet.Registry.Slots.{is_some}
use tunlet.Registry.Public.{
  claim, accepted_public, exhausted, admit, after_draw, drawn, failed, Draw,
}
use tunlet.Registry.Invariant.Public.{draw_ends}

-- A request that a data connection may claim.
pub record Claimable (env : Env) (self : Registry) (id : SessionId) (request_id : RequestId)
    : Type 0 where
  pub session : SessionRef
  pub entry : PendingRequest
  pub known : session_of self id ≡ some session
  pub waiting : request_of self (id, request_id) ≡ some entry
  pub current : entry.generation ≡ session.generation
  pub in_time : env.now < entry.deadline

taken_away :
    (self : Registry) (key : RequestKey)
    → lookup key_discrete key (remove key_discrete key self.pending) ≡ none
taken_away self key = ground (arith, lookup-remove key_discrete key key self.pending)

module _ (env : Env) (self : Registry) (id : SessionId) (request_id : RequestId) (socket : ℕ) where
  pub claim_cases {ℓ} :
      (P : Registry × ClaimOutcome → Type ℓ)
      → P (self, rejected request_unavailable (some socket))
      → ((c : Claimable env self id request_id) (self' : Registry) (outcome : ClaimOutcome)
          → request_of self' (id, request_id) ≡ none
          → (((outcome ≡ delivered) × (env.receives c.entry.sender ≡ true))
              ⊎ ((outcome ≡ rejected request_unavailable (some socket))
                  × (env.receives c.entry.sender ≡ false)))
          → P (self', outcome))
      → P (claim env self id request_id socket)
  unfolding claim
  claim_cases P refused taken = elim (Option-cases (session_of self id)) [
    | inl e ↦ rw (e, claim) refused
    | inr (session, e) ↦
        rw (e, claim)
          (elim (Option-cases (request_of self (id, request_id))) [
            | inl e' ↦ rw e' refused
            | inr (entry, e') ↦
                rw e'
                  (elim (Bool-cases
                    (not (entry.generation == session.generation) || leb entry.deadline env.now)) [
                      | inl stale ↦ rw stale refused
                      | inr good ↦
                          let c : Claimable env self id request_id = record {
                            session = session;
                            entry = entry;
                            known = e;
                            waiting = e';
                            current = ground arith;
                            in_time = ground arith;
                          } in
                          let gone = taken_away self (id, request_id) in
                          rw good (elim (Bool-cases (env.receives entry.sender)) [
                            | inl there ↦ rw there (taken c _ _ gone (inl (refl, there)))
                            | inr away ↦ rw away (taken c _ _ gone (inr (refl, away)))
                          ])
                    ])
          ])
  ]

  -- A claim is delivered only for a registered session with that request pending, of the
  -- generation of the session and before its deadline; and afterwards the request is no longer
  -- pending.
  pub claim_delivered :
      (claim env self id request_id socket).1 ≡ delivered
      → Claimable env self id request_id
        × (request_of (claim env self id request_id socket).0 (id, request_id) ≡ none)
  claim_delivered =
      claim_cases
        (λ r.
          r.1 ≡ delivered
          → Claimable env self id request_id × (request_of r.0 (id, request_id) ≡ none))
        (λ h. absurd (cc)) (λ c self' outcome gone e h. (c, gone))

  -- A claim that is not delivered is answered with REQUEST_UNAVAILABLE and its socket, and leaves
  -- the state unchanged unless the request was claimable and the task that waited for it is gone.
  pub claim_rejected :
      (claim env self id request_id socket).1 ≢ delivered
      → ((claim env self id request_id socket).1 ≡ rejected request_unavailable (some socket))
        × (((claim env self id request_id socket).0 ≡ self)
            ⊎ ((c : Claimable env self id request_id) × (env.receives c.entry.sender ≡ false)))
  claim_rejected =
      claim_cases
        (λ r.
          r.1 ≢ delivered
          → (r.1 ≡ rejected request_unavailable (some socket))
            × ((r.0 ≡ self)
                ⊎ ((c : Claimable env self id request_id) × (env.receives c.entry.sender ≡ false))))
        (λ h. (refl, inl refl))
        λ c self' outcome gone e h. elim e [
          | inl (good, there) ↦ absurd (h good)
          | inr (bad, away) ↦ (bad, inr (c, away))
        ]

  -- A claim of a claimable request whose waiting task is there is delivered.
  pub claim_succeeds :
      (c : Claimable env self id request_id)
      → env.receives c.entry.sender ≡ true
      → (claim env self id request_id socket).1 ≡ delivered
  unfolding claim
  claim_succeeds c there = ground (arith, c.known, c.waiting, c.current, c.in_time)

-- When a claim of a request was delivered, every later claim of that request from the state that
-- it left is rejected with its own socket and changes nothing, whatever the time.
pub claim_once :
    (env env' : Env) (self : Registry) (id : SessionId) (request_id : RequestId)
    (socket socket' : ℕ)
    → (claim env self id request_id socket).1 ≡ delivered
    → claim env' (claim env self id request_id socket).0 id request_id socket'
      ≡ ((claim env self id request_id socket).0, rejected request_unavailable (some socket'))
claim_once env env' self id request_id socket socket' first =
    let self' = (claim env self id request_id socket).0 in
    let (c, gone) = claim_delivered env self id request_id socket first in
    claim_cases env' self' id request_id socket'
      (λ r. r ≡ (self', rejected request_unavailable (some socket'))) refl
      λ c' self'' outcome gone' e. absurd (clash gone c'.waiting)
  where
    clash : {o : Option PendingRequest} {e : PendingRequest} → o ≡ none → o ≡ some e → ⊥
    clash p q = absurd (cc)

after_draw_returns :
    (env : Env) (self : Registry) (session : SessionRef) (socket at : ℕ) (d : Draw)
    → d ≢ exhausted
    → after_draw env self session socket at d ≢ none
after_draw_returns env self session socket at (drawn id) h = λ e. absurd (cc)
after_draw_returns env self session socket at failed h = λ e. absurd (cc)
after_draw_returns env self session socket at exhausted h = absurd (h refl)

-- The handling of a public connection returns if, among the draws that are looked at, the source
-- of randomness fails once or gives once an identifier that is pending for no session.
pub accepted_public_returns :
    (env : Env) (self : Registry) (listener_id port socket at n : ℕ)
    → n < env.draws
    → ((env.random n ≡ none)
        ⊎ ((id : RequestId) × (env.random n ≡ some id)
            × ((session_id : SessionId) → request_of self (session_id, id) ≡ none)))
    → accepted_public env self listener_id port socket at ≢ none
unfolding accepted_public admit
accepted_public_returns env self listener_id port socket at n enough free =
    elim (Option-cases (slot_at self port)) [
      | inl none_there ↦ λ e. ground arith
      | inr (slot, found) ↦ elim (SlotState-cases slot.state) [
        | inr (i, g, t, st) ↦ λ e. ground arith
        | inl (session, st) ↦
            let ends = after_draw_returns env self session socket at _ (
              draw_ends env.draws n env.random
                (λ id. is_some (request_of self (session.session_id, id))) enough
                (elim free [
                  | inl out ↦ inl out
                  | inr (id, drawn_id, unused) ↦
                      inr (id, drawn_id, rw (unused session.session_id) refl)
                ])) in
            λ e. ground arith
      ]
    ]
