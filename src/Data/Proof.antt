-- ===== src/Data/Proof.antt =====
-- src/server/data.rs: the proof of a data connection and the claim behind it.
use tunlet.Protocol.Frame.{Fault, Faults}
use tunlet.Prelude.{
  ℕ, ◌≡◌, refl, ap, ◌∙◌, arith, true, false, none, some, List, ◌++◌, inl, inr, Bool-cases,
}
use tunlet.Prelude.Bytes.{IsBytes}
use tunlet.Error.{Result-cases}
use tunlet.Protocol.Enums.{MessageType, Mac}
use tunlet.Protocol.DataHello.{DataHello}
use tunlet.Protocol.Frame.{Frame, require_type, read_frame, type_eq}
use tunlet.Protocol.Exchange.{framed}
use tunlet.Protocol.Exchange.Laws.{reads}
use tunlet.Auth.{mac, verify, label_data_client}
use tunlet.Auth.Injective.{verify_iff_mac}
use tunlet.Registry.Public.{claim}
use tunlet.Registry.Delivery.{Claimable, claim_delivered}
use tunlet.Registry.Actor.{handle_command}
use tunlet.Protocol.Enums.{SessionId, RequestId}
use tunlet.Registry.State.{Registry, request_of, Env, ClaimOutcome, delivered, rejected}
use tunlet.Registry.Handle as RegistryHandle
use tunlet.Registry.Handle.{Actor}
use tunlet.Data.{Outcome, handed_over, reject, unexpected, settle, check_proof}

pub expected_type :
    (f : Frame) (ty : MessageType) → unexpected f ty ≡ false → type_eq f.ty ty ≡ true
unfolding unexpected require_type
expected_type f ty e = ground arith

-- A claim that was delivered, and what `settle` makes of it.
settle_delivered :
    (fault : Fault) (written : List ℕ) (actor : Actor) (claimed : ClaimOutcome)
    → (settle fault written (actor, claimed)).end ≡ handed_over
    → (claimed ≡ delivered)
      × (settle fault written (actor, claimed)
          ≡ record { actor = actor; written = written; end = handed_over })
unfolding settle reject
settle_delivered fault written actor delivered e = (refl, refl)
settle_delivered fault written actor (rejected code (some socket)) e = absurd (cc)
settle_delivered fault written actor (rejected code none) e = absurd (cc)

module _ (hmac : List ℕ → List ℕ → Mac) (key : List ℕ) (faults : Faults) where
  -- What is known of a proof that was accepted.
  pub record Proves (env : Env) (actor : Actor) (hello : DataHello) (t written reader : List ℕ)
      (socket : ℕ) (outcome : Outcome) : Type 0 where
    pub rest : List ℕ
    pub heard : reader ≡ framed MessageType.data_proof (mac hmac key label_data_client t) ++ rest
    pub claimed :
        (RegistryHandle.claim env actor hello.session_id hello.request_id socket).1 ≡ delivered
    pub result : outcome ≡ record {
      actor = (RegistryHandle.claim env actor hello.session_id hello.request_id socket).0;
      written = written;
      end = handed_over;
    }

  pub check_proof-Proves :
      (env : Env) (actor : Actor) (hello : DataHello) (t written reader : List ℕ) (socket : ℕ)
      → IsBytes reader
      → (check_proof hmac key faults env actor hello t written reader socket).end ≡ handed_over
      → Proves env actor hello t written reader socket
          (check_proof hmac key faults env actor hello t written reader socket)
  unfolding check_proof reject
  check_proof-Proves env actor hello t written reader socket bytes =
      elim (Result-cases (read_frame reader)) [
        | inr (error, e) ↦ rw (check_proof, e) (λ h. absurd (cc))
        | inl ((f, rest), e) ↦ elim (Bool-cases (unexpected f MessageType.data_proof)) [
          | inl e1 ↦ rw (check_proof, e, e1) (λ h. absurd (cc))
          | inr e1 ↦ elim (Bool-cases (verify hmac key label_data_client t f.payload)) [
            | inr e2 ↦ rw (check_proof, e, e1, e2) (λ h. absurd (cc))
            | inl e2 ↦
                let r =
                  reads MessageType.data_proof reader f rest bytes e
                    (expected_type f MessageType.data_proof e1) in
                let own = (verify_iff_mac hmac key label_data_client t f.payload).0 e2 in
                let c = RegistryHandle.claim env actor hello.session_id hello.request_id socket in
                rw (check_proof, e, e1, e2)
                  (λ h.
                    let (taken, same) = settle_delivered (faults 1) written c.0 c.1 h in
                    record {
                      rest = rest;
                      heard = r.split ∙ ap (λ p. framed MessageType.data_proof p ++ rest) own;
                      claimed = taken;
                      result = same;
                    })
          ]
        ]
      ]

-- A claim that is delivered finds the actor running and the request claimable, and takes the
-- request out of the actor's table.
pub handle_claim_delivered :
    (env : Env) (actor : Actor) (id : SessionId) (request_id : RequestId) (socket : ℕ)
    → (RegistryHandle.claim env actor id request_id socket).1 ≡ delivered
    → (self self' : Registry) × (actor ≡ some self)
      × Claimable env self id request_id
      × ((RegistryHandle.claim env actor id request_id socket).0 ≡ some self')
      × (request_of self' (id, request_id) ≡ none)
unfolding RegistryHandle.claim RegistryHandle.ask handle_command
handle_claim_delivered env none id request_id socket e = absurd (cc)
handle_claim_delivered env (some self) id request_id socket e =
    let (c, gone) = claim_delivered env self id request_id socket e in
    (self, (claim env self id request_id socket).0, refl, c, refl, gone)
