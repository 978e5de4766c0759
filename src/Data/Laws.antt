-- ===== src/Data/Laws.antt =====
-- src/server/data.rs: the data connections that are handed over.
use tunlet.Protocol.Frame.{Faults}
use tunlet.Prelude.{
  ℕ, ◌≡◌, sym, ap, ◌∙◌, true, Option, none, some, List, ◌++◌, [], inl, inr, Bool-cases,
}
use tunlet.Prelude.Bytes.{IsBytes}
use tunlet.Error.{Result-cases}
use tunlet.Protocol.Enums.{MessageType, Mac, Nonce}
use tunlet.Protocol.DataHello
use tunlet.Protocol.DataHello.{DataHello}
use tunlet.Protocol.DataChallenge
use tunlet.Protocol.Frame.{read_frame, write_frame}
use tunlet.Protocol.Exchange.{random, framed}
use tunlet.Protocol.Exchange.Laws.{reads, random_of_ok, write_frame_of_ok}
use tunlet.Auth.{mac, data_transcript, label_data_client}
use tunlet.Registry.Delivery.{Claimable}
use tunlet.Registry.State.{Registry, request_of, Env}
use tunlet.Registry.Handle as RegistryHandle
use tunlet.Registry.Handle.{Actor}
use tunlet.Data.{Outcome, handed_over, reject, unexpected, challenge_for, challenge, handshake}
use tunlet.Data.Proof.{expected_type, check_proof-Proves, handle_claim_delivered}

module _ (hmac : List ℕ → List ℕ → Mac) (key : List ℕ) (faults : Faults) (env env' : Env)
    (between : Actor → Actor) (actor : Actor) (nonce : Option Nonce) (reader : List ℕ)
    (socket : ℕ) where
  -- A data connection that was handed over.
  pub record Delivers (outcome : Outcome) : Type 0 where
    pub hello : DataHello
    pub valid : DataHello.IsValid hello
    pub server_nonce : Nonce
    pub drawn : nonce ≡ some server_nonce
    pub rest : List ℕ
    pub heard :
        reader
        ≡ framed MessageType.data_hello (DataHello.encode hello)
          ++ (framed MessageType.data_proof
                (mac hmac key label_data_client (data_transcript hello server_nonce))
              ++ rest)
    pub present : (RegistryHandle.peek env actor hello.session_id hello.request_id).1 ≡ true
    pub said :
        outcome.written
        ≡ framed MessageType.data_challenge (
            DataChallenge.encode
              (challenge_for hmac key (data_transcript hello server_nonce) server_nonce))
    pub before : Registry
    pub then_running :
        between (RegistryHandle.peek env actor hello.session_id hello.request_id).0 ≡ some before
    pub claimable : Claimable env' before hello.session_id hello.request_id
    pub after : Registry
    pub still_running : outcome.actor ≡ some after
    pub taken : request_of after (hello.session_id, hello.request_id) ≡ none

  -- Behind the look at the request, for the hello that was read.
  challenge-Delivers :
      (hello : DataHello) (rest : List ℕ)
      → IsBytes rest
      → DataHello.IsValid hello
      → reader ≡ framed MessageType.data_hello (DataHello.encode hello) ++ rest
      → (RegistryHandle.peek env actor hello.session_id hello.request_id).1 ≡ true
      → (challenge hmac key faults between env'
          (RegistryHandle.peek env actor hello.session_id hello.request_id).0
          nonce
          hello
          rest
          socket).end
        ≡ handed_over
      → Delivers (
          challenge hmac key faults between env'
            (RegistryHandle.peek env actor hello.session_id hello.request_id).0
            nonce
            hello
            rest
            socket)
  unfolding challenge
  challenge-Delivers hello rest bytes v split there =
      let actor' = (RegistryHandle.peek env actor hello.session_id hello.request_id).0 in
      elim (Result-cases (random nonce)) [
        | inr (error, e) ↦ rw (challenge, e) (λ h. absurd (cc))
        | inl (n, e) ↦
            let t = data_transcript hello n in
            elim (Result-cases (
              write_frame (faults 0) [] (record {
                ty = MessageType.data_challenge;
                payload = DataChallenge.encode (challenge_for hmac key t n);
              }))) [
                | inr (error, e1) ↦ rw (challenge, e, e1) (λ h. absurd (cc))
                | inl (w, e1) ↦
                    rw (challenge, e, e1)
                      (λ h.
                        let p =
                          check_proof-Proves hmac key faults env' (between actor') hello t w rest
                            socket bytes h in
                        let (before, after, running, c, still, gone) =
                          handle_claim_delivered env' (between actor') hello.session_id
                            hello.request_id socket p.claimed in
                        record {
                          hello = hello;
                          valid = v;
                          server_nonce = n;
                          drawn = random_of_ok nonce n e;
                          rest = p.rest;
                          heard =
                              split
                              ∙ ap
                                  (λ r. framed MessageType.data_hello (DataHello.encode hello) ++ r)
                                  p.heard;
                          present = there;
                          said =
                              ap (λ (o : Outcome). o.written) p.result
                              ∙ write_frame_of_ok (faults 0) [] _ w e1;
                          before = before;
                          then_running = running;
                          claimable = c;
                          after = after;
                          still_running = ap (λ (o : Outcome). o.actor) p.result ∙ still;
                          taken = gone;
                        })
              ]
      ]

  -- A data connection on a stream of bytes that is handed over, whatever its writes may have done,
  -- drew its nonce; the stream is the frame of a valid DATA_HELLO, the DATA_PROOF with the MAC of
  -- exactly this transcript under the client label, and what is left to read; the request was
  -- pending when it was looked at; the DATA_CHALLENGE with the nonce and the MAC under the server
  -- label was written, and nothing else; and when the proof had been read, the actor was running,
  -- the request was claimable, and the claim has taken it from the table.
  pub handshake-Delivers :
      IsBytes reader
      → (handshake hmac key faults env between env' actor nonce reader socket).end ≡ handed_over
      → Delivers (handshake hmac key faults env between env' actor nonce reader socket)
  unfolding handshake reject
  handshake-Delivers bytes = elim (Result-cases (read_frame reader)) [
    | inr (error, e) ↦ rw (handshake, e) (λ h. absurd (cc))
    | inl ((f, rest), e) ↦ elim (Bool-cases (unexpected f MessageType.data_hello)) [
      | inl e1 ↦ rw (handshake, e, e1) (λ h. absurd (cc))
      | inr e1 ↦ elim (Result-cases (DataHello.decode f.payload)) [
        | inr (error, e2) ↦ rw (handshake, e, e1, e2) (λ h. absurd (cc))
        | inl (hello, e2) ↦
            elim (Bool-cases (RegistryHandle.peek env actor hello.session_id hello.request_id).1) [
              | inr e3 ↦ rw (handshake, e, e1, e2, e3) (λ h. absurd (cc))
              | inl e3 ↦
                  let r =
                    reads MessageType.data_hello reader f rest bytes e
                      (expected_type f MessageType.data_hello e1) in
                  let (own, v) = DataHello.encode-decode_data_hello f.payload hello e2 in
                  rw (handshake, e, e1, e2, e3)
                    (challenge-Delivers hello rest r.rest_bytes v
                      (r.split ∙ ap (λ p. framed MessageType.data_hello p ++ rest) (sym own)) e3)
            ]
      ]
    ]
  ]
