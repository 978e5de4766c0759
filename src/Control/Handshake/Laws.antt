-- ===== src/Control/Handshake/Laws.antt =====
-- src/server/control.rs: what a successful handshake says of the client.
use tunlet.Protocol.Frame.{Fault}
use tunlet.Prelude.{
  sym, ap₂, subst, ◌∙◌, ℕ, ◌≡◌, refl, arith, Option, some, List, ◌++◌, [], inl, inr, Bool-cases,
}
use tunlet.Prelude.Bytes.{IsBytes}
use tunlet.Error.{AppError, Result, ok, lift, >>=-eq-ok}
use tunlet.Protocol.Enums.{Kind, MessageType, Mac, Nonce, SessionId}
use tunlet.Protocol.ControlHello
use tunlet.Protocol.ControlHello.{ControlHello}
use tunlet.Protocol.ControlHello.Laws as HelloLaws
use tunlet.Protocol.ControlChallenge
use tunlet.Protocol.ControlChallenge.{ControlChallenge}
use tunlet.Protocol.Frame.{write_frame}
use tunlet.Auth.{mac, verify, control_transcript, label_control_client}
use tunlet.Auth.Injective.{verify_iff_mac}
use tunlet.Protocol.Exchange.{framed, random, expect}
use tunlet.Protocol.Exchange.Laws.{expect-Reads, random_of_ok, lift_of_ok, write_frame_of_ok}
use tunlet.Control.Handshake.{Authenticated, challenge_for, check_proof, handshake}

module _ (hmac : List ℕ → List ℕ → Mac) (key : List ℕ) where
  abbrev pub challenge_frame : List ℕ → Nonce → SessionId → List ℕ
  challenge_frame transcript nonce session_id =
      framed MessageType.control_challenge
        (ControlChallenge.encode (challenge_for hmac key transcript nonce session_id))

  check_proof_of_ok :
      (a b : Authenticated) (reader rest : List ℕ)
      → IsBytes reader
      → check_proof hmac key a reader ≡ ok (b, rest)
      → (a ≡ b)
        × (reader
            ≡ framed MessageType.control_proof (mac hmac key label_control_client a.transcript)
              ++ rest)
  unfolding check_proof
  check_proof_of_ok a b reader rest bytes e =
      >>=-eq-ok (expect Kind.control MessageType.control_proof reader) _ e λ (f, rest') e1 k1.
        let split =
          (expect-Reads Kind.control MessageType.control_proof reader f rest' bytes e1).split in
        elim (Bool-cases (verify hmac key label_control_client a.transcript f.payload)) [
          | inr wrong ↦ absurd (ground arith)
          | inl right ↦
              let own =
                (verify_iff_mac hmac key label_control_client a.transcript f.payload).0 right in
              (ground arith, ground (arith, split, own))
        ]

  -- What an authenticated client has sent.
  pub record Proves (nonce session : Option (List ℕ)) (reader : List ℕ) (a : Authenticated)
      (rest written : List ℕ) : Type 0 where
    pub server_nonce : Nonce
    pub nonce_drawn : nonce ≡ some server_nonce
    pub session_drawn : session ≡ some a.session_id
    pub valid : ControlHello.IsValid a.hello
    pub transcript : a.transcript ≡ control_transcript a.hello server_nonce a.session_id
    pub sent :
        reader
        ≡ framed MessageType.control_hello (ControlHello.encode a.hello)
          ++ (framed MessageType.control_proof (mac hmac key label_control_client a.transcript)
              ++ rest)
    pub answered : written ≡ challenge_frame a.transcript server_nonce a.session_id

  outcome_inj :
      {x y : Authenticated × List ℕ × List ℕ}
      → ◌≡◌ {A = Result AppError (Authenticated × List ℕ × List ℕ)} (ok x) (ok y)
      → x ≡ y
  outcome_inj e = cc

  -- For every function in the place of the HMAC, a control handshake on a stream of bytes that
  -- succeeds, whatever its write may have done, drew both random values; the stream is the frame
  -- of the valid CONTROL_HELLO that it returns, the CONTROL_PROOF that carries the MAC of exactly
  -- this transcript under the client label, and what is left to read; and the CONTROL_CHALLENGE
  -- with both random values and the MAC under the server label was written.
  pub handshake_sound :
      (fault : Fault) (nonce : Option Nonce) (session : Option SessionId)
      (reader rest written : List ℕ) (a : Authenticated)
      → IsBytes reader
      → handshake hmac key fault nonce session reader ≡ ok (a, rest, written)
      → Proves nonce session reader a rest written
  unfolding handshake
  handshake_sound fault nonce session reader rest written a bytes e =
      >>=-eq-ok (expect Kind.control MessageType.control_hello reader) _ e λ (f, rest1) e1 k1.
        >>=-eq-ok (lift (ControlHello.decode f.payload)) _ k1 λ hello e2 k2.
          >>=-eq-ok (random nonce) _ k2 λ n e3 k3. >>=-eq-ok (random session) _ k3 λ i e4 k4.
            >>=-eq-ok (write_frame fault [] _) _ k4 λ w e5 k5.
              >>=-eq-ok (check_proof hmac key _ rest1) _ k5 λ (b, rest2) e6 k6.
                let r1 =
                  expect-Reads Kind.control MessageType.control_hello reader f rest1 bytes e1 in
                let (same, valid) =
                  HelloLaws.encode-decode_control_hello f.payload hello r1.payload_bytes
                    (lift_of_ok (ControlHello.decode f.payload) hello e2) in
                let a0 : Authenticated = record {
                  hello = hello;
                  session_id = i;
                  transcript = control_transcript hello n i;
                } in
                let (own, split2) = check_proof_of_ok a0 b rest1 rest2 r1.rest_bytes e6 in
                subst
                  (λ (x : Authenticated × List ℕ × List ℕ). Proves nonce session reader x.0 x.1 x.2)
                  (outcome_inj k6)
                  (subst (λ x. Proves nonce session reader x rest2 w) own
                    (record {
                      server_nonce = n;
                      nonce_drawn = random_of_ok nonce n e3;
                      session_drawn = random_of_ok session i e4;
                      valid = valid;
                      transcript = refl;
                      sent =
                          r1.split
                          ∙ ap₂ (λ p r. framed MessageType.control_hello p ++ r) (sym same) split2;
                      answered = write_frame_of_ok fault [] _ w e5;
                    }))
