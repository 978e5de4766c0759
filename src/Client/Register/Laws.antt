-- ===== src/Client/Register/Laws.antt =====
-- src/client/control.rs: what a registered client knows of the server.
use tunlet.Protocol.Exchange.Laws.{write_preamble_of_ok}
use tunlet.Protocol.Frame.{Faults}
use tunlet.Prelude.{
  ℕ, ◌≡◌, ◌≢◌, refl, sym, ap, ap₂, subst, ◌∙◌, arith, Option, some, List, ◌++◌, [], append_assoc,
  inl, inr, Bool-cases,
}
use tunlet.Prelude.Bytes.{IsBytes}
use tunlet.Error.{Result, ok, err, lift, >>=-eq-ok}
use tunlet.Protocol.Enums.{Kind, MessageType, Mac, Nonce, SessionId, InstanceId, Mode}
use tunlet.Protocol.Preamble.{encode_preamble}
use tunlet.Protocol.ControlHello
use tunlet.Protocol.ControlHello.{ControlHello}
use tunlet.Protocol.ControlChallenge
use tunlet.Protocol.ControlChallenge.{ControlChallenge}
use tunlet.Protocol.Registered
use tunlet.Protocol.Registered.{Registered}
use tunlet.Protocol.Frame.{write_preamble, write_frame}
use tunlet.Protocol.Exchange.{framed, random, answer, map_err}
use tunlet.Protocol.Exchange.Laws.{answer-Reads, random_of_ok, lift_of_ok, write_frame_of_ok}
use tunlet.Auth.{
  mac, verify, control_transcript, ready_transcript, label_control_server, label_control_client,
  label_control_ready,
}
use tunlet.Auth.Injective.{verify_iff_mac}
use tunlet.Client.Register.{
  Failure, fatal, Session, classify, transport, check_challenge, check_registered, register,
}

abbrev pub hello_of : InstanceId → Nonce → Mode → ℕ → ControlHello
hello_of instance_id nonce mode requested_port = record {
  instance_id = instance_id;
  client_nonce = nonce;
  mode = mode;
  requested_port = requested_port;
}

pub map_err_of_ok :
    {E F A : Type 0} (f : E → F) (r : Result E A) (a : A) → map_err f r ≡ ok a → r ≡ ok a
map_err_of_ok f (ok x) a e = ground arith
map_err_of_ok f (err x) a e = absurd (cc)

module _ (hmac : List ℕ → List ℕ → Mac) (key : List ℕ) where
  -- The two frames of a server that knows the key.
  abbrev pub challenge_from : List ℕ → Nonce → SessionId → ControlChallenge
  challenge_from transcript server_nonce session_id = record {
    server_nonce = server_nonce;
    session_id = session_id;
    server_mac = mac hmac key label_control_server transcript;
  }

  abbrev pub registered_from : List ℕ → ℕ → ℕ → Registered
  registered_from transcript port max = record {
    assigned_port = port;
    max_connections = max;
    ready_mac = mac hmac key label_control_ready (ready_transcript transcript port max);
  }

  check_challenge_of_ok :
      (t : List ℕ) (c : ControlChallenge)
      → check_challenge hmac key t c ≡ ok tt
      → c ≡ challenge_from t c.server_nonce c.session_id
  unfolding check_challenge
  check_challenge_of_ok t c e =
      elim (Bool-cases (verify hmac key label_control_server t c.server_mac)) [
        | inr wrong ↦ absurd (ground arith)
        | inl right ↦
            let own = (verify_iff_mac hmac key label_control_server t c.server_mac).0 right in
            ground arith
      ]

  check_registered_of_ok :
      (t : List ℕ) (requested : ℕ) (r : Registered)
      → check_registered hmac key t requested r ≡ ok tt
      → (r ≡ registered_from t r.assigned_port r.max_connections)
        × (requested ≢ 0 → r.assigned_port ≡ requested)
  unfolding check_registered
  check_registered_of_ok t requested r e =
      let ready = ready_transcript t r.assigned_port r.max_connections in
      elim (Bool-cases (verify hmac key label_control_ready ready r.ready_mac)) [
        | inr wrong ↦ absurd (ground arith)
        | inl right ↦
            let own = (verify_iff_mac hmac key label_control_ready ready r.ready_mac).0 right in
            (ground arith, λ asked. ground arith)
      ]

  pub record Confirms (nonce : Option Nonce) (instance_id : InstanceId) (mode : Mode)
      (requested_port : ℕ) (reader : List ℕ) (session : Session) (rest written : List ℕ)
      : Type 0 where
    pub client_nonce : Nonce
    pub server_nonce : Nonce
    pub drawn : nonce ≡ some client_nonce
    pub transcript : List ℕ
    pub transcript_def :
        transcript
        ≡ control_transcript
            (hello_of instance_id client_nonce mode requested_port)
            server_nonce
            session.session_id
    pub heard :
        reader
        ≡ framed MessageType.control_challenge
            (ControlChallenge.encode (challenge_from transcript server_nonce session.session_id))
          ++ (framed MessageType.registered (
                Registered.encode
                  (registered_from transcript session.assigned_port session.max_connections))
              ++ rest)
    pub valid :
        Registered.IsValid
          (registered_from transcript session.assigned_port session.max_connections)
    pub said :
        written
        ≡ encode_preamble Kind.control
          ++ (framed MessageType.control_hello
                (ControlHello.encode (hello_of instance_id client_nonce mode requested_port))
              ++ framed MessageType.control_proof (mac hmac key label_control_client transcript))
    pub asked : requested_port ≢ 0 → session.assigned_port ≡ requested_port

  outcome_inj :
      {x y : Session × List ℕ × List ℕ}
      → ◌≡◌ {A = Result Failure (Session × List ℕ × List ℕ)} (ok x) (ok y)
      → x ≡ y
  outcome_inj e = cc

  written_both :
      (hello proof w w' : List ℕ)
      → w ≡ encode_preamble Kind.control ++ hello
      → w' ≡ w ++ proof
      → w' ≡ encode_preamble Kind.control ++ (hello ++ proof)
  written_both hello proof w w' e e' =
      e' ∙ ap (λ x. x ++ proof) e ∙ append_assoc (encode_preamble Kind.control) hello proof

  -- For every function in the place of the HMAC, a registration of the client on a stream of bytes
  -- that succeeds, whatever its writes may have done, drew its nonce; the stream is the frame of
  -- the CONTROL_CHALLENGE with the MAC of the transcript under the server label, the frame of a
  -- valid REGISTERED with the MAC, under the ready label, of that transcript with the port and the
  -- maximum of the session, and what is left to read; the preamble, the CONTROL_HELLO and the MAC
  -- of the transcript under the client label were written; and the port is the one asked for, if
  -- any.
  pub register_sound :
      (faults : Faults) (nonce : Option Nonce) (instance_id : InstanceId) (mode : Mode)
      (requested_port : ℕ) (reader rest written : List ℕ) (session : Session)
      → IsBytes reader
      → register hmac key faults nonce instance_id mode requested_port reader
        ≡ ok (session, rest, written)
      → Confirms nonce instance_id mode requested_port reader session rest written
  unfolding register
  register_sound faults nonce instance_id mode requested_port reader rest written session bytes e =
      >>=-eq-ok (map_err transport (write_preamble (faults 0) [] Kind.control)) _ e
        λ preamble e0 k0. >>=-eq-ok (map_err fatal (random nonce)) _ k0 λ n e1 k1.
          >>=-eq-ok (map_err transport (write_frame (faults 1) preamble _)) _ k1 λ w e2 k2.
            >>=-eq-ok
              (answer transport fatal classify Kind.control MessageType.control_challenge reader) _
              k2
              λ (f, rest1) e3 k3.
                >>=-eq-ok (map_err fatal (lift (ControlChallenge.decode f.payload))) _ k3 λ c e4 k4.
                  let hello = hello_of instance_id n mode requested_port in
                  let t = control_transcript hello c.server_nonce c.session_id in
                  >>=-eq-ok (check_challenge hmac key t c) _ k4 λ u e5 k5.
                    >>=-eq-ok (map_err transport (write_frame (faults 2) w _)) _ k5 λ w' e6 k6.
                      >>=-eq-ok
                        (answer transport fatal classify Kind.control MessageType.registered rest1)
                        _ k6
                        λ (f', rest2) e7 k7.
                          >>=-eq-ok (map_err fatal (lift (Registered.decode f'.payload))) _ k7
                            λ r e8 k8.
                              >>=-eq-ok (check_registered hmac key t requested_port r) _ k8
                                λ u' e9 k9.
                                  let r1 =
                                    answer-Reads transport fatal classify Kind.control
                                      MessageType.control_challenge reader f rest1 bytes e3 in
                                  let r2 =
                                    answer-Reads transport fatal classify Kind.control
                                      MessageType.registered rest1 f' rest2 r1.rest_bytes e7 in
                                  let (c_bytes, c_valid) =
                                    ControlChallenge.encode-decode_control_challenge f.payload c
                                      (lift_of_ok _ c (map_err_of_ok fatal _ c e4)) in
                                  let (r_bytes, r_valid) =
                                    Registered.encode-decode_registered f'.payload r
                                      r2.payload_bytes
                                      (lift_of_ok _ r (map_err_of_ok fatal _ r e8)) in
                                  let c_own = check_challenge_of_ok t c e5 in
                                  let (r_own, same) =
                                    check_registered_of_ok t requested_port r e9 in
                                  subst
                                    (λ (x : Session × List ℕ × List ℕ).
                                      Confirms nonce instance_id mode requested_port reader x.0 x.1
                                        x.2)
                                    (outcome_inj k9)
                                    (record {
                                      client_nonce = n;
                                      server_nonce = c.server_nonce;
                                      drawn = random_of_ok nonce n (map_err_of_ok fatal _ n e1);
                                      transcript = t;
                                      transcript_def = refl;
                                      heard =
                                          r1.split
                                          ∙ ap₂ (λ p q. framed MessageType.control_challenge p ++ q)
                                              (sym c_bytes ∙ ap ControlChallenge.encode c_own)
                                              (r2.split
                                                ∙ ap (λ p. framed MessageType.registered p ++ rest2)
                                                    (sym r_bytes ∙ ap Registered.encode r_own));
                                      valid = subst Registered.IsValid r_own r_valid;
                                      said =
                                          written_both _ _ w w'
                                            (write_frame_of_ok (faults 1) preamble _ w
                                                (map_err_of_ok transport _ w e2)
                                              ∙ ap
                                                  (λ p.
                                                    p
                                                    ++ framed MessageType.control_hello
                                                        (ControlHello.encode hello))
                                                  (write_preamble_of_ok (faults 0) [] Kind.control
                                                    preamble
                                                    (map_err_of_ok transport _ preamble e0)))
                                            (write_frame_of_ok (faults 2) w _ w'
                                              (map_err_of_ok transport _ w' e6));
                                      asked = same;
                                    })
