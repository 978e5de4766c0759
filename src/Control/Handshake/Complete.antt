-- ===== src/Control/Handshake/Complete.antt =====
-- src/server/control.rs: the handshake of a client that knows the key.
use tunlet.Prelude.{none}
use tunlet.Prelude.{ℕ, ◌≡◌, refl, arith, true, some, List, ◌++◌, length, []}
use tunlet.Error.{ok}
use tunlet.Protocol.Enums.{Kind, MessageType, Mac, Nonce, SessionId, payload_len, is_control}
use tunlet.Protocol.ControlHello
use tunlet.Protocol.ControlHello.{ControlHello}
use tunlet.Protocol.ControlHello.Laws as HelloLaws
use tunlet.Protocol.ControlChallenge
use tunlet.Protocol.ControlChallenge.{ControlChallenge}
use tunlet.Protocol.Frame.{require_kind, write_frame}
use tunlet.Auth.{mac, verify, control_transcript, label_control_client}
use tunlet.Auth.Injective.{verify_iff_mac}
use tunlet.Protocol.Exchange.{framed}
use tunlet.Protocol.Exchange.Laws.{Sendable, expect-encode}
use tunlet.Control.Handshake.{Authenticated, challenge_for, check_proof, handshake}
use tunlet.Control.Handshake.Laws.{challenge_frame}

hello_size :
    (hello : ControlHello)
    → ControlHello.IsValid hello
    → length (ControlHello.encode hello) ≡ payload_len MessageType.control_hello
unfolding payload_len
hello_size hello v = HelloLaws.length-encode hello v

pub hello_legal :
    (hello : ControlHello)
    → ControlHello.IsValid hello
    → Sendable Kind.control
        (record { ty = MessageType.control_hello; payload = ControlHello.encode hello })
unfolding require_kind is_control
hello_legal hello v = record { size = hello_size hello v; legal = refl }

challenge_written :
    (c : ControlChallenge)
    → ControlChallenge.IsValid c
    → write_frame none []
        (record { ty = MessageType.control_challenge; payload = ControlChallenge.encode c })
      ≡ ok (framed MessageType.control_challenge (ControlChallenge.encode c))
unfolding write_frame
challenge_written c v = ground (arith, ControlChallenge.length-encode c v)

module _ (hmac : List ℕ → List ℕ → Mac) (key : List ℕ) where
  proof_size :
      (t : List ℕ)
      → ((k m : List ℕ) → length (hmac k m) ≡ 32)
      → length (mac hmac key label_control_client t) ≡ payload_len MessageType.control_proof
  unfolding mac payload_len
  proof_size t size = size key _

  pub proof_legal :
      (t : List ℕ)
      → ((k m : List ℕ) → length (hmac k m) ≡ 32)
      → Sendable Kind.control
          (record { ty = MessageType.control_proof; payload = mac hmac key label_control_client t })
  unfolding require_kind is_control
  proof_legal t size = record { size = proof_size t size; legal = refl }

  pub challenge_size :
      (t n i : List ℕ)
      → ((k m : List ℕ) → length (hmac k m) ≡ 32)
      → length n ≡ 32
      → length i ≡ 16
      → ControlChallenge.IsValid (challenge_for hmac key t n i)
  unfolding mac challenge_for
  challenge_size t n i size n_size i_size = record {
    server_nonce_size = n_size;
    session_id_size = i_size;
    server_mac_size = size key _;
  }

  -- A client that knows the key, behind which `rest` follows.
  abbrev pub honest : ControlHello → Nonce → SessionId → List ℕ → List ℕ
  honest hello n i rest =
      framed MessageType.control_hello (ControlHello.encode hello)
      ++ (framed MessageType.control_proof
            (mac hmac key label_control_client (control_transcript hello n i))
          ++ rest)

  verifies :
      (t : List ℕ)
      → verify hmac key label_control_client t (mac hmac key label_control_client t) ≡ true
  verifies t =
      (verify_iff_mac hmac key label_control_client t (mac hmac key label_control_client t)).1 refl

  check_proof_ok :
      (a : Authenticated) (rest : List ℕ)
      → ((k m : List ℕ) → length (hmac k m) ≡ 32)
      → check_proof hmac key a (
          framed MessageType.control_proof (mac hmac key label_control_client a.transcript) ++ rest)
        ≡ ok (a, rest)
  unfolding check_proof
  check_proof_ok a rest size = rw (
    expect-encode Kind.control
        (record {
          ty = MessageType.control_proof;
          payload = mac hmac key label_control_client a.transcript;
        })
        rest (proof_legal a.transcript size),
    verifies a.transcript,
  )

  -- Where the HMAC gives 32 bytes, a client that sends a valid CONTROL_HELLO and then the MAC of
  -- the transcript under the client label, with random values of 32 and 16 bytes, is authenticated
  -- and is sent the challenge if its write does not fail; what follows is left in the stream.
  pub handshake_complete :
      (hello : ControlHello) (n : Nonce) (i : SessionId) (rest : List ℕ)
      → ((k m : List ℕ) → length (hmac k m) ≡ 32)
      → ControlHello.IsValid hello
      → length n ≡ 32
      → length i ≡ 16
      → handshake hmac key none (some n) (some i) (honest hello n i rest)
        ≡ ok (
          record { hello = hello; session_id = i; transcript = control_transcript hello n i },
          rest,
          challenge_frame hmac key (control_transcript hello n i) n i,
        )
  unfolding handshake
  handshake_complete hello n i rest size v n_size i_size =
      let t = control_transcript hello n i in
      let a : Authenticated = record { hello = hello; session_id = i; transcript = t } in
      rw (
        expect-encode Kind.control
            (record { ty = MessageType.control_hello; payload = ControlHello.encode hello })
            (framed MessageType.control_proof (mac hmac key label_control_client t) ++ rest)
            (hello_legal hello v),
        HelloLaws.decode-encode_control_hello hello v,
        challenge_written (challenge_for hmac key t n i) (challenge_size t n i size n_size i_size),
        check_proof_ok a rest size,
      )
