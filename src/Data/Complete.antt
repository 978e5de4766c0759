-- ===== src/Data/Complete.antt =====
-- src/server/data.rs and src/client/data.rs: the two sides of one data connection.
use tunlet.Prelude.{none}
use tunlet.Protocol.Exchange.Laws.{write_preamble_ok}
use tunlet.Protocol.Frame.{no_faults}
use tunlet.Prelude.{
  ℕ, ◌≡◌, refl, sym, ap, ◌∙◌, true, false, some, List, ◌++◌, [], length, append-nil, append_assoc,
}
use tunlet.Error.{AppError, Result, ok}
use tunlet.Protocol.Enums.{Kind, MessageType, Mac, Nonce, payload_len, is_data}
use tunlet.Protocol.Preamble.{encode_preamble}
use tunlet.Protocol.DataHello
use tunlet.Protocol.DataHello.{DataHello}
use tunlet.Protocol.DataChallenge
use tunlet.Protocol.DataChallenge.{DataChallenge}
use tunlet.Protocol.Frame.{Frame, empty, require_kind, write_frame, write_preamble}
use tunlet.Protocol.Frame.Laws.{read_frame-encode}
use tunlet.Protocol.Exchange.{framed}
use tunlet.Protocol.Exchange.Laws.{Sendable, answer-encode, write_frame_ok, require_type_self}
use tunlet.Auth.{mac, data_transcript, label_data_server, label_data_client}
use tunlet.Auth.Injective.{verify_iff_mac}
use tunlet.Registry.State.{Env}
use tunlet.Registry.Handle as RegistryHandle
use tunlet.Registry.Handle.{Actor}
use tunlet.Client.Open.{refusal, same, check_challenge, data_handshake}
use tunlet.Data.{unexpected, settle, challenge_for, check_proof, challenge, handshake}

hello_legal :
    (hello : DataHello)
    → DataHello.IsValid hello
    → Sendable Kind.data_kind
        (record { ty = MessageType.data_hello; payload = DataHello.encode hello })
unfolding require_kind is_data payload_len
hello_legal hello v = record { size = DataHello.length-encode hello v; legal = refl }

pub ready_legal : Sendable Kind.data_kind (empty MessageType.data_ready)
unfolding require_kind is_data payload_len
ready_legal = record { size = refl; legal = refl }

expected : (f : Frame) → Sendable Kind.data_kind f → unexpected f f.ty ≡ false
unfolding unexpected
expected f s = rw (s.legal, require_type_self f) refl

module _ (hmac : List ℕ → List ℕ → Mac) (key : List ℕ) where
  -- What a client that holds the key writes behind the preamble.
  abbrev pub honest : DataHello → Nonce → List ℕ → List ℕ
  honest hello n rest =
      framed MessageType.data_hello (DataHello.encode hello)
      ++ (framed MessageType.data_proof (mac hmac key label_data_client (data_transcript hello n))
          ++ rest)

  abbrev pub challenge_frame : DataHello → Nonce → List ℕ
  challenge_frame hello n =
      framed MessageType.data_challenge
        (DataChallenge.encode (challenge_for hmac key (data_transcript hello n) n))

abbrev pub result : List ℕ → List ℕ → Result AppError (List ℕ × List ℕ)
result rest written = ok (rest, written)

module _ (hmac : List ℕ → List ℕ → Mac) (key : List ℕ)
    (size : (k m : List ℕ) → length (hmac k m) ≡ 32) where
  challenge-IsValid :
      (t n : List ℕ) → length n ≡ 32 → DataChallenge.IsValid (challenge_for hmac key t n)
  unfolding mac
  challenge-IsValid t n n_size = record { server_nonce_size = n_size; server_mac_size = size key _ }

  challenge_legal :
      (t n : List ℕ)
      → length n ≡ 32
      → Sendable Kind.data_kind (record {
        ty = MessageType.data_challenge;
        payload = DataChallenge.encode (challenge_for hmac key t n);
      })
  unfolding require_kind is_data payload_len
  challenge_legal t n n_size = record {
    size = DataChallenge.length-encode _ (challenge-IsValid t n n_size);
    legal = refl;
  }

  proof_legal :
      (t : List ℕ)
      → Sendable Kind.data_kind
          (record { ty = MessageType.data_proof; payload = mac hmac key label_data_client t })
  unfolding require_kind is_data payload_len mac
  proof_legal t = record { size = size key _; legal = refl }

  check_proof_ok :
      (env : Env) (actor : Actor) (hello : DataHello) (t written rest : List ℕ) (socket : ℕ)
      → check_proof hmac key no_faults env actor hello t written
          (framed MessageType.data_proof (mac hmac key label_data_client t) ++ rest)
          socket
        ≡ settle none written
            (RegistryHandle.claim env actor hello.session_id hello.request_id socket)
  unfolding check_proof
  check_proof_ok env actor hello t written rest socket =
      let proof : Frame = record {
        ty = MessageType.data_proof;
        payload = mac hmac key label_data_client t;
      } in
      rw
        (
          check_proof,
          read_frame-encode proof rest (proof_legal t).size,
          expected proof (proof_legal t),
          (verify_iff_mac hmac key label_data_client t (mac hmac key label_data_client t)).1 refl,
        )
        refl

  pub server_serves :
      (env env' : Env) (between : Actor → Actor) (actor : Actor) (hello : DataHello) (n : Nonce)
      (rest : List ℕ) (socket : ℕ)
      → DataHello.IsValid hello
      → length n ≡ 32
      → (RegistryHandle.peek env actor hello.session_id hello.request_id).1 ≡ true
      → handshake hmac key no_faults env between env' actor
          (some n)
          (honest hmac key hello n rest)
          socket
        ≡ settle none (challenge_frame hmac key hello n) (
            RegistryHandle.claim env'
              (between (RegistryHandle.peek env actor hello.session_id hello.request_id).0)
              hello.session_id
              hello.request_id
              socket)
  unfolding handshake challenge
  server_serves env env' between actor hello n rest socket v n_size there =
      let t = data_transcript hello n in
      let h : Frame = record { ty = MessageType.data_hello; payload = DataHello.encode hello } in
      let proof = framed MessageType.data_proof (mac hmac key label_data_client t) in
      rw
        (
          handshake,
          read_frame-encode h (proof ++ rest) (hello_legal hello v).size,
          expected h (hello_legal hello v),
          DataHello.decode-encode_data_hello hello v,
          there,
          challenge,
          write_frame_ok [] _ (challenge_legal t n n_size).size,
        )
        (check_proof_ok env' _ hello t (challenge_frame hmac key hello n) rest socket)

  challenge_checks :
      (t n : List ℕ) → check_challenge hmac key t (challenge_for hmac key t n) ≡ ok tt
  unfolding check_challenge
  challenge_checks t n =
      rw ((verify_iff_mac hmac key label_data_server t (mac hmac key label_data_server t)).1 refl)

  hello_written :
      (hello : DataHello)
      → DataHello.IsValid hello
      → write_frame none
          (encode_preamble Kind.data_kind)
          (record { ty = MessageType.data_hello; payload = DataHello.encode hello })
        ≡ ok (
            encode_preamble Kind.data_kind
            ++ framed MessageType.data_hello (DataHello.encode hello))
  unfolding write_preamble
  hello_written hello v = write_frame_ok _ _ (hello_legal hello v).size

  said_twice :
      (h p : List ℕ)
      → (encode_preamble Kind.data_kind ++ h) ++ p
        ≡ encode_preamble Kind.data_kind ++ (h ++ (p ++ []))
  said_twice h p =
      append_assoc (encode_preamble Kind.data_kind) h p
      ∙ ap (λ q. encode_preamble Kind.data_kind ++ (h ++ q)) (sym (append-nil p))

  pub client_connects :
      (hello : DataHello) (n : Nonce) (rest : List ℕ)
      → DataHello.IsValid hello
      → length n ≡ 32
      → data_handshake hmac key no_faults
          (some hello.client_nonce)
          hello.session_id
          hello.request_id
          (challenge_frame hmac key hello n ++ (framed MessageType.data_ready [] ++ rest))
        ≡ result rest (encode_preamble Kind.data_kind ++ honest hmac key hello n [])
  unfolding data_handshake
  client_connects hello n rest v n_size =
      let t = data_transcript hello n in
      let c = challenge_for hmac key t n in
      let hello_frame = framed MessageType.data_hello (DataHello.encode hello) in
      let proof : Frame = record {
        ty = MessageType.data_proof;
        payload = mac hmac key label_data_client t;
      } in
      rw
        (
          write_preamble_ok [] Kind.data_kind,
          hello_written hello v,
          answer-encode same same refusal Kind.data_kind
              (record { ty = MessageType.data_challenge; payload = DataChallenge.encode c })
              (framed MessageType.data_ready [] ++ rest) (challenge_legal t n n_size) (λ e. cc),
          DataChallenge.decode-encode_data_challenge c (challenge-IsValid t n n_size),
          challenge_checks t n,
          write_frame_ok (encode_preamble Kind.data_kind ++ hello_frame) proof (proof_legal t).size,
          answer-encode same same refusal Kind.data_kind (empty MessageType.data_ready) rest
              ready_legal (λ e. cc),
        )
        (ap (result rest) (
          said_twice hello_frame
            (framed MessageType.data_proof (mac hmac key label_data_client t))))
