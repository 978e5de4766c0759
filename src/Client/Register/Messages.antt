-- ===== src/Client/Register/Messages.antt =====
-- src/client/control.rs and src/server/control.rs: the messages of a registration between sides that
-- hold one key.
use tunlet.Prelude.{ℕ, ◌^◌, ◌≡◌, ◌≢◌, refl, arith, List, length, ◌≤◌, ◌<◌}
use tunlet.Error.{ok}
use tunlet.Protocol.Enums.{Kind, MessageType, Mac, payload_len, is_control}
use tunlet.Protocol.ControlChallenge
use tunlet.Protocol.ControlChallenge.{ControlChallenge}
use tunlet.Protocol.Registered
use tunlet.Protocol.Registered.{Registered}
use tunlet.Protocol.Frame.{require_kind}
use tunlet.Protocol.Exchange.Laws.{Sendable}
use tunlet.Auth.{mac, ready_transcript, label_control_server, label_control_ready}
use tunlet.Auth.Injective.{verify_iff_mac}
use tunlet.Control.Handshake.{challenge_for}
use tunlet.Client.Register.{check_challenge, check_registered}
use tunlet.Client.Register.Laws.{challenge_from, registered_from}

module _ (hmac : List ℕ → List ℕ → Mac) (key : List ℕ)
    (size : (k m : List ℕ) → length (hmac k m) ≡ 32) where
  pub challenge-IsValid :
      (t n i : List ℕ)
      → length n ≡ 32
      → length i ≡ 16
      → ControlChallenge.IsValid (challenge_from hmac key t n i)
  unfolding mac
  challenge-IsValid t n i n_size i_size = record {
    server_nonce_size = n_size;
    session_id_size = i_size;
    server_mac_size = size key _;
  }

  pub challenge_legal :
      (t n i : List ℕ)
      → length n ≡ 32
      → length i ≡ 16
      → Sendable Kind.control (record {
        ty = MessageType.control_challenge;
        payload = ControlChallenge.encode (challenge_from hmac key t n i);
      })
  unfolding require_kind is_control payload_len challenge_for
  challenge_legal t n i n_size i_size = record {
    size =
        ControlChallenge.length-encode (challenge_from hmac key t n i)
          (challenge-IsValid t n i n_size i_size);
    legal = refl;
  }

  pub registered-IsValid :
      (t : List ℕ) (p m : ℕ)
      → 1024 ≤ p
      → p < 65536
      → 0 < m
      → m < 2 ^ 32
      → Registered.IsValid (registered_from hmac key t p m)
  unfolding mac
  registered-IsValid t p m p_low p_high m_low m_high = record {
    port_low = p_low;
    port_high = p_high;
    max_low = m_low;
    max_high = m_high;
    mac_size = size key _;
  }

  pub registered_legal :
      (r : Registered)
      → Registered.IsValid r
      → Sendable Kind.control
          (record { ty = MessageType.registered; payload = Registered.encode r })
  unfolding require_kind is_control payload_len
  registered_legal r v = record { size = Registered.length-encode r v; legal = refl }

  pub challenge_checks :
      (t n i : List ℕ) → check_challenge hmac key t (challenge_from hmac key t n i) ≡ ok tt
  unfolding check_challenge
  challenge_checks t n i = rw (
      (verify_iff_mac hmac key label_control_server t (mac hmac key label_control_server t)).1 refl)

  pub registered_checks :
      (t : List ℕ) (requested p m : ℕ)
      → (requested ≢ 0 → p ≡ requested)
      → check_registered hmac key t requested (registered_from hmac key t p m) ≡ ok tt
  unfolding check_registered
  registered_checks t requested p m asked =
      let ready = ready_transcript t p m in
      rw
        ((verify_iff_mac hmac key label_control_ready ready
            (mac hmac key label_control_ready ready)).1
          refl)
        (ground arith)
