-- ===== src/Auth.antt =====
-- src/auth.rs: the labels, the transcripts, and the proofs over them.
-- HMAC-SHA-256 is third-party code: it is the parameter `hmac`, a function of the key and of the
-- message, which the code feeds in two parts.
pub mod Injective
mod Tests
use tunlet.Prelude.{ℕ, Bool, true, false, List, [], ◌∷◌, ◌++◌, ite}
use tunlet.Prelude.Bytes.{to_be, bytes_discrete, ascii}
use tunlet.Protocol.Enums.{Kind, Mac, Nonce, SessionId}
use tunlet.Protocol.Preamble.{encode_preamble}
use tunlet.Protocol.ControlHello
use tunlet.Protocol.ControlHello.{ControlHello}
use tunlet.Protocol.DataHello
use tunlet.Protocol.DataHello.{DataHello}

-- Each label ends with one null byte.
abbrev pub label_control_server : List ℕ
label_control_server = ascii "tunlet/v1/control/server" ++ (0 ∷ [])

abbrev pub label_control_client : List ℕ
label_control_client = ascii "tunlet/v1/control/client" ++ (0 ∷ [])

abbrev pub label_control_ready : List ℕ
label_control_ready = ascii "tunlet/v1/control/ready" ++ (0 ∷ [])

abbrev pub label_data_server : List ℕ
label_data_server = ascii "tunlet/v1/data/server" ++ (0 ∷ [])

abbrev pub label_data_client : List ℕ
label_data_client = ascii "tunlet/v1/data/client" ++ (0 ∷ [])

module _ (hmac : List ℕ → List ℕ → Mac) where
  unfoldable pub mac : List ℕ → List ℕ → List ℕ → Mac
  mac key label transcript = hmac key (label ++ transcript)

  unfoldable pub verify : List ℕ → List ℕ → List ℕ → List ℕ → Bool
  unfolding bytes_discrete
  verify key label transcript proof =
      ite (bytes_discrete (hmac key (label ++ transcript)) proof) true false

unfoldable pub control_transcript : ControlHello → Nonce → SessionId → List ℕ
control_transcript hello server_nonce session_id =
    encode_preamble Kind.control ++ (ControlHello.encode hello ++ (server_nonce ++ session_id))

unfoldable pub ready_transcript : List ℕ → ℕ → ℕ → List ℕ
ready_transcript transcript assigned_port max_connections =
    transcript ++ (to_be 2 assigned_port ++ to_be 4 max_connections)

unfoldable pub data_transcript : DataHello → Nonce → List ℕ
data_transcript hello server_nonce =
    encode_preamble Kind.data_kind ++ (DataHello.encode hello ++ server_nonce)
