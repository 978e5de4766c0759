-- ===== src/Protocol/ControlHello.antt =====
-- src/protocol.rs: the CONTROL_HELLO message.
pub mod Laws
use tunlet.Prelude.{
  ℕ, zero, suc, ◌≡◌, refl, sym, ap, ◌∙◌, arith, ◌==◌, ltb, if◌then◌else◌, ◌&&◌, not, List, [], ◌∷◌,
  ◌++◌, length, length-append, take, drop, ◌≤◌, ◌<◌, ◌+◌, ◌≢◌, ◌⊎◌, inl, inr,
}
use tunlet.Prelude.Bytes.{
  byte_at, slice, to_be, from_be, IsBytes, bytes_from, drop-eq-bytes_from, slice_join, slice_front,
  slice_skip, length-slice, from_be-to_be, to_be-from_be, length-to_be,
}
use tunlet.Error.{ProtocolError, Result, ok, err, new, with_code, invalid_port, ◌>>=◌, ◌>>◌}
use tunlet.Protocol.Enums.{InstanceId, Nonce, Mode, fresh, resume, mode_as_u8, mode_from_u8}
use tunlet.Protocol.Enums.Laws.{mode_from_u8-mode_as_u8, mode_of_from_u8}

pub record ControlHello : Type 0 where
  pub instance_id : InstanceId
  pub client_nonce : Nonce
  pub mode : Mode
  pub requested_port : ℕ

unfoldable pub encode : ControlHello → List ℕ
encode self =
    self.instance_id ++ (self.client_nonce ++ (mode_as_u8 self.mode ∷ to_be 2 self.requested_port))

-- The `match` on the mode and the requested port.
unfoldable pub check_port : Mode → ℕ → Result ProtocolError (Unit {0})
check_port resume zero = err (with_code invalid_port "resume must request a specific port")
check_port mode port =
    if not (port == 0) && ltb port 1024
    then err (with_code invalid_port "requested port must be 1024-65535")
    else ok tt

unfoldable pub decode : List ℕ → Result ProtocolError ControlHello
unfolding check_port
decode payload = if not (length payload == 51) then err (new "CONTROL_HELLO length") else do
  mode ← mode_from_u8 (byte_at payload 48)
  let requested_port = from_be (byte_at payload 49 ∷ byte_at payload 50 ∷ [])
  check_port mode requested_port
  ok (record {
    instance_id = slice 16 0 payload;
    client_nonce = slice 32 16 payload;
    mode = mode;
    requested_port = requested_port;
  })

-- A port number that the mode allows: 0 asks for automatic allocation, of a fresh process only.
abbrev pub AllowedPort : Mode → ℕ → Type 0
AllowedPort fresh port = (port ≡ 0) ⊎ (1024 ≤ port)
AllowedPort resume port = 1024 ≤ port

pub record IsValid (self : ControlHello) : Type 0 where
  pub instance_size : length self.instance_id ≡ 16
  pub nonce_size : length self.client_nonce ≡ 32
  pub port_range : self.requested_port < 65536
  pub port_allowed : AllowedPort self.mode self.requested_port
