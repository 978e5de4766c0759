-- ===== src/Protocol/ControlHello/Laws.antt =====
-- src/protocol.rs: encoding and decoding of CONTROL_HELLO.
use tunlet.Prelude.{
  ℕ, zero, suc, ◌≡◌, sym, ◌∙◌, arith, List, [], ◌∷◌, ◌++◌, length, length-append, drop-append,
  drop-append_self, drop,
}
use tunlet.Prelude.Bytes.{
  byte_at, slice, to_be, from_be, IsBytes, drop-eq-bytes_from, slice_join, slice_front, slice_skip,
  length-slice, from_be-to_be, from_be-lt, to_be-from_be, length-to_be, byte_at-lt,
}
use tunlet.Error.{ok}
use tunlet.Protocol.Enums.{Mode, fresh, resume, mode_as_u8}
use tunlet.Protocol.Enums.Laws.{mode_from_u8-mode_as_u8, mode_of_from_u8}
use tunlet.Protocol.ControlHello.{ControlHello, encode, decode, check_port, AllowedPort, IsValid}

pub check_port_allowed : (m : Mode) (p : ℕ) → AllowedPort m p → check_port m p ≡ ok tt
unfolding check_port
check_port_allowed fresh p h = ground arith
check_port_allowed resume zero h = absurd (omega arith)
check_port_allowed resume (suc p) h = ground arith

pub allowed_of_check_port : (m : Mode) (p : ℕ) → check_port m p ≡ ok tt → AllowedPort m p
unfolding check_port
allowed_of_check_port fresh p h = ground arith
allowed_of_check_port resume zero h = cc
allowed_of_check_port resume (suc p) h = ground arith

pub length-encode : (self : ControlHello) → IsValid self → length (encode self) ≡ 51
unfolding encode
length-encode self v = omega (
  arith,
  length-append self.instance_id
      (self.client_nonce ++ (mode_as_u8 self.mode ∷ to_be 2 self.requested_port)),
  length-append self.client_nonce (mode_as_u8 self.mode ∷ to_be 2 self.requested_port),
  length-to_be 2 self.requested_port,
  v.instance_size,
  v.nonce_size,
)

-- The parts of an encoding, where `decode` looks for them.
encode_tail :
    (self : ControlHello)
    → IsValid self
    → drop 48 (encode self) ≡ mode_as_u8 self.mode ∷ to_be 2 self.requested_port
unfolding encode
encode_tail self v =
    drop-append 16 32 self.instance_id _ v.instance_size
    ∙ drop-append_self 32 self.client_nonce _ v.nonce_size

instance_slice : (self : ControlHello) → IsValid self → slice 16 0 (encode self) ≡ self.instance_id
unfolding encode
instance_slice self v = slice_front 16 self.instance_id _ v.instance_size

nonce_slice : (self : ControlHello) → IsValid self → slice 32 16 (encode self) ≡ self.client_nonce
unfolding encode
nonce_slice self v =
    slice_skip 16 32 0 self.instance_id _ v.instance_size
    ∙ slice_front 32 self.client_nonce _ v.nonce_size

-- A valid CONTROL_HELLO (fields of their sizes, a port below 2^16 that the mode allows) is decoded
-- from its encoding.
pub decode-encode_control_hello :
    (self : ControlHello) → IsValid self → decode (encode self) ≡ ok self
unfolding decode
decode-encode_control_hello self v = ground (
  arith,
  length-encode self v,
  sym (drop-eq-bytes_from 48 3 (encode self) (length-encode self v)) ∙ encode_tail self v,
  instance_slice self v,
  nonce_slice self v,
  from_be-to_be 2 self.requested_port,
  check_port_allowed self.mode self.requested_port v.port_allowed,
  mode_from_u8-mode_as_u8 self.mode,
)

-- A CONTROL_HELLO that is decoded from a payload of bytes is valid (fields of their sizes, a port
-- below 2^16 that the mode allows), and its encoding is that payload.
pub encode-decode_control_hello :
    (payload : List ℕ) (self : ControlHello)
    → IsBytes payload
    → decode payload ≡ ok self
    → (encode self ≡ payload) × IsValid self
unfolding decode encode
encode-decode_control_hello payload self bytes e =
    let port_bytes : List ℕ = byte_at payload 49 ∷ byte_at payload 50 ∷ [] in
    let small : IsBytes port_bytes =
      (byte_at-lt payload 49 bytes, (byte_at-lt payload 50 bytes, tt)) in
    ground (
      arith,
      mode_of_from_u8 (byte_at payload 48) self.mode,
      allowed_of_check_port self.mode (from_be port_bytes),
      to_be-from_be port_bytes small,
      from_be-lt port_bytes small,
      length-slice 16 0 payload,
      length-slice 32 16 payload,
      slice_join 16 0 payload,
      slice_join 32 16 payload,
      drop-eq-bytes_from 48 3 payload,
    )
