-- ===== src/Protocol/Registered.antt =====
-- src/protocol.rs: the REGISTERED message.
use tunlet.Prelude.{
  ℕ, ◌≡◌, ◌∙◌, arith, ◌==◌, ltb, if◌then◌else◌, not, List, [], ◌∷◌, ◌++◌, length, length-append,
  drop_past, append-nil, ◌≤◌, ◌<◌, ◌^◌,
}
use tunlet.Prelude.Bytes.{
  byte_at, slice, to_be, from_be, IsBytes, slice_join, slice_front, slice_whole, slice_skip,
  length-slice, from_be-to_be, length-to_be, slice-eq-bytes_from, slice_be,
}
use tunlet.Error.{ProtocolError, Result, ok, err, new, with_code, invalid_port}
use tunlet.Protocol.Enums.{Mac}

pub record Registered : Type 0 where
  pub assigned_port : ℕ
  pub max_connections : ℕ
  pub ready_mac : Mac

unfoldable pub encode : Registered → List ℕ
encode self = to_be 2 self.assigned_port ++ (to_be 4 self.max_connections ++ self.ready_mac)

unfoldable pub decode : List ℕ → Result ProtocolError Registered
decode payload =
    if not (length payload == 38)
    then err (new "REGISTERED length")
    else let assigned_port = from_be (byte_at payload 0 ∷ byte_at payload 1 ∷ []) in
      if ltb assigned_port 1024
      then err (with_code invalid_port "assigned port must be 1024-65535")
      else let max_connections = from_be (slice 4 2 payload) in
        if max_connections == 0
        then err (new "advertised maximum must be nonzero")
        else ok (record {
          assigned_port = assigned_port;
          max_connections = max_connections;
          ready_mac = slice 32 6 payload;
        })

pub record IsValid (self : Registered) : Type 0 where
  pub port_low : 1024 ≤ self.assigned_port
  pub port_high : self.assigned_port < 65536
  pub max_low : 0 < self.max_connections
  pub max_high : self.max_connections < 2 ^ 32
  pub mac_size : length self.ready_mac ≡ 32

pub length-encode : (self : Registered) → IsValid self → length (encode self) ≡ 38
unfolding encode
length-encode self v = ground (
  arith,
  length-append (to_be 2 self.assigned_port) (to_be 4 self.max_connections ++ self.ready_mac),
  length-append (to_be 4 self.max_connections) self.ready_mac,
  length-to_be 2 self.assigned_port,
  length-to_be 4 self.max_connections,
)

slices :
    (self : Registered)
    → IsValid self
    → (slice 2 0 (encode self) ≡ to_be 2 self.assigned_port)
      × (slice 4 2 (encode self) ≡ to_be 4 self.max_connections)
      × (slice 32 6 (encode self) ≡ self.ready_mac)
unfolding encode
slices self v =
    let port = length-to_be 2 self.assigned_port in
    let max = length-to_be 4 self.max_connections in
    (
      slice_front 2 (to_be 2 self.assigned_port) _ port,
      slice_skip 2 4 0 (to_be 2 self.assigned_port) _ port
          ∙ slice_front 4 (to_be 4 self.max_connections) _ max,
      slice_skip 2 32 4 (to_be 2 self.assigned_port) _ port
          ∙ slice_skip 4 32 0 (to_be 4 self.max_connections) _ max
          ∙ slice_whole 32 self.ready_mac v.mac_size,
    )

-- A valid REGISTERED (a port from 1024 to 65535, a positive maximum below 2^32, a MAC of 32 bytes)
-- is decoded from its encoding.
pub decode-encode_registered : (self : Registered) → IsValid self → decode (encode self) ≡ ok self
unfolding decode
decode-encode_registered self v = ground (
  arith,
  length-encode self v,
  slices self v,
  slice-eq-bytes_from 2 0 (encode self),
  from_be-to_be 2 self.assigned_port,
  from_be-to_be 4 self.max_connections,
)

-- A REGISTERED that is decoded from a payload of bytes is valid (a port from 1024 to 65535, a
-- positive maximum below 2^32, a MAC of 32 bytes), and its encoding is that payload.
pub encode-decode_registered :
    (payload : List ℕ) (self : Registered)
    → IsBytes payload
    → decode payload ≡ ok self
    → (encode self ≡ payload) × IsValid self
unfolding decode encode
encode-decode_registered payload self bytes e = ground (
  arith,
  slice-eq-bytes_from 2 0 payload,
  slice_be 2 0 payload bytes,
  slice_be 4 2 payload bytes,
  length-slice 32 6 payload,
  slice_join 2 0 payload,
  slice_join 4 2 payload,
  slice_join 32 6 payload,
  drop_past 38 payload,
  append-nil (slice 32 6 payload),
)
