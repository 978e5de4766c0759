-- ===== src/Protocol/DataHello.antt =====
-- src/protocol.rs: the DATA_HELLO message.
use tunlet.Prelude.{ℕ, ◌≡◌, ◌∙◌, arith, ◌==◌, if◌then◌else◌, not, List, ◌++◌, length, length-append}
use tunlet.Prelude.Bytes.{
  slice, slice_join, slice_front, slice_whole, slice_last, slice_skip, length-slice,
}
use tunlet.Error.{ProtocolError, Result, ok, err, new}
use tunlet.Protocol.Enums.{SessionId, RequestId, Nonce}

pub record DataHello : Type 0 where
  pub session_id : SessionId
  pub request_id : RequestId
  pub client_nonce : Nonce

unfoldable pub encode : DataHello → List ℕ
encode self = self.session_id ++ (self.request_id ++ self.client_nonce)

unfoldable pub decode : List ℕ → Result ProtocolError DataHello
decode payload =
    if not (length payload == 64)
    then err (new "DATA_HELLO length")
    else ok (record {
      session_id = slice 16 0 payload;
      request_id = slice 16 16 payload;
      client_nonce = slice 32 32 payload;
    })

pub record IsValid (self : DataHello) : Type 0 where
  pub session_id_size : length self.session_id ≡ 16
  pub request_id_size : length self.request_id ≡ 16
  pub client_nonce_size : length self.client_nonce ≡ 32

pub length-encode : (self : DataHello) → IsValid self → length (encode self) ≡ 64
unfolding encode
length-encode self v = ground (
  arith,
  length-append self.session_id (self.request_id ++ self.client_nonce),
  length-append self.request_id (self.client_nonce),
)

slices :
    (self : DataHello)
    → IsValid self
    → (slice 16 0 (encode self) ≡ self.session_id)
      × (slice 16 16 (encode self) ≡ self.request_id)
      × (slice 32 32 (encode self) ≡ self.client_nonce)
unfolding encode
slices self v = (
  slice_front 16 self.session_id _ v.session_id_size,
  slice_skip 16 16 0 self.session_id _ v.session_id_size
      ∙ slice_front 16 self.request_id _ v.request_id_size,
  slice_skip 16 32 16 self.session_id _ v.session_id_size
      ∙ slice_skip 16 32 0 self.request_id _ v.request_id_size
      ∙ slice_whole 32 self.client_nonce v.client_nonce_size,
)

-- A valid DATA_HELLO (all fields of their sizes) is decoded from its encoding.
pub decode-encode_data_hello : (self : DataHello) → IsValid self → decode (encode self) ≡ ok self
unfolding decode
decode-encode_data_hello self v = ground (arith, length-encode self v, slices self v)

-- The fields of a payload, one behind the other, are the payload.
slices_join :
    (payload : List ℕ)
    → length payload ≡ 64
    → slice 16 0 payload ++ (slice 16 16 payload ++ slice 32 32 payload) ≡ payload
slices_join payload h =
    rw (slice_last 32 32 payload h, slice_join 16 16 payload, slice_join 16 0 payload)

-- A DATA_HELLO that is decoded from a payload is valid (all fields of their sizes), and its
-- encoding is that payload.
pub encode-decode_data_hello :
    (payload : List ℕ) (self : DataHello)
    → decode payload ≡ ok self
    → (encode self ≡ payload) × IsValid self
unfolding decode encode
encode-decode_data_hello payload self e = ground (
  arith,
  slices_join payload,
  length-slice 16 0 payload,
  length-slice 16 16 payload,
  length-slice 32 32 payload,
)
