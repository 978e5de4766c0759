-- ===== src/Protocol/DataChallenge.antt =====
-- src/protocol.rs: the DATA_CHALLENGE message.
use tunlet.Prelude.{ℕ, ◌≡◌, ◌∙◌, arith, ◌==◌, if◌then◌else◌, not, List, ◌++◌, length, length-append}
use tunlet.Prelude.Bytes.{
  slice, slice_join, slice_front, slice_whole, slice_last, slice_skip, length-slice,
}
use tunlet.Error.{ProtocolError, Result, ok, err, new}
use tunlet.Protocol.Enums.{Nonce, Mac}

pub record DataChallenge : Type 0 where
  pub server_nonce : Nonce
  pub server_mac : Mac

unfoldable pub encode : DataChallenge → List ℕ
encode self = self.server_nonce ++ self.server_mac

unfoldable pub decode : List ℕ → Result ProtocolError DataChallenge
decode payload =
    if not (length payload == 64)
    then err (new "DATA_CHALLENGE length")
    else ok (record { server_nonce = slice 32 0 payload; server_mac = slice 32 32 payload })

pub record IsValid (self : DataChallenge) : Type 0 where
  pub server_nonce_size : length self.server_nonce ≡ 32
  pub server_mac_size : length self.server_mac ≡ 32

pub length-encode : (self : DataChallenge) → IsValid self → length (encode self) ≡ 64
unfolding encode
length-encode self v = ground (arith, length-append self.server_nonce (self.server_mac))

slices :
    (self : DataChallenge)
    → IsValid self
    → (slice 32 0 (encode self) ≡ self.server_nonce) × (slice 32 32 (encode self) ≡ self.server_mac)
unfolding encode
slices self v = (
  slice_front 32 self.server_nonce _ v.server_nonce_size,
  slice_skip 32 32 0 self.server_nonce _ v.server_nonce_size
      ∙ slice_whole 32 self.server_mac v.server_mac_size,
)

-- A valid message is read back from its encoding.
pub decode-encode_data_challenge :
    (self : DataChallenge) → IsValid self → decode (encode self) ≡ ok self
unfolding decode
decode-encode_data_challenge self v = ground (arith, length-encode self v, slices self v)

-- The fields of a payload, one behind the other, are the payload.
slices_join :
    (payload : List ℕ) → length payload ≡ 64 → slice 32 0 payload ++ slice 32 32 payload ≡ payload
slices_join payload h = rw (slice_last 32 32 payload h, slice_join 32 0 payload)

-- What is decoded is valid, and its encoding is the payload that it was decoded from.
pub encode-decode_data_challenge :
    (payload : List ℕ) (self : DataChallenge)
    → decode payload ≡ ok self
    → (encode self ≡ payload) × IsValid self
unfolding decode encode
encode-decode_data_challenge payload self e =
    ground (arith, slices_join payload, length-slice 32 0 payload, length-slice 32 32 payload)
