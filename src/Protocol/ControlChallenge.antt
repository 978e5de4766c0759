-- ===== src/Protocol/ControlChallenge.antt =====
-- src/protocol.rs: the CONTROL_CHALLENGE message.
use tunlet.Prelude.{ℕ, ◌≡◌, ◌∙◌, arith, ◌==◌, if◌then◌else◌, not, List, ◌++◌, length, length-append}
use tunlet.Prelude.Bytes.{
  slice, slice_join, slice_front, slice_whole, slice_last, slice_skip, length-slice,
}
use tunlet.Error.{ProtocolError, Result, ok, err, new}
use tunlet.Protocol.Enums.{SessionId, Nonce, Mac}

pub record ControlChallenge : Type 0 where
  pub server_nonce : Nonce
  pub session_id : SessionId
  pub server_mac : Mac

unfoldable pub encode : ControlChallenge → List ℕ
encode self = self.server_nonce ++ (self.session_id ++ self.server_mac)

unfoldable pub decode : List ℕ → Result ProtocolError ControlChallenge
decode payload =
    if not (length payload == 80)
    then err (new "CONTROL_CHALLENGE length")
    else ok (record {
      server_nonce = slice 32 0 payload;
      session_id = slice 16 32 payload;
      server_mac = slice 32 48 payload;
    })

pub record IsValid (self : ControlChallenge) : Type 0 where
  pub server_nonce_size : length self.server_nonce ≡ 32
  pub session_id_size : length self.session_id ≡ 16
  pub server_mac_size : length self.server_mac ≡ 32

pub length-encode : (self : ControlChallenge) → IsValid self → length (encode self) ≡ 80
unfolding encode
length-encode self v = ground (
  arith,
  length-append self.server_nonce (self.session_id ++ self.server_mac),
  length-append self.session_id (self.server_mac),
)

slices :
    (self : ControlChallenge)
    → IsValid self
    → (slice 32 0 (encode self) ≡ self.server_nonce)
      × (slice 16 32 (encode self) ≡ self.session_id)
      × (slice 32 48 (encode self) ≡ self.server_mac)
unfolding encode
slices self v = (
  slice_front 32 self.server_nonce _ v.server_nonce_size,
  slice_skip 32 16 0 self.server_nonce _ v.server_nonce_size
      ∙ slice_front 16 self.session_id _ v.session_id_size,
  slice_skip 32 32 16 self.server_nonce _ v.server_nonce_size
      ∙ slice_skip 16 32 0 self.session_id _ v.session_id_size
      ∙ slice_whole 32 self.server_mac v.server_mac_size,
)

-- A valid CONTROL_CHALLENGE (all fields of their sizes) is decoded from its encoding.
pub decode-encode_control_challenge :
    (self : ControlChallenge) → IsValid self → decode (encode self) ≡ ok self
unfolding decode
decode-encode_control_challenge self v = ground (arith, length-encode self v, slices self v)

-- The fields of a payload, one behind the other, are the payload.
slices_join :
    (payload : List ℕ)
    → length payload ≡ 80
    → slice 32 0 payload ++ (slice 16 32 payload ++ slice 32 48 payload) ≡ payload
slices_join payload h =
    rw (slice_last 32 48 payload h, slice_join 16 32 payload, slice_join 32 0 payload)

-- A CONTROL_CHALLENGE that is decoded from a payload is valid (all fields of their sizes), and its
-- encoding is that payload.
pub encode-decode_control_challenge :
    (payload : List ℕ) (self : ControlChallenge)
    → decode payload ≡ ok self
    → (encode self ≡ payload) × IsValid self
unfolding decode encode
encode-decode_control_challenge payload self e = ground (
  arith,
  slices_join payload,
  length-slice 32 0 payload,
  length-slice 16 32 payload,
  length-slice 32 48 payload,
)
