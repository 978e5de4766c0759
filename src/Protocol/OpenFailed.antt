-- ===== src/Protocol/OpenFailed.antt =====
-- src/protocol.rs: the OPEN_FAILED message.
use tunlet.Prelude.{
  ℕ, ◌≡◌, arith, ◌==◌, if◌then◌else◌, not, List, [], ◌∷◌, ◌++◌, length, length-append,
  drop-append_self,
}
use tunlet.Prelude.Bytes.{byte_at, slice, drop-eq-bytes_from, slice_join, slice_front, length-slice}
use tunlet.Error.{ProtocolError, Result, ok, err, new, ◌>>=◌}
use tunlet.Protocol.Enums.{RequestId, OpenFailure, failure_as_u8, failure_from_u8}
use tunlet.Protocol.Enums.Laws.{failure_from_u8-failure_as_u8, failure_of_from_u8}

pub record OpenFailed : Type 0 where
  pub request_id : RequestId
  pub reason : OpenFailure

unfoldable pub encode : OpenFailed → List ℕ
encode self = self.request_id ++ (failure_as_u8 self.reason ∷ [])

unfoldable pub decode : List ℕ → Result ProtocolError OpenFailed
decode payload = if not (length payload == 17) then err (new "OPEN_FAILED length") else do
  reason ← failure_from_u8 (byte_at payload 16)
  ok (record { request_id = slice 16 0 payload; reason = reason })

abbrev pub IsValid : OpenFailed → Type 0
IsValid self = length self.request_id ≡ 16

-- A valid message is read back from its encoding.
pub decode-encode_open_failed : (self : OpenFailed) → IsValid self → decode (encode self) ≡ ok self
unfolding decode encode
decode-encode_open_failed self v =
    let tail : List ℕ = failure_as_u8 self.reason ∷ [] in
    ground (
      arith,
      length-append self.request_id tail,
      drop-append_self 16 self.request_id tail v,
      drop-eq-bytes_from 16 1 (self.request_id ++ tail),
      slice_front 16 self.request_id tail v,
      failure_from_u8-failure_as_u8 self.reason,
    )

-- What is decoded is valid, and its encoding is the payload that it was decoded from.
pub encode-decode_open_failed :
    (payload : List ℕ) (self : OpenFailed)
    → decode payload ≡ ok self
    → (encode self ≡ payload) × IsValid self
unfolding decode encode
encode-decode_open_failed payload self e = ground (
  arith,
  failure_of_from_u8 (byte_at payload 16) self.reason,
  length-slice 16 0 payload,
  slice_join 16 0 payload,
  drop-eq-bytes_from 16 1 payload,
)
