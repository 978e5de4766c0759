-- ===== src/Protocol/Small.antt =====
-- src/protocol.rs: the payloads that are one identifier, one sequence number or one error code.
use tunlet.Prelude.{
  ℕ, ◌≡◌, arith, ◌==◌, if◌then◌else◌, not, List, [], ◌∷◌, length, ◌<◌, ◌^◌, some, none,
}
use tunlet.Prelude.Bytes.{
  byte_at, slice, to_be, from_be, drop-eq-bytes_from, slice_whole, from_be-to_be, length-to_be,
}
use tunlet.Error.{ProtocolError, Result, ok, err, new}
use tunlet.Error.{ErrorCode, error_code_from_u16, as_u16}
use tunlet.Error.Codes.{from_u16-as_u16, as_u16-lt}
use tunlet.Protocol.Enums.{RequestId}

unfoldable pub decode_request_id : List ℕ → Result ProtocolError RequestId
decode_request_id payload =
    if not (length payload == 16) then err (new "OPEN length") else ok (slice 16 0 payload)

unfoldable pub decode_sequence : List ℕ → Result ProtocolError ℕ
decode_sequence payload =
    if not (length payload == 8)
    then err (new "PING/PONG length")
    else ok (from_be (slice 8 0 payload))

unfoldable pub decode_error : List ℕ → Result ProtocolError ErrorCode
decode_error payload =
    if not (length payload == 2)
    then err (new "ERROR length")
    else elim (error_code_from_u16 (from_be (byte_at payload 0 ∷ byte_at payload 1 ∷ []))) [
      | none ↦ err (new "unknown error code")
      | some code ↦ ok code
    ]

pub decode_request_id_lem : (id : RequestId) → length id ≡ 16 → decode_request_id id ≡ ok id
unfolding decode_request_id
decode_request_id_lem id h = ground (arith, slice_whole 16 id)

-- A sequence number is read back from the payload of the PING or PONG that carries it.
pub decode_sequence-to_be : (n : ℕ) → n < 2 ^ 64 → decode_sequence (to_be 8 n) ≡ ok n
unfolding decode_sequence
decode_sequence-to_be n h =
    ground (arith, length-to_be 8 n, slice_whole 8 (to_be 8 n), from_be-to_be 8 n)

-- An error code is read back from the payload of the ERROR frame that carries it.
pub decode_error-to_be : (c : ErrorCode) → decode_error (to_be 2 (as_u16 c)) ≡ ok c
unfolding decode_error
decode_error-to_be c = ground (
  arith,
  length-to_be 2 (as_u16 c),
  drop-eq-bytes_from 0 2 (to_be 2 (as_u16 c)),
  from_be-to_be 2 (as_u16 c),
  as_u16-lt c,
  from_u16-as_u16 c,
)
