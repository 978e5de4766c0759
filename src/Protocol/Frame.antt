-- ===== src/Protocol/Frame.antt =====
-- src/protocol.rs: frames, and the functions that read and write them.
-- A reader is the list of bytes that the peer sends before it closes the connection; a writer is
-- the list of bytes written so far; a write may fail, after which nothing more is written. Exact reads that meet the end fail with an I/O error.
pub mod Laws
use tunlet.Prelude.{Option, none, some}
use Prim.Native.String.{String}
use tunlet.Prelude.{
  ℕ, ◌==◌, ltb, if◌then◌else◌, Bool, not, List, [], ◌∷◌, ◌++◌, ◌%◌, length, take, drop, ◌^◌,
}
use tunlet.Prelude.Bytes.{byte_at, to_be, from_be}
use tunlet.Error.{
  ErrorCode, as_u16, ProtocolError, AppError, io, protocol, Result, ok, err, new, ◌>>=◌, ◌>>◌, lift,
}
use tunlet.Protocol.Enums.{
  Kind, control, data_kind, MessageType, error, type_as_u8, type_from_u8, payload_len, is_control,
  is_data, max_payload, header_len, preamble_len,
}
use tunlet.Protocol.Preamble.{encode_preamble, decode_preamble}

pub record Frame : Type 0 where
  pub ty : MessageType
  pub payload : List ℕ

-- `Frame::empty`
abbrev pub empty : MessageType → Frame
empty ty = record { ty = ty; payload = [] }

-- `Frame::encode`; the cast to u16 wraps.
unfoldable pub encode : Frame → List ℕ
encode self = type_as_u8 self.ty ∷ (to_be 2 (length self.payload % 2 ^ 16) ++ self.payload)

-- `Frame::require_kind`
unfoldable pub require_kind : Frame → Kind → Result ProtocolError (Unit {0})
require_kind self kind =
    if elim kind [ control ↦ is_control self.ty | data_kind ↦ is_data self.ty ]
    then ok tt
    else err (new "message type illegal on this connection")

-- `==` on message types.
unfoldable pub type_eq : MessageType → MessageType → Bool
type_eq a b = type_as_u8 a == type_as_u8 b

-- `Frame::require_type`
unfoldable pub require_type : Frame → MessageType → Result ProtocolError (Unit {0})
unfolding type_eq
require_type self expected =
    if type_eq self.ty expected
    then ok tt
    else if type_eq self.ty error
    then err (new "peer reported an error")
    else err (new "unexpected message for this state")

-- `read_exact`: the bytes read and the rest, or the error at the end of the stream.
unfoldable pub read_exact : ℕ → List ℕ → Result AppError (List ℕ × List ℕ)
read_exact n reader =
    if ltb (length reader) n
    then err (io "unexpected end of file")
    else ok (take n reader, drop n reader)

-- The I/O error of a write, if the socket has one; and that of the n-th write of a handshake.
abbrev pub Fault : Type 0
Fault = Option String

abbrev pub Faults : Type 0
Faults = ℕ → Fault

abbrev pub no_faults : Faults
no_faults n = none

-- `write_all` and `flush`
abbrev write_bytes : Fault → List ℕ → List ℕ → Result AppError (List ℕ)
write_bytes none writer bytes = ok (writer ++ bytes)
write_bytes (some text) writer bytes = err (io text)

unfoldable pub write_preamble : Fault → List ℕ → Kind → Result AppError (List ℕ)
write_preamble fault writer kind = write_bytes fault writer (encode_preamble kind)

unfoldable pub read_preamble : List ℕ → Result AppError (Kind × List ℕ)
unfolding read_exact
read_preamble reader = do
  (bytes, rest) ← read_exact preamble_len reader
  kind ← lift (decode_preamble bytes)
  ok (kind, rest)

-- The check of the header: the type and the declared length, before anything is allocated.
unfoldable pub read_header : List ℕ → Result AppError (MessageType × ℕ)
read_header header =
    let declared = from_be (byte_at header 1 ∷ byte_at header 2 ∷ []) in
    if ltb max_payload declared then err (protocol (new "payload length too large")) else (do
      ty ← lift (type_from_u8 (byte_at header 0))
      (if not (declared == payload_len ty)
          then err (protocol (new "payload length does not match message type"))
          else ok (ty, declared)))

unfoldable pub read_frame : List ℕ → Result AppError (Frame × List ℕ)
read_frame reader = do
  (header, rest) ← read_exact header_len reader
  (ty, declared) ← read_header header
  (payload, rest') ← read_exact declared rest
  ok (record { ty = ty; payload = payload }, rest')

unfoldable pub write_frame : Fault → List ℕ → Frame → Result AppError (List ℕ)
unfolding encode
write_frame fault writer frame =
    if ltb max_payload (length frame.payload)
    then err (protocol (new "payload too large"))
    else write_bytes fault writer (encode frame)

unfoldable pub write_message : Fault → List ℕ → MessageType → List ℕ → Result AppError (List ℕ)
unfolding write_frame
write_message fault writer ty payload =
    write_frame fault writer (record { ty = ty; payload = payload })

unfoldable pub write_error : Fault → List ℕ → ErrorCode → Result AppError (List ℕ)
unfolding write_message
write_error fault writer code = write_message fault writer error (to_be 2 (as_u16 code))
