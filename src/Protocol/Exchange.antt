-- ===== src/Protocol/Exchange.antt =====
-- src/protocol.rs: a frame that is read in a handshake, as the handlers of src/server and
-- src/client read it.
pub mod Laws
use tunlet.Prelude.{ℕ, if◌then◌else◌, Option, none, some, List, ◌++◌}
use Prim.Native.String.{String}
use tunlet.Error.{ErrorCode, ProtocolError, AppError, protocol, Result, ok, err, ◌>>=◌, ◌>>◌, lift}
use tunlet.Protocol.Enums.{Kind, MessageType, error}
use tunlet.Protocol.Small.{decode_error}
use tunlet.Protocol.Frame
use tunlet.Protocol.Frame.{Frame, require_kind, require_type, read_frame, type_eq}

-- `auth::random`, with `none` for a failure of the system's source.
abbrev pub random : Option (List ℕ) → Result AppError (List ℕ)
random none = err (AppError.runtime "operating-system entropy unavailable")
random (some bytes) = ok bytes

-- The bytes of a frame.
abbrev pub framed : MessageType → List ℕ → List ℕ
framed ty payload = Frame.encode (record { ty = ty; payload = payload })

-- `read_frame`, `require_kind` and `require_type`.
unfoldable pub expect : Kind → MessageType → List ℕ → Result AppError (Frame × List ℕ)
expect kind ty reader = do
  (frame, rest) ← read_frame reader
  lift (require_kind frame kind)
  lift (require_type frame ty)
  ok (frame, rest)

-- `map_err`
abbrev pub map_err : {E F A : Type 0} → (E → F) → Result E A → Result F A
map_err f (ok a) = ok a
map_err f (err e) = err (f e)

-- The same for a client, which takes an ERROR frame for a refusal. The errors of the transport,
-- of the protocol and of the peer are turned into those of the handshake.
module _ {F : Type 0} (transport fatal : AppError → F) (refused : ErrorCode → F) where
  unfoldable pub answer : Kind → MessageType → List ℕ → Result F (Frame × List ℕ)
  answer kind ty reader = do
    (frame, rest) ← map_err transport (read_frame reader)
    map_err fatal (lift (require_kind frame kind))
    (if type_eq frame.ty error
        then (map_err fatal (lift (decode_error frame.payload)) >>= λ code. err (refused code))
        else (map_err fatal (lift (require_type frame ty)) >> ok (frame, rest)))
