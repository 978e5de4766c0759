-- ===== src/Protocol/Preamble.antt =====
-- src/protocol.rs: the eight bytes that open every connection.
use tunlet.Prelude.{
  ℕ, ◌≡◌, arith, ◌==◌, if◌then◌else◌, ◌||◌, not, List, [], ◌∷◌, ◌++◌, length, take, ite,
  take-append-drop,
}
use tunlet.Prelude.Bytes.{byte_at, bytes_discrete, drop-eq-bytes_from}
use tunlet.Error.{ProtocolError, Result, ok, err, new, with_code, unsupported_version}
use tunlet.Protocol.Enums.{Kind, kind_as_u8, kind_from_u8, magic, version, preamble_len}
use tunlet.Protocol.Enums.Laws.{kind_from_u8-kind_as_u8, kind_of_from_u8}

unfoldable pub encode_preamble : Kind → List ℕ
encode_preamble kind = magic ++ (version ∷ kind_as_u8 kind ∷ 0 ∷ 0 ∷ [])

unfoldable pub decode_preamble : List ℕ → Result ProtocolError Kind
unfolding bytes_discrete
decode_preamble bytes =
    ite (bytes_discrete (take 4 bytes) magic)
      (if not (byte_at bytes 4 == version)
        then err (with_code unsupported_version "unsupported protocol version")
        else if not (byte_at bytes 6 == 0) || not (byte_at bytes 7 == 0)
        then err (new "reserved bits must be zero")
        else kind_from_u8 (byte_at bytes 5))
      (err (new "bad magic"))

-- The preamble of a kind is decoded as that kind.
pub decode_preamble-encode_preamble : (k : Kind) → decode_preamble (encode_preamble k) ≡ ok k
unfolding decode_preamble encode_preamble
decode_preamble-encode_preamble k = kind_from_u8-kind_as_u8 k

-- Eight bytes that are decoded as a preamble are the encoding of the decoded kind.
pub encode_preamble_of_decode :
    (bytes : List ℕ) (k : Kind)
    → length bytes ≡ preamble_len
    → decode_preamble bytes ≡ ok k
    → encode_preamble k ≡ bytes
unfolding decode_preamble encode_preamble
encode_preamble_of_decode bytes k h e = ground (
  arith,
  kind_of_from_u8 (byte_at bytes 5) k,
  drop-eq-bytes_from 4 4 bytes h,
  take-append-drop 4 bytes,
)
