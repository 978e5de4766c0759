-- ===== src/Protocol/Frame/Laws.antt =====
-- src/protocol.rs: frames on a stream of bytes.
use native.Mathlib.Nat.{mod-eq_of_lt}
use tunlet.Prelude.{
  ℕ, ◌≡◌, arith, List, [], ◌∷◌, ◌++◌, length, length-append, take-append_self, drop-append_self,
  take-append-drop, append_assoc, All-prefix, length-take, ◌^◌,
}
use tunlet.Prelude.Bytes.{
  byte_at, byte_at-lt, to_be, IsByte, IsBytes, drop-eq-bytes_from, from_be-to_be, to_be-from_be,
  length-to_be,
}
use tunlet.Error.{ok, >>=-eq-ok}
use tunlet.Protocol.Enums.{MessageType, type_as_u8, payload_len, header_len}
use tunlet.Protocol.Enums.Laws.{type_from_u8-type_as_u8, type_of_from_u8, payload_len-le}
use tunlet.Protocol.Frame.{Frame, encode, read_exact, read_header, read_frame}

-- A frame that carries the payload its type asks for.
abbrev pub IsValid : Frame → Type 0
IsValid f = length f.payload ≡ payload_len f.ty

pub read_exact-append :
    (n : ℕ) (xs ys : List ℕ) → length xs ≡ n → read_exact n (xs ++ ys) ≡ ok (xs, ys)
unfolding read_exact
read_exact-append n xs ys e =
    ground (arith, length-append xs ys, take-append_self n xs ys e, drop-append_self n xs ys e)

pub read_exact_of_ok :
    (n : ℕ) (reader xs rest : List ℕ)
    → read_exact n reader ≡ ok (xs, rest)
    → (xs ++ rest ≡ reader) × (length xs ≡ n)
unfolding read_exact
read_exact_of_ok n reader xs rest e =
    ground (arith, take-append-drop n reader, length-take n reader)

header : MessageType → List ℕ
header ty = type_as_u8 ty ∷ to_be 2 (payload_len ty)

length-header : (ty : MessageType) → length (header ty) ≡ header_len
unfolding header
length-header ty = omega (arith, length-to_be 2 (payload_len ty))

encode-header : (f : Frame) → IsValid f → encode f ≡ header f.ty ++ f.payload
unfolding encode header
encode-header f v =
    rw (v, mod-eq_of_lt {n = payload_len f.ty} {m = 2 ^ 16} (omega (arith, payload_len-le f.ty)))

read_header-header : (ty : MessageType) → read_header (header ty) ≡ ok (ty, payload_len ty)
unfolding read_header header
read_header-header ty = ground (
  arith,
  length-header ty,
  drop-eq-bytes_from 0 3 (header ty),
  from_be-to_be 2 (payload_len ty),
  payload_len-le ty,
  type_from_u8-type_as_u8 ty,
)

read_header_of_ok :
    (h : List ℕ) (ty : MessageType) (n : ℕ)
    → length h ≡ header_len
    → IsBytes h
    → read_header h ≡ ok (ty, n)
    → (h ≡ header ty) × (n ≡ payload_len ty)
unfolding read_header header
read_header_of_ok h ty n size bytes e =
    let length_bytes : List ℕ = byte_at h 1 ∷ byte_at h 2 ∷ [] in
    ground (
      arith,
      type_of_from_u8 (byte_at h 0) ty,
      drop-eq-bytes_from 0 3 h size,
      to_be-from_be length_bytes (byte_at-lt h 1 bytes, (byte_at-lt h 2 bytes, tt)),
    )

-- A frame that carries the payload length of its type is read back from its encoding, and the
-- bytes behind it are left in the stream.
pub read_frame-encode :
    (f : Frame) (rest : List ℕ) → IsValid f → read_frame (encode f ++ rest) ≡ ok (f, rest)
unfolding read_frame
read_frame-encode f rest v = rw (
  encode-header f v,
  append_assoc,
  read_exact-append 3 (header f.ty) (f.payload ++ rest) (length-header f.ty),
  read_header-header f.ty,
  read_exact-append (payload_len f.ty) f.payload rest v,
)

-- A frame that is read from a stream of bytes carries the payload length of its type, and the
-- stream is its encoding followed by what is left to read.
pub encode_of_read_frame :
    (reader rest : List ℕ) (f : Frame)
    → IsBytes reader
    → read_frame reader ≡ ok (f, rest)
    → (reader ≡ encode f ++ rest) × IsValid f
unfolding read_frame
encode_of_read_frame reader rest f bytes e =
    >>=-eq-ok (read_exact header_len reader) _ e λ (h, behind) e1 k1.
      >>=-eq-ok (read_header h) _ k1 λ (ty, n) e2 k2.
        >>=-eq-ok (read_exact n behind) _ k2 λ (payload, rest') e3 k3.
          let (split1, size1) = read_exact_of_ok header_len reader h behind e1 in
          let (split2, size2) = read_exact_of_ok n behind payload rest' e3 in
          let h_bytes = All-prefix IsByte h behind (rw split1 bytes) in
          let (eq_h, eq_n) = read_header_of_ok h ty n size1 h_bytes e2 in
          ground (
            arith,
            split1,
            split2,
            size2,
            eq_h,
            eq_n,
            k3,
            encode-header (record { ty = ty; payload = payload }),
            append_assoc h payload rest',
          )
