-- ===== src/Protocol/Exchange/Laws.antt =====
-- src/protocol.rs: the frames of a handshake and the stream that they are read from.
use tunlet.Prelude.{refl}
use tunlet.Protocol.Preamble.{encode_preamble}
use tunlet.Protocol.Frame.{Fault, write_preamble}
use tunlet.Prelude.{
  sym, ap, ◌∙◌, ◌∷◌, ◌%◌, ◌^◌, All-prefix, ℕ, ◌≡◌, ◌≢◌, arith, true, false, Option, none, some,
  List, ◌++◌, length, [], Bool-cases, inl, inr,
}
use tunlet.Prelude.Bytes.{IsBytes, IsByte, to_be}
use tunlet.Error.{ErrorCode, ProtocolError, AppError, Result, ok, err, lift}
use tunlet.Protocol.Enums.{Kind, MessageType, error, type_from_u8}
use tunlet.Protocol.Enums.Laws.{type_from_u8-type_as_u8, payload_len-le}
use tunlet.Protocol.Frame
use tunlet.Protocol.Frame.{Frame, require_kind, require_type, read_frame, write_frame, type_eq}
use tunlet.Protocol.Frame.Laws as FrameLaws
use tunlet.Protocol.Exchange.{random, framed, expect, answer}

pub type_eq_sound : (a b : MessageType) → type_eq a b ≡ true → a ≡ b
unfolding type_eq
type_eq_sound a b e =
    ok_inj
      (sym (type_from_u8-type_as_u8 a) ∙ ap type_from_u8 (ground arith) ∙ type_from_u8-type_as_u8 b)
  where
    ok_inj : {x y : MessageType} → ◌≡◌ {A = Result ProtocolError MessageType} (ok x) (ok y) → x ≡ y
    ok_inj e = cc

type_eq_refl : (a : MessageType) → type_eq a a ≡ true
unfolding type_eq
type_eq_refl a = ground arith

type_ne : (a b : MessageType) → a ≢ b → type_eq a b ≡ false
type_ne a b ne = elim (Bool-cases (type_eq a b)) [
  | inl e ↦ absurd (ne (type_eq_sound a b e))
  | inr e ↦ e
]

IsBytes-suffix : (xs ys : List ℕ) → IsBytes (xs ++ ys) → IsBytes ys
IsBytes-suffix [] ys h = h
IsBytes-suffix (x ∷ xs) ys h = IsBytes-suffix xs ys h.1

payload-IsBytes : (f : Frame) → IsBytes (Frame.encode f) → IsBytes f.payload
unfolding Frame.encode
payload-IsBytes f h = IsBytes-suffix (to_be 2 (length f.payload % 2 ^ 16)) f.payload h.1

-- What a frame of an expected type tells of the stream that it was read from.
pub record Reads (ty : MessageType) (reader : List ℕ) (f : Frame) (rest : List ℕ) : Type 0 where
  pub split : reader ≡ framed ty f.payload ++ rest
  pub payload_bytes : IsBytes f.payload
  pub rest_bytes : IsBytes rest

pub reads :
    (ty : MessageType) (reader : List ℕ) (f : Frame) (rest : List ℕ)
    → IsBytes reader
    → read_frame reader ≡ ok (f, rest)
    → type_eq f.ty ty ≡ true
    → Reads ty reader f rest
reads ty reader f rest bytes read same =
    let (split, v) = FrameLaws.encode_of_read_frame reader rest f bytes read in
    let both : IsBytes (Frame.encode f ++ rest) = rw⁻¹ split bytes in
    record {
      split = split ∙ ap (λ t. framed t f.payload ++ rest) (type_eq_sound f.ty ty same);
      payload_bytes = payload-IsBytes f (All-prefix IsByte (Frame.encode f) rest both);
      rest_bytes = IsBytes-suffix (Frame.encode f) rest both;
    }

expect_of_ok :
    (kind : Kind) (ty : MessageType) (reader : List ℕ) (f : Frame) (rest : List ℕ)
    → expect kind ty reader ≡ ok (f, rest)
    → (read_frame reader ≡ ok (f, rest)) × (type_eq f.ty ty ≡ true)
unfolding expect require_type
expect_of_ok kind ty reader f rest e = ground arith

pub expect-Reads :
    (kind : Kind) (ty : MessageType) (reader : List ℕ) (f : Frame) (rest : List ℕ)
    → IsBytes reader
    → expect kind ty reader ≡ ok (f, rest)
    → Reads ty reader f rest
expect-Reads kind ty reader f rest bytes e =
    let (read, same) = expect_of_ok kind ty reader f rest e in
    reads ty reader f rest bytes read same

-- A frame that may be sent on a connection.
pub record Sendable (kind : Kind) (f : Frame) : Type 0 where
  pub size : FrameLaws.IsValid f
  pub legal : require_kind f kind ≡ ok tt

pub require_type_self : (f : Frame) → require_type f f.ty ≡ ok tt
unfolding require_type
require_type_self f = ground (arith, type_eq_refl f.ty)

pub expect-encode :
    (kind : Kind) (f : Frame) (rest : List ℕ)
    → Sendable kind f
    → expect kind f.ty (Frame.encode f ++ rest) ≡ ok (f, rest)
unfolding expect
expect-encode kind f rest s =
    rw (FrameLaws.read_frame-encode f rest s.size, s.legal, require_type_self f)

module _ {F : Type 0} (transport fatal : AppError → F) (refused : ErrorCode → F) where
  answer_of_ok :
      (kind : Kind) (ty : MessageType) (reader : List ℕ) (f : Frame) (rest : List ℕ)
      → answer transport fatal refused kind ty reader ≡ ok (f, rest)
      → (read_frame reader ≡ ok (f, rest)) × (type_eq f.ty ty ≡ true)
  unfolding answer require_type
  answer_of_ok kind ty reader f rest e = ground arith

  pub answer-Reads :
      (kind : Kind) (ty : MessageType) (reader : List ℕ) (f : Frame) (rest : List ℕ)
      → IsBytes reader
      → answer transport fatal refused kind ty reader ≡ ok (f, rest)
      → Reads ty reader f rest
  answer-Reads kind ty reader f rest bytes e =
      let (read, same) = answer_of_ok kind ty reader f rest e in
      reads ty reader f rest bytes read same

  pub answer-encode :
      (kind : Kind) (f : Frame) (rest : List ℕ)
      → Sendable kind f
      → f.ty ≢ error
      → answer transport fatal refused kind f.ty (Frame.encode f ++ rest) ≡ ok (f, rest)
  unfolding answer
  answer-encode kind f rest s ne = rw (
    FrameLaws.read_frame-encode f rest s.size,
    s.legal,
    type_ne f.ty error ne,
    require_type_self f,
  )

pub random_of_ok : (o : Option (List ℕ)) (x : List ℕ) → random o ≡ ok x → o ≡ some x
random_of_ok none x e = absurd (cc)
random_of_ok (some y) x e = ground arith

pub lift_of_ok : {A : Type 0} (r : Result ProtocolError A) (a : A) → lift r ≡ ok a → r ≡ ok a
lift_of_ok (ok x) a e = ground arith
lift_of_ok (err x) a e = absurd (cc)

pub write_preamble_of_ok :
    (fault : Fault) (written : List ℕ) (k : Kind) (w : List ℕ)
    → write_preamble fault written k ≡ ok w
    → w ≡ written ++ encode_preamble k
unfolding write_preamble
write_preamble_of_ok fault written k w e = ground arith

pub write_preamble_ok :
    (written : List ℕ) (k : Kind)
    → write_preamble none written k ≡ ok (written ++ encode_preamble k)
unfolding write_preamble
write_preamble_ok written k = refl

pub write_frame_of_ok :
    (fault : Fault) (written : List ℕ) (f : Frame) (w : List ℕ)
    → write_frame fault written f ≡ ok w
    → w ≡ written ++ Frame.encode f
unfolding write_frame
write_frame_of_ok fault written f w e = ground arith

pub write_frame_ok :
    (written : List ℕ) (f : Frame)
    → FrameLaws.IsValid f
    → write_frame none written f ≡ ok (written ++ Frame.encode f)
unfolding write_frame
write_frame_ok written f v = ground (arith, payload_len-le f.ty)
