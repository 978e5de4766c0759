-- ===== src/Control/Writer.antt =====
-- src/server/control.rs: the writer's and the reader's task of a control connection.
use tunlet.Prelude.{none}
use tunlet.Prelude.{
  ℕ, zero, suc, ◌≡◌, refl, sym, ap, ◌∙◌, arith, Bool, true, false, List, [], ◌∷◌, ◌++◌, map, length,
  append_assoc, append-nil, All,
}
use tunlet.Error.{AppError, io, Result, ok, err, lift, ◌>>◌}
use tunlet.Protocol.Enums.{Kind, is_control}
use tunlet.Protocol.Frame
use tunlet.Protocol.Frame.{Frame, require_kind, read_frame, read_exact, write_frame}
use tunlet.Protocol.Frame.Laws as FrameLaws
use tunlet.Protocol.Exchange.Laws.{write_frame_ok}
use tunlet.Registry.State.{Outbound, frame, close_after_flush}

-- `writer_loop`: what is written, from a queue that ends when all senders are gone. `writable`
-- tells whether the socket takes a frame before the deadline.
unfoldable pub writer_loop : (Frame → Bool) → List Outbound → List ℕ → List ℕ
writer_loop writable [] written = written
writer_loop writable (close_after_flush ∷ outbound) written = written
writer_loop writable (frame f ∷ outbound) written = elim (writable f) [
  | false ↦ written
  | true ↦ elim (write_frame none written f) [
    | err _ ↦ written
    | ok w ↦ writer_loop writable outbound w
  ]
]

abbrev checked : Frame → Result AppError Frame
checked f = lift (require_kind f Kind.control) >> ok f

-- `read_frames`, as long as it is not cancelled and its results are taken: up to the first frame
-- that cannot be read. An illegal frame is reported, and the next one is read.
unfoldable pub read_frames : ℕ → List ℕ → List (Result AppError Frame)
read_frames zero reader = []
read_frames (suc fuel) reader = elim (read_frame reader) [
  | err e ↦ err e ∷ []
  | ok (f, rest) ↦ checked f ∷ read_frames fuel rest
]

-- The frames, one encoding behind the other.
unfoldable encodings : List Frame → List ℕ
encodings [] = []
encodings (f ∷ fs) = Frame.encode f ++ encodings fs

-- A frame that is legal on a control connection and has the payload of its type.
abbrev pub IsSendable : Frame → Type 0
IsSendable f = FrameLaws.IsValid f × (is_control f.ty ≡ true)

writes_encodings :
    (writable : Frame → Bool) (fs : List Frame) (behind : List Outbound) (written : List ℕ)
    → ((f : Frame) → writable f ≡ true)
    → All IsSendable fs
    → writer_loop writable (map frame fs ++ (close_after_flush ∷ behind)) written
      ≡ written ++ encodings fs
unfolding writer_loop encodings
writes_encodings writable [] behind written takes h = sym (append-nil written)
writes_encodings writable (f ∷ fs) behind written takes (hf, h) =
    rw (takes f, write_frame_ok written f hf.0)
      (writes_encodings writable fs behind (written ++ Frame.encode f) takes h
        ∙ append_assoc written (Frame.encode f) (encodings fs))

read_one :
    (fuel : ℕ) (f : Frame) (rest : List ℕ)
    → IsSendable f
    → read_frames (suc fuel) (Frame.encode f ++ rest) ≡ ok f ∷ read_frames fuel rest
unfolding read_frames require_kind
read_one fuel f rest (v, legal) =
    rw (FrameLaws.read_frame-encode f rest v, read_frames) (ground arith)

read_end : read_frames 1 [] ≡ err (io "unexpected end of file") ∷ []
unfolding read_frames read_frame read_exact
read_end = refl

reads_encodings :
    (fs : List Frame)
    → All IsSendable fs
    → read_frames (suc (length fs)) (encodings fs)
      ≡ map ok fs ++ (err (io "unexpected end of file") ∷ [])
unfolding encodings
reads_encodings [] h = read_end
reads_encodings (f ∷ fs) (hf, h) =
    read_one (suc (length fs)) f (encodings fs) hf ∙ ap (λ l. ok f ∷ l) (reads_encodings fs h)

-- If the socket takes every frame, then the frames that are queued before the close, each legal on
-- a control connection and with the payload of its type, are what a reader of the written bytes
-- gets, in their order, and after them the end of the stream; nothing behind the close is written.
pub writer_loop_delivers :
    (writable : Frame → Bool) (fs : List Frame) (behind : List Outbound)
    → ((f : Frame) → writable f ≡ true)
    → All IsSendable fs
    → read_frames
        (suc (length fs))
        (writer_loop writable (map frame fs ++ (close_after_flush ∷ behind)) [])
      ≡ map ok fs ++ (err (io "unexpected end of file") ∷ [])
writer_loop_delivers writable fs behind takes h =
    ap (read_frames (suc (length fs))) (writes_encodings writable fs behind [] takes h)
    ∙ reads_encodings fs h
