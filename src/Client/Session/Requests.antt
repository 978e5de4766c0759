-- ===== src/Client/Session/Requests.antt =====
-- src/client/control.rs: what becomes of the requests of a session.
use tunlet.Prelude.{
  ℕ, zero, suc, ◌≡◌, refl, sym, subst, arith, ◌+◌, Bool, true, List, [], ◌∷◌, ◌++◌, append_assoc,
  inl, inr, length, length-append,
}
use tunlet.Prelude.Bytes.{length-slice}
use tunlet.Error.{ok, err, Result, Result-cases, ProtocolError}
use tunlet.Protocol.Enums.{MessageType, RequestId, OpenFailure}
use tunlet.Protocol.Small.{decode_request_id}
use tunlet.Protocol.OpenFailed
use tunlet.Protocol.OpenFailed.{OpenFailed}
use tunlet.Timing.{Timing}
use tunlet.Registry.State.{Outbound, outbound_frame}
use tunlet.Control.Session.{Heartbeat, initial}
use tunlet.Client.Session.{
  Live, Wake, stopped, finished, received, going, open_request, goodbye, turn, handle_frame,
  session_loop, run_session,
}
use tunlet.Client.Session.Laws.{Verdict-cases, permits-turn, finishes}

-- Every element of two lists, each in its own order.
pub data Merge {ℓ} {A : Type ℓ} : List A → List A → List A → Type ℓ where
  empty : Merge [] [] []
  left : {x : A} {xs ys zs : List A} → Merge xs ys zs → Merge (x ∷ xs) ys (x ∷ zs)
  right : {y : A} {xs ys zs : List A} → Merge xs ys zs → Merge xs (y ∷ ys) (y ∷ zs)

Merge-append {ℓ} :
    {A : Type ℓ} {xs ys zs xs' ys' zs' : List A}
    → Merge xs ys zs
    → Merge xs' ys' zs'
    → Merge (xs ++ xs') (ys ++ ys') (zs ++ zs')
Merge-append empty n = n
Merge-append (left m) n = left (Merge-append m n)
Merge-append (right m) n = right (Merge-append m n)

abbrev id_of : Result ProtocolError RequestId → List RequestId
id_of (ok request_id) = request_id ∷ []
id_of (err _) = []

-- The request that a wake-up asks for: an OPEN frame whose payload is an identifier.
unfoldable pub asks : Wake → List RequestId
asks (received (ok f)) = elim f.ty [
  | MessageType.open_request ↦ id_of (decode_request_id f.payload)
  | _ ↦ []
]
asks _ = []

unfoldable pub asked : List Wake → List RequestId
asked [] = []
asked (w ∷ ws) = asks w ++ asked ws

abbrev local : OpenFailure → RequestId → List RequestId
local OpenFailure.local_capacity request_id = request_id ∷ []
local _ _ = []

abbrev for_capacity : Result ProtocolError OpenFailed → List RequestId
for_capacity (ok m) = local m.reason m.request_id
for_capacity (err _) = []

-- The request that a message refuses: an OPEN_FAILED frame that the server's decoder reads as that
-- request and the lack of capacity.
unfoldable pub refuses : Outbound → List RequestId
refuses Outbound.close_after_flush = []
refuses (Outbound.frame f) = elim f.ty [
  | MessageType.open_failed ↦ for_capacity (OpenFailed.decode f.payload)
  | _ ↦ []
]

unfoldable pub refused : List Outbound → List RequestId
refused [] = []
refused (m ∷ ms) = refuses m ++ refused ms

Merge-none {ℓ} : {A : Type ℓ} {xs ys zs : List A} → xs ≡ [] → ys ≡ [] → zs ≡ [] → Merge xs ys zs
Merge-none {xs = []} {ys = []} {zs = []} e f g = empty
Merge-none {xs = x ∷ xs} e f g = absurd (cc)
Merge-none {xs = []} {ys = y ∷ ys} e f g = absurd (cc)
Merge-none {xs = []} {ys = []} {zs = z ∷ zs} e f g = absurd (cc)

refused-append : (xs ys : List Outbound) → refused (xs ++ ys) ≡ refused xs ++ refused ys
unfolding refused
refused-append [] ys = refl
refused-append (x ∷ xs) ys =
    rw (refused-append xs ys) (sym (append_assoc (refuses x) (refused xs) (refused ys)))

-- A queue with room for every message.
abbrev pub always : Outbound → Bool
always _ = true

-- A queue with room for every message, in each turn.
abbrev pub unbounded : ℕ → Outbound → Bool
unbounded _ = always

refuses_own :
    (request_id : RequestId)
    → length request_id ≡ 16
    → refuses (
        outbound_frame MessageType.open_failed (
          OpenFailed.encode
            (record { request_id = request_id; reason = OpenFailure.local_capacity })))
      ≡ request_id ∷ []
unfolding refuses
refuses_own request_id h =
    rw
      (OpenFailed.decode-encode_open_failed
        (record { request_id = request_id; reason = OpenFailure.local_capacity }) h)
      refl

open_merge :
    (beat : Heartbeat) (free : ℕ) (request_id : RequestId)
    → length request_id ≡ 16
    → Merge
        (open_request always (record { beat = beat; free = free }) request_id).started
        (refused (open_request always (record { beat = beat; free = free }) request_id).queued)
        (request_id ∷ [])
unfolding open_request refused
open_merge beat zero request_id h = rw (refuses_own request_id h) (right empty)
open_merge beat (suc free) request_id h = left empty

decoded_length :
    (payload : List ℕ) (request_id : RequestId)
    → decode_request_id payload ≡ ok request_id
    → length request_id ≡ 16
unfolding decode_request_id
decoded_length payload request_id e = ground (arith, length-slice 16 0 payload)

merge-frame :
    (live next : Live) (ty : MessageType) (payload : List ℕ)
    → (handle_frame always live (record { ty = ty; payload = payload })).verdict ≡ going next
    → Merge
        (handle_frame always live (record { ty = ty; payload = payload })).started
        (refused (handle_frame always live (record { ty = ty; payload = payload })).queued)
        (asks (received (ok (record { ty = ty; payload = payload }))))
unfolding handle_frame refused asks refuses
merge-frame live next MessageType.open_request payload =
    elim (Result-cases (decode_request_id payload)) [
      | inl (id, e) ↦
          rw (handle_frame, e)
            (λ h. open_merge live.beat live.free id (decoded_length payload id e))
      | inr (x, e) ↦ rw (handle_frame, e) (λ h. absurd (cc))
    ]
merge-frame live next MessageType.ping payload = λ e. Merge-none (ground arith) (ground arith) refl
merge-frame live next MessageType.pong payload = λ e. Merge-none (ground arith) (ground arith) refl
merge-frame live next MessageType.error payload = λ e. Merge-none (ground arith) (ground arith) refl
merge-frame live next MessageType.server_shutdown payload = λ e. absurd (cc)
merge-frame live next MessageType.goodbye_ack payload = λ e. empty
merge-frame live next MessageType.control_hello payload = λ e. absurd (cc)
merge-frame live next MessageType.control_challenge payload = λ e. absurd (cc)
merge-frame live next MessageType.control_proof payload = λ e. absurd (cc)
merge-frame live next MessageType.registered payload = λ e. absurd (cc)
merge-frame live next MessageType.open_failed payload = λ e. absurd (cc)
merge-frame live next MessageType.goodbye payload = λ e. absurd (cc)
merge-frame live next MessageType.data_hello payload = λ e. absurd (cc)
merge-frame live next MessageType.data_challenge payload = λ e. absurd (cc)
merge-frame live next MessageType.data_proof payload = λ e. absurd (cc)
merge-frame live next MessageType.data_ready payload = λ e. absurd (cc)

merge-turn :
    (timing : Timing) (live next : Live) (w : Wake)
    → (turn always timing live w).verdict ≡ going next
    → Merge
        (turn always timing live w).started
        (refused (turn always timing live w).queued)
        (asks w)
unfolding turn goodbye refused asks refuses
merge-turn timing live next (received (ok f)) e = merge-frame live next f.ty f.payload e
merge-turn timing live next (received (err x)) e = absurd (cc)
merge-turn timing live next stopped e = absurd (cc)
merge-turn timing live next Wake.cancelled e = absurd (cc)
merge-turn timing live next Wake.closed e = absurd (cc)
merge-turn timing live next Wake.overdue e = Merge-none (ground arith) (ground arith) refl
merge-turn timing live next finished e = empty
merge-turn timing live next (Wake.tick now) e = Merge-none (ground arith) (ground arith) refl

merge-session_loop :
    (timing : Timing) (live last : Live) (wakes : List Wake)
    → (session_loop unbounded timing live wakes).verdict ≡ going last
    → Merge
        (session_loop unbounded timing live wakes).started
        (refused (session_loop unbounded timing live wakes).queued)
        (asked wakes)
      × (length (session_loop unbounded timing live wakes).started + last.free
          ≡ live.free + finishes wakes)
unfolding session_loop finishes asked refused
merge-session_loop timing live last [] = λ e. (empty, ground arith)
merge-session_loop timing live last (w ∷ wakes) =
    elim (Verdict-cases (turn always timing live w).verdict) [
      | inr (a, e) ↦ rw e (λ h. absurd (ground arith))
      | inl (next, e) ↦
          let balance = permits-turn always timing live next w e in
          let answered = merge-turn timing live next w e in
          let later = merge-session_loop timing next last wakes in
          let now = turn always timing live w in
          let rest = session_loop unbounded timing next wakes in
          let starts = length-append now.started rest.started in
          rw e (λ h.
            let (opened, free) = later h in
            (
              subst (λ ids. Merge (now.started ++ rest.started) ids (asks w ++ asked wakes))
                  (sym (refused-append now.queued rest.queued)) (Merge-append answered opened),
              omega (arith, balance, starts, free),
            ))
    ]

-- While a client's session runs and its queue takes every message, the requests of the OPEN frames
-- that it received, in their order, are those whose data connections it started, in their order,
-- interleaved with those that its OPEN_FAILED frames refuse for the lack of capacity, in their
-- order; and the permits that are left, with one for each connection that was started, are the
-- maximum that the server granted and one for each connection that finished.
pub merge-run_session :
    (timing : Timing) (max : ℕ) (wakes : List Wake) (last : Live)
    → (run_session unbounded timing max wakes).verdict ≡ going last
    → Merge
        (run_session unbounded timing max wakes).started
        (refused (run_session unbounded timing max wakes).queued)
        (asked wakes)
      × (length (run_session unbounded timing max wakes).started + last.free ≡ max + finishes wakes)
unfolding run_session
merge-run_session timing max wakes last =
    merge-session_loop timing (record { beat = initial; free = max }) last wakes
