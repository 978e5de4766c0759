-- ===== src/Control/Tests.antt =====
-- src/server/control.rs: a handshake, a session and a queue as examples.
use tunlet.Prelude.{none}
use tunlet.Prelude.{
  ℕ, ◌≡◌, refl, arith, ◌≤◌, ◌+◌, Bool, true, false, some, List, [], ◌∷◌, ◌++◌, map, replicate, All,
}
use tunlet.Prelude.Bytes.{IsBytes, IsBytes-of_small, to_be}
use tunlet.Error.{io, ok, err}
use tunlet.Protocol.Enums.{
  MessageType, Mac, Nonce, SessionId, resume, payload_len, is_control, type_as_u8, mode_as_u8,
}
use tunlet.Protocol.ControlHello
use tunlet.Protocol.ControlHello.{ControlHello}
use tunlet.Protocol.Frame
use tunlet.Protocol.Frame.{Frame}
use tunlet.Timing
use tunlet.Auth.{mac, control_transcript}
use tunlet.Registry.State.{Registry, session_of, Outbound, frame, close_after_flush}
use tunlet.Registry.Invariant.{Inv}
use tunlet.Registry.Invariant.Step.{Reachable-Inv}
use tunlet.Registry.Tests.{env, id1, two, two-Reachable}
use tunlet.Registry.Ownership.{ports_of}
use tunlet.Control.Serve.{close_session}
use tunlet.Control.Serve.Laws.{Ended, left, close_session_ends}
use tunlet.Control.Handshake.{Authenticated, handshake}
use tunlet.Control.Handshake.Laws.{Proves, challenge_frame, handshake_sound}
use tunlet.Control.Handshake.Complete.{honest, handshake_complete}
use tunlet.Control.Session.{Wake, received, tick, ended, initial, session_loop, turn, handle_frame}
use tunlet.Protocol.Small.{decode_sequence}
use tunlet.Control.Session.Laws.{pings, pongs, waiting, pings-session_loop}
use tunlet.Control.Writer.{writer_loop, read_frames, IsSendable, writer_loop_delivers}

abbrev hello : ControlHello
hello = record {
  instance_id = replicate 16 1;
  client_nonce = replicate 32 2;
  mode = resume;
  requested_port = 30000;
}

hello-IsValid : ControlHello.IsValid hello
hello-IsValid = record {
  instance_size = refl;
  nonce_size = refl;
  port_range = omega arith;
  port_allowed = omega arith;
}

-- A function in the place of the HMAC.
abbrev constant : List ℕ → List ℕ → Mac
constant key message = replicate 32 9

abbrev key : List ℕ
key = 7 ∷ []

abbrev nonce : Nonce
nonce = replicate 32 3

abbrev session : SessionId
session = replicate 16 4

abbrev authenticated : Authenticated
authenticated = record {
  hello = hello;
  session_id = session;
  transcript = control_transcript hello nonce session;
}

abbrev stream : List ℕ
stream = honest constant key hello nonce session []

abbrev challenge : List ℕ
challenge = challenge_frame constant key (control_transcript hello nonce session) nonce session

handshake_complete_example :
    handshake constant key none (some nonce) (some session) stream
    ≡ ok (authenticated, [], challenge)
handshake_complete_example =
    handshake_complete constant key hello nonce session [] (λ k m. refl) hello-IsValid refl refl

stream-IsBytes : IsBytes stream
unfolding Frame.encode ControlHello.encode to_be mac type_as_u8 mode_as_u8
stream-IsBytes = IsBytes-of_small stream refl

handshake_sound_example :
    Proves constant key (some nonce) (some session) stream authenticated [] challenge
handshake_sound_example =
    handshake_sound constant key none (some nonce) (some session) stream [] challenge authenticated
      stream-IsBytes handshake_complete_example

abbrev wakes : List Wake
wakes =
    tick 20000
    ∷ (received (ok (record { ty = MessageType.pong; payload = to_be 8 1 }))
        ∷ (received (ok (Frame.empty MessageType.goodbye)) ∷ []))

abbrev accepts : ℕ → Outbound → Bool
accepts n message = true

pings-session_loop_example :
    pings (session_loop accepts Timing.default session initial wakes).queued + waiting initial
    ≤ pongs wakes + 1
pings-session_loop_example = pings-session_loop accepts Timing.default session initial wakes

leaves : (session_loop accepts Timing.default session initial wakes).verdict ≡ ended true
unfolding session_loop turn handle_frame decode_sequence to_be
leaves = refl

abbrev frames : List Frame
frames = Frame.empty MessageType.goodbye_ack ∷ []

frames-IsSendable : All IsSendable frames
unfolding payload_len is_control
frames-IsSendable = ((refl, refl), tt)

writer_loop_delivers_example :
    read_frames 2 (writer_loop (λ f. true) (map frame frames ++ (close_after_flush ∷ [])) [])
    ≡ ok (Frame.empty MessageType.goodbye_ack) ∷ (err (io "unexpected end of file") ∷ [])
writer_loop_delivers_example =
    writer_loop_delivers (λ f. true) frames [] (λ f. refl) frames-IsSendable

close_session_ends_example :
    (self' : Registry) × (close_session env (some two) id1 1 false ≡ some self')
    × Inv self'
    × Ended id1 1 self'
    × ((q : ℕ)
        → ports_of self' q ≡ left false (session_of two id1) 1 (2000 + 300000) (ports_of two) q)
close_session_ends_example = close_session_ends env two id1 1 false (Reachable-Inv two-Reachable)
