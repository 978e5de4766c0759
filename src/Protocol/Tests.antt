-- ===== src/Protocol/Tests.antt =====
-- src/protocol.rs: messages as examples.
use tunlet.Prelude.{◌≡◌, refl, arith, [], ◌∷◌, ◌++◌, length, replicate}
use tunlet.Prelude.Bytes.{IsBytes-of_small, to_be, IsBytes}
use tunlet.Error.{ok}
use tunlet.Protocol.Enums.{Kind, resume, mode_as_u8, MessageType, type_as_u8, payload_len}
use tunlet.Protocol.Preamble.{encode_preamble}
use tunlet.Protocol.ControlHello
use tunlet.Protocol.ControlHello.{ControlHello}
use tunlet.Protocol.ControlChallenge
use tunlet.Protocol.ControlChallenge.{ControlChallenge}
use tunlet.Protocol.Registered
use tunlet.Protocol.Registered.{Registered}
use tunlet.Protocol.DataHello
use tunlet.Protocol.DataHello.{DataHello}
use tunlet.Protocol.Frame
use tunlet.Protocol.Frame.{Frame, read_frame}
use tunlet.Protocol.Frame.Laws as FrameLaws
use tunlet.Protocol.Frame.Laws.{read_frame-encode, encode_of_read_frame}

abbrev hello : ControlHello
hello = record {
  instance_id = replicate 16 1;
  client_nonce = replicate 32 2;
  mode = resume;
  requested_port = 30000;
}

hello-IsValid : ControlHello.IsValid hello
hello-IsValid = record {
  instance_size = refl;
  nonce_size = refl;
  port_range = omega arith;
  port_allowed = omega arith;
}

hello-IsBytes : IsBytes (ControlHello.encode hello)
unfolding ControlHello.encode to_be mode_as_u8
hello-IsBytes = IsBytes-of_small (ControlHello.encode hello) refl

abbrev challenge : ControlChallenge
challenge = record {
  server_nonce = replicate 32 3;
  session_id = replicate 16 4;
  server_mac = replicate 32 5;
}

challenge-IsValid : ControlChallenge.IsValid challenge
challenge-IsValid = record {
  server_nonce_size = refl;
  session_id_size = refl;
  server_mac_size = refl;
}

abbrev answer : Registered
answer = record { assigned_port = 30000; max_connections = 70000; ready_mac = replicate 32 6 }

answer-IsValid : Registered.IsValid answer
answer-IsValid = record {
  port_low = omega arith;
  port_high = omega arith;
  max_low = omega arith;
  max_high = omega arith;
  mac_size = refl;
}

answer-IsBytes : IsBytes (Registered.encode answer)
unfolding Registered.encode to_be
answer-IsBytes = IsBytes-of_small (Registered.encode answer) refl

abbrev data_opening : DataHello
data_opening = record {
  session_id = replicate 16 4;
  request_id = replicate 16 7;
  client_nonce = replicate 32 8;
}

data_opening-IsValid : DataHello.IsValid data_opening
data_opening-IsValid = record {
  session_id_size = refl;
  request_id_size = refl;
  client_nonce_size = refl;
}

preamble_bytes : length (encode_preamble Kind.control) ≡ 8
unfolding encode_preamble
preamble_bytes = refl

read_frame-encode_example :
    read_frame (Frame.encode (Frame.empty MessageType.goodbye) ++ (5 ∷ []))
    ≡ ok (Frame.empty MessageType.goodbye, 5 ∷ [])
unfolding payload_len
read_frame-encode_example = read_frame-encode (Frame.empty MessageType.goodbye) (5 ∷ []) refl

goodbye-IsBytes : IsBytes (Frame.encode (Frame.empty MessageType.goodbye) ++ (5 ∷ []))
unfolding Frame.encode to_be type_as_u8
goodbye-IsBytes = IsBytes-of_small (Frame.encode (Frame.empty MessageType.goodbye) ++ (5 ∷ [])) refl

encode_of_read_frame_example :
    (Frame.encode (Frame.empty MessageType.goodbye) ++ (5 ∷ [])
      ≡ Frame.encode (Frame.empty MessageType.goodbye) ++ (5 ∷ []))
    × FrameLaws.IsValid (Frame.empty MessageType.goodbye)
encode_of_read_frame_example =
    encode_of_read_frame (Frame.encode (Frame.empty MessageType.goodbye) ++ (5 ∷ [])) (5 ∷ [])
      (Frame.empty MessageType.goodbye) goodbye-IsBytes read_frame-encode_example
