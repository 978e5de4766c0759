-- ===== src/Protocol/Enums.antt =====
-- src/protocol.rs: the constants and the enumerations Kind, Type, Mode and OpenFailure.
pub mod Laws
use tunlet.Prelude.{ℕ, ◌==◌, if◌then◌else◌, Bool, true, false, List, [], ◌∷◌, ◌+◌}
use tunlet.Error.{ProtocolError, Result, ok, err, new}

-- "TTUN"
abbrev pub magic : List ℕ
magic = b'T' ∷ b'T' ∷ b'U' ∷ b'N' ∷ []

abbrev pub version : ℕ
version = 1

abbrev pub max_payload : ℕ
max_payload = 1024

abbrev pub preamble_len : ℕ
preamble_len = 8

abbrev pub header_len : ℕ
header_len = 3

abbrev pub InstanceId : Type 0
InstanceId = List ℕ

abbrev pub SessionId : Type 0
SessionId = List ℕ

abbrev pub RequestId : Type 0
RequestId = List ℕ

abbrev pub Nonce : Type 0
Nonce = List ℕ

abbrev pub Mac : Type 0
Mac = List ℕ

pub data Kind : Type 0 where
  control data_kind : Kind

unfoldable pub kind_as_u8 : Kind → ℕ
kind_as_u8 control = 1
kind_as_u8 data_kind = 2

-- `Kind::from_u8`
unfoldable pub kind_from_u8 : ℕ → Result ProtocolError Kind
kind_from_u8 value =
    if value == 1
    then ok control
    else if value == 2
    then ok data_kind
    else err (new "invalid connection kind")

-- The enumeration `Type`; the word is taken here.
pub data MessageType : Type 0 where
  control_hello control_challenge control_proof registered open_request open_failed : MessageType
  ping pong goodbye goodbye_ack server_shutdown : MessageType
  data_hello data_challenge data_proof data_ready error : MessageType

unfoldable pub type_as_u8 : MessageType → ℕ
type_as_u8 control_hello = 0x01
type_as_u8 control_challenge = 0x02
type_as_u8 control_proof = 0x03
type_as_u8 registered = 0x04
type_as_u8 open_request = 0x05
type_as_u8 open_failed = 0x06
type_as_u8 ping = 0x07
type_as_u8 pong = 0x08
type_as_u8 goodbye = 0x09
type_as_u8 goodbye_ack = 0x0a
type_as_u8 server_shutdown = 0x0b
type_as_u8 data_hello = 0x20
type_as_u8 data_challenge = 0x21
type_as_u8 data_proof = 0x22
type_as_u8 data_ready = 0x23
type_as_u8 error = 0x7f

-- `Type::from_u8`
unfoldable pub type_from_u8 : ℕ → Result ProtocolError MessageType
type_from_u8 value =
    if value == 0x01
    then ok control_hello
    else if value == 0x02
    then ok control_challenge
    else if value == 0x03
    then ok control_proof
    else if value == 0x04
    then ok registered
    else if value == 0x05
    then ok open_request
    else if value == 0x06
    then ok open_failed
    else if value == 0x07
    then ok ping
    else if value == 0x08
    then ok pong
    else if value == 0x09
    then ok goodbye
    else if value == 0x0a
    then ok goodbye_ack
    else if value == 0x0b
    then ok server_shutdown
    else if value == 0x20
    then ok data_hello
    else if value == 0x21
    then ok data_challenge
    else if value == 0x22
    then ok data_proof
    else if value == 0x23
    then ok data_ready
    else if value == 0x7f
    then ok error
    else err (new "unknown message type")

-- `Type::payload_len`
unfoldable pub payload_len : MessageType → ℕ
payload_len control_hello = 51
payload_len control_challenge = 80
payload_len control_proof = 32
payload_len registered = 38
payload_len open_request = 16
payload_len open_failed = 17
payload_len ping = 8
payload_len pong = 8
payload_len goodbye = 0
payload_len goodbye_ack = 0
payload_len server_shutdown = 0
payload_len data_ready = 0
payload_len data_hello = 64
payload_len data_challenge = 64
payload_len data_proof = 32
payload_len error = 2

-- `Type::is_control`
unfoldable pub is_control : MessageType → Bool
is_control control_hello = true
is_control control_challenge = true
is_control control_proof = true
is_control registered = true
is_control open_request = true
is_control open_failed = true
is_control ping = true
is_control pong = true
is_control goodbye = true
is_control goodbye_ack = true
is_control server_shutdown = true
is_control error = true
is_control _ = false

-- `Type::is_data`
unfoldable pub is_data : MessageType → Bool
is_data data_hello = true
is_data data_challenge = true
is_data data_proof = true
is_data data_ready = true
is_data error = true
is_data _ = false

pub data Mode : Type 0 where
  fresh resume : Mode

unfoldable pub mode_as_u8 : Mode → ℕ
mode_as_u8 fresh = 0
mode_as_u8 resume = 1

-- `Mode::from_u8`
unfoldable pub mode_from_u8 : ℕ → Result ProtocolError Mode
mode_from_u8 value =
    if value == 0
    then ok fresh
    else if value == 1
    then ok resume
    else err (new "invalid registration mode")

pub data OpenFailure : Type 0 where
  target_connect setup_timeout data_auth local_capacity : OpenFailure

unfoldable pub failure_as_u8 : OpenFailure → ℕ
failure_as_u8 target_connect = 1
failure_as_u8 setup_timeout = 2
failure_as_u8 data_auth = 3
failure_as_u8 local_capacity = 4

-- `OpenFailure::from_u8`
unfoldable pub failure_from_u8 : ℕ → Result ProtocolError OpenFailure
failure_from_u8 value =
    if value == 1
    then ok target_connect
    else if value == 2
    then ok setup_timeout
    else if value == 3
    then ok data_auth
    else if value == 4
    then ok local_capacity
    else err (new "invalid OPEN_FAILED reason")
