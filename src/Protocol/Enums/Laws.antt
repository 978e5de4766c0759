-- ===== src/Protocol/Enums/Laws.antt =====
-- src/protocol.rs: the enumerations and their numbers.
use tunlet.Prelude.{ℕ, ◌≡◌, refl, arith, ◌<◌, ◌≤◌, true, ◌||◌, ◌&&◌, ◌↔◌}
use tunlet.Error.{ok}
use tunlet.Protocol.Enums.{
  Kind, kind_as_u8, kind_from_u8, MessageType, type_as_u8, type_from_u8, payload_len, is_control,
  is_data, Mode, mode_as_u8, mode_from_u8, OpenFailure, failure_as_u8, failure_from_u8, max_payload,
}

pub kind_from_u8-kind_as_u8 : (k : Kind) → kind_from_u8 (kind_as_u8 k) ≡ ok k
unfolding kind_from_u8 kind_as_u8
kind_from_u8-kind_as_u8 Kind.control = refl
kind_from_u8-kind_as_u8 _ = refl

pub kind_of_from_u8 : (n : ℕ) (k : Kind) → kind_from_u8 n ≡ ok k → kind_as_u8 k ≡ n
unfolding kind_from_u8 kind_as_u8
kind_of_from_u8 n k e = ground arith

pub type_from_u8-type_as_u8 : (t : MessageType) → type_from_u8 (type_as_u8 t) ≡ ok t
unfolding type_from_u8 type_as_u8
type_from_u8-type_as_u8 MessageType.ping = refl
type_from_u8-type_as_u8 _ = refl

pub type_of_from_u8 : (n : ℕ) (t : MessageType) → type_from_u8 n ≡ ok t → type_as_u8 t ≡ n
unfolding type_from_u8 type_as_u8
type_of_from_u8 n t e = ground arith

pub mode_from_u8-mode_as_u8 : (m : Mode) → mode_from_u8 (mode_as_u8 m) ≡ ok m
unfolding mode_from_u8 mode_as_u8
mode_from_u8-mode_as_u8 Mode.fresh = refl
mode_from_u8-mode_as_u8 _ = refl

pub mode_of_from_u8 : (n : ℕ) (m : Mode) → mode_from_u8 n ≡ ok m → mode_as_u8 m ≡ n
unfolding mode_from_u8 mode_as_u8
mode_of_from_u8 n m e = ground arith

pub failure_from_u8-failure_as_u8 : (f : OpenFailure) → failure_from_u8 (failure_as_u8 f) ≡ ok f
unfolding failure_from_u8 failure_as_u8
failure_from_u8-failure_as_u8 OpenFailure.data_auth = refl
failure_from_u8-failure_as_u8 _ = refl

pub failure_of_from_u8 : (n : ℕ) (f : OpenFailure) → failure_from_u8 n ≡ ok f → failure_as_u8 f ≡ n
unfolding failure_from_u8 failure_as_u8
failure_of_from_u8 n f e = ground arith

-- Every payload fits the protocol's maximum.
pub payload_len-le : (t : MessageType) → payload_len t ≤ max_payload
unfolding payload_len
payload_len-le MessageType.ping = omega arith
payload_len-le _ = omega arith

pub type_as_u8-lt : (t : MessageType) → type_as_u8 t < 256
unfolding type_as_u8
type_as_u8-lt MessageType.ping = omega arith
type_as_u8-lt _ = omega arith

-- Every message type is legal on control or on data connections, and exactly ERROR is legal on
-- both.
pub legal_once :
    (t : MessageType)
    → ((is_control t || is_data t) ≡ true)
      × (((is_control t && is_data t) ≡ true) ↔ (t ≡ MessageType.error))
unfolding is_control is_data
legal_once MessageType.error = (refl, (λ _. refl, λ _. refl))
legal_once _ = (refl, (λ e. cc, λ e. cc))
