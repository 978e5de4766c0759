-- ===== src/Error/Codes.antt =====
-- src/error.rs: error codes and their numbers.
use tunlet.Prelude.{ℕ, ◌≡◌, refl, some, arith, ◌<◌}
use tunlet.Error.{ErrorCode, error_code_from_u16, as_u16}

-- A code is read back from the number that is sent for it.
pub from_u16-as_u16 : (c : ErrorCode) → error_code_from_u16 (as_u16 c) ≡ some c
unfolding error_code_from_u16 as_u16
from_u16-as_u16 ErrorCode.auth_failed = refl
from_u16-as_u16 _ = refl

-- A number that is read as an error code is the number of that code.
pub as_u16_of_from_u16 : (n : ℕ) (c : ErrorCode) → error_code_from_u16 n ≡ some c → as_u16 c ≡ n
unfolding error_code_from_u16 as_u16
as_u16_of_from_u16 n c e = ground arith

pub as_u16-lt : (c : ErrorCode) → as_u16 c < 65536
unfolding as_u16
as_u16-lt ErrorCode.auth_failed = omega arith
as_u16-lt _ = omega arith
