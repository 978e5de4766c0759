-- ===== src/Error.antt =====
-- src/error.rs: wire error codes, protocol errors, and the exit status of each application error.
-- Display texts are left out: a `detail` is kept as the literal that the code gives it.
pub mod Codes
use Prim.Native.String.{String}
use tunlet.Prelude.{
  ◌≡◌, ◌⊎◌, inl, inr, refl, ℕ, ◌==◌, if◌then◌else◌, Bool, true, false, Option, none, some,
}

pub data ErrorCode : Type 0 where
  auth_failed protocol_error unsupported_version invalid_port port_unavailable : ErrorCode
  no_port_available replaced server_busy request_unavailable internal_error : ErrorCode

-- `ErrorCode::from_u16`
unfoldable pub error_code_from_u16 : ℕ → Option ErrorCode
error_code_from_u16 value =
    if value == 1
    then some auth_failed
    else if value == 2
    then some protocol_error
    else if value == 3
    then some unsupported_version
    else if value == 4
    then some invalid_port
    else if value == 5
    then some port_unavailable
    else if value == 6
    then some no_port_available
    else if value == 7
    then some replaced
    else if value == 8
    then some server_busy
    else if value == 9
    then some request_unavailable
    else if value == 10
    then some internal_error
    else none

-- `ErrorCode::as_u16`: the discriminants of the enumeration.
unfoldable pub as_u16 : ErrorCode → ℕ
as_u16 auth_failed = 1
as_u16 protocol_error = 2
as_u16 unsupported_version = 3
as_u16 invalid_port = 4
as_u16 port_unavailable = 5
as_u16 no_port_available = 6
as_u16 replaced = 7
as_u16 server_busy = 8
as_u16 request_unavailable = 9
as_u16 internal_error = 10

-- `ErrorCode::is_fatal_for_client`
unfoldable pub is_fatal_for_client : ErrorCode → Bool
is_fatal_for_client server_busy = false
is_fatal_for_client _ = true

pub record ProtocolError : Type 0 where
  pub code : ErrorCode
  pub detail : String

-- `ProtocolError::new` and `ProtocolError::with_code`
abbrev pub new : String → ProtocolError
new detail = record { code = protocol_error; detail = detail }

abbrev pub with_code : ErrorCode → String → ProtocolError
with_code code detail = record { code = code; detail = detail }

-- The payload of `io` is the operating system's error, which the program only prints.
pub data AppError : Type 0 where
  cli config runtime io : String → AppError
  protocol : ProtocolError → AppError
  auth : AppError
  registration : ErrorCode → AppError

unfoldable pub exit_code : AppError → ℕ
exit_code (cli _) = 2
exit_code (config _) = 2
exit_code (protocol _) = 3
exit_code auth = 3
exit_code (registration _) = 3
exit_code (runtime _) = 1
exit_code (io _) = 1

-- `std::result::Result`, at one error type at a time.
pub data Result (E : Type 0) (A : Type 0) : Type 0 where
  ok : A → Result E A
  err : E → Result E A

infixl 5 ◌>>=◌ ◌>>◌
abbrev pub ◌>>=◌ : {E A B : Type 0} → Result E A → (A → Result E B) → Result E B
ok a >>= f = f a
err e >>= f = err e

abbrev pub ◌>>◌ : {E B : Type 0} → Result E (Unit {0}) → Result E B → Result E B
m >> k = m >>= λ _. k

-- `?` where the function returns the application's error type.
abbrev pub lift : {A : Type 0} → Result ProtocolError A → Result AppError A
lift (ok a) = ok a
lift (err e) = err (protocol e)

-- Case analysis of a chain that succeeds.
pub >>=-eq-ok {ℓ} :
    {E A B : Type 0} {C : Type ℓ} (m : Result E A) (f : A → Result E B) {b : B}
    → (m >>= f) ≡ ok b
    → ((a : A) → m ≡ ok a → f a ≡ ok b → C)
    → C
>>=-eq-ok (ok a) f h k = k a refl h
>>=-eq-ok (err e) f h k = absurd (cc)

-- Case analysis of a result.
pub Result-cases :
    {E A : Type 0} (r : Result E A) → ((a : A) × (r ≡ ok a)) ⊎ ((e : E) × (r ≡ err e))
Result-cases (ok a) = inl (a, refl)
Result-cases (err e) = inr (e, refl)
