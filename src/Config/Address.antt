-- ===== src/Config/Address.antt =====
-- src/net.rs: the parsers of addresses. How the standard library reads an IP literal is the
-- parameter `parse_ip`.
pub mod Laws
use Prim.Native.String.{String}
use tunlet.Prelude.{
  ℕ, ◌^◌, ltb, ◌==◌, if◌then◌else◌, Bool, not, ◌||◌, Option, none, some, List, [], ◌∷◌, ◌++◌,
}
use tunlet.Prelude.Bytes.{ascii}
use tunlet.Error.{AppError, config, Result, ok, err, ◌>>=◌}
use tunlet.Config.{IpAddr, SocketAddr}
use tunlet.Config.Text.{Text, contains, split_once, rsplit_once, strip_prefix, trim, parse_unsigned}

pub record Endpoint : Type 0 where
  pub host : Text
  pub port : ℕ

-- `ok_or_else` and `map_err`, with the text of the error.
abbrev pub or_error : {A : Type 0} → String → Option A → Result AppError A
or_error text none = err (config text)
or_error text (some a) = ok a

-- A bare IPv6 literal without brackets has more than one colon.
abbrev one_colon : Text × Text → Option (Text × Text)
one_colon (host, port) = if contains b':' host then none else some (host, port)

abbrev behind_bracket : Text × Text → Option (Text × Text)
behind_bracket (host, tail) = elim (strip_prefix b':' tail) [
  | none ↦ none
  | some port ↦ some (host, port)
]

unfoldable pub split_host_port : Text → Option (Text × Text)
split_host_port value = elim (strip_prefix b'[' value) [
  | some rest ↦ elim (split_once b']' rest) [ none ↦ none | some parts ↦ behind_bracket parts ]
  | none ↦ elim (rsplit_once b':' value) [ none ↦ none | some parts ↦ one_colon parts ]
]

unfoldable pub parse_port : Text → String → Result AppError ℕ
parse_port value message = or_error message (parse_unsigned (2 ^ 16) value)

abbrev pub host_or : Text → String → Text → Result AppError (Text × Text)
host_or default message value = elim (strip_prefix b':' value) [
  | some rest ↦ ok (default, rest)
  | none ↦ or_error message (split_host_port value)
]

unfoldable pub parse_listen : (Text → Option IpAddr) → Text → Result AppError SocketAddr
parse_listen parse_ip value = do
  (host, port) ← host_or (ascii "0.0.0.0") "LISTEN must be ADDR:PORT or :PORT" value
  ip ← or_error "LISTEN address must be an IP literal" (parse_ip host)
  number ← parse_port port "LISTEN must be a port number"
  (if ltb number 1024
      then err (config "LISTEN port must be 1024-65535")
      else ok (record { ip = ip; port = number }))

unfoldable pub parse_bind_ip : (Text → Option IpAddr) → Text → Result AppError IpAddr
parse_bind_ip parse_ip value =
    or_error "DATA_BIND must be an IP literal without a port" (parse_ip value)

abbrev pub is_empty : Text → Bool
is_empty [] = Bool.true
is_empty (_ ∷ _) = Bool.false

unfoldable pub parse_server : Text → Result AppError Endpoint
parse_server value = do
  (host, port) ← or_error "SERVER must be HOST:PORT" (split_host_port value)
  (if is_empty host then err (config "SERVER must include a host") else (do
    number ← parse_port port "SERVER must be a port number"
    (if ltb number 1024
        then err (config "SERVER port must be 1024-65535")
        else ok (record { host = host; port = number }))))

abbrev is_zero : ℕ → Bool
is_zero n = n == 0

unfoldable pub parse_target : Text → Result AppError Endpoint
parse_target value = do
  (host, port) ← host_or (ascii "127.0.0.1") "TARGET must be HOST:PORT or :PORT" value
  (if is_empty host then err (config "TARGET must include a host") else (do
    number ← parse_port port "TARGET must be a port number"
    (if is_zero number
        then err (config "TARGET port must be 1-65535")
        else ok (record { host = host; port = number }))))

unfoldable pub parse_port_range : Text → Result AppError (ℕ × ℕ)
parse_port_range value = do
  (low, high) ← or_error "ALLOWED_PORTS must be MIN-MAX" (split_once b'-' value)
  min ← parse_port (trim low) "ALLOWED_PORTS must be a port number"
  max ← parse_port (trim high) "ALLOWED_PORTS must be a port number"
  (if ltb min 1024 || ltb max min
      then err (config "ALLOWED_PORTS must satisfy 1024 <= MIN <= MAX <= 65535")
      else ok (min, max))
