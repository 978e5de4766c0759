-- ===== src/Config/Validate.antt =====
-- src/config.rs, src/logging.rs: the validation of the merged settings.
pub mod Laws
use Prim.Native.String.{String}
use tunlet.Prelude.{
  ℕ, ◌^◌, ◌==◌, ltb, if◌then◌else◌, Bool, true, false, not, ◌&&◌, ◌||◌, Option, none, some, List,
  [], ◌∷◌, ◌++◌,
}
use tunlet.Prelude.Bytes.{ascii, bytes_discrete}
use tunlet.Prelude.Maps.{lookup, insert}
use tunlet.Error.{AppError, config, Result, ok, err, ◌>>=◌}
use tunlet.Config.{IpAddr, Level, error, info, debug, ServerConfig}
use tunlet.Config.Text.{Text, text_eq, split_once, starts_with, trim, parse_unsigned}
use tunlet.Config.Address.{
  Endpoint, or_error, is_empty, parse_listen, parse_bind_ip, parse_server, parse_target,
  parse_port_range,
}
use tunlet.Config.Parse.{RawConfig, get, insert_all, merge}

abbrev given : Option Text → Result AppError Text
given none = err (config "is required (flag, variable, or configuration file)")
given (some value) = if is_empty value then err (config "must not be empty") else ok value

unfoldable pub required : RawConfig → Text → Result AppError Text
required raw name = given (get raw name)

abbrev pub or_default : Text → Option Text → Text
or_default default none = default
or_default default (some value) = value

unfoldable pub quiet : RawConfig → Result AppError Bool
quiet raw =
    let value = or_default (ascii "false") (get raw (ascii "QUIET")) in
    if text_eq value (ascii "true")
    then ok true
    else if text_eq value (ascii "false")
    then ok false
    else err (config "QUIET must be true or false")

-- `Level::parse`
unfoldable pub parse_level : Text → Option Level
parse_level value =
    if text_eq value (ascii "error")
    then some error
    else if text_eq value (ascii "info")
    then some info
    else if text_eq value (ascii "debug")
    then some debug
    else none

unfoldable pub log_level : RawConfig → Result AppError Level
log_level raw =
    or_error "LOG_LEVEL must be error, info, or debug"
      (parse_level (or_default (ascii "info") (get raw (ascii "LOG_LEVEL"))))

unfoldable pub server : (Text → Option IpAddr) → RawConfig → Result AppError ServerConfig
server parse_ip raw = do
  key ← required raw (ascii "KEY")
  listen ← parse_listen parse_ip (or_default (ascii ":4000") (get raw (ascii "LISTEN")))
  data_bind ← parse_bind_ip parse_ip (or_default (ascii "0.0.0.0") (get raw (ascii "DATA_BIND")))
  (min, max) ← parse_port_range (or_default (ascii "10000-65535") (get raw (ascii "ALLOWED_PORTS")))
  connections ←
      or_error "MAX_CONNECTIONS must be an integer 1-65535"
        (parse_unsigned (2 ^ 32) (or_default (ascii "256") (get raw (ascii "MAX_CONNECTIONS"))))
  (if connections == 0 || ltb 65535 connections
      then err (config "MAX_CONNECTIONS must be an integer 1-65535")
      else (do
        level ← log_level raw
        silent ← quiet raw
        ok (record {
          key = key;
          listen = listen;
          data_bind = data_bind;
          min_port = min;
          max_port = max;
          max_connections = connections;
          log_level = level;
          quiet = silent;
        })))

pub record ExposeConfig : Type 0 where
  pub key : Text
  pub server : Endpoint
  pub remote_port : Option ℕ
  pub target : Endpoint
  pub log_level : Level
  pub quiet : Bool

unfoldable pub parse_remote_port : Option Text → Result AppError (Option ℕ)
parse_remote_port none = ok none
parse_remote_port (some value) = do
  port ← or_error "REMOTE_PORT must be a port number 1024-65535" (parse_unsigned (2 ^ 16) value)
  (if ltb port 1024
      then err (config "REMOTE_PORT must be 1024-65535; omit it to request automatic allocation")
      else ok (some port))

unfoldable pub expose : RawConfig → Result AppError ExposeConfig
expose raw = do
  key ← required raw (ascii "KEY")
  server_text ← required raw (ascii "SERVER")
  endpoint ← parse_server server_text
  target_text ← required raw (ascii "TARGET")
  target ← parse_target target_text
  remote_port ← parse_remote_port (get raw (ascii "REMOTE_PORT"))
  level ← log_level raw
  silent ← quiet raw
  ok (record {
    key = key;
    server = endpoint;
    remote_port = remote_port;
    target = target;
    log_level = level;
    quiet = silent;
  })
