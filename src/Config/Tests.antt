-- ===== src/Config/Tests.antt =====
-- src/config.rs: the layers of a small configuration as an example.
use tunlet.Prelude.{◌≡◌, refl, false, Option, some, [], ◌∷◌}
use tunlet.Prelude.Bytes.{ascii, bytes_discrete}
use tunlet.Error.{ok}
use tunlet.Config.{IpAddr, Level, ServerConfig}
use tunlet.Config.Text.{
  Text, text_eq, contains, split_once, rsplit_once, strip_prefix, is_whitespace, trim_start, trim,
  digits, parse_unsigned,
}
use tunlet.Config.Address.{
  split_host_port, parse_port, parse_listen, parse_bind_ip, parse_server, parse_target,
  parse_port_range,
}
use tunlet.Prelude.Maps.{lookup}
use tunlet.Config.Parse.{RawConfig, get, merge}
use tunlet.Config.Validate.{
  required, quiet, parse_level, log_level, server, parse_remote_port, ExposeConfig, expose,
}
use tunlet.Config.Validate.Laws.{
  IsValid, IsValidExpose, or_else, server-IsValid, expose-IsValidExpose, get-merge,
}

-- A function in the place of the standard library's parser.
abbrev any_ip : Text → Option IpAddr
any_ip text = some (IpAddr.v4 (0 ∷ 0 ∷ 0 ∷ 0 ∷ []))

abbrev file : RawConfig
file = (ascii "KEY", ascii "old") ∷ ((ascii "LISTEN", ascii ":5000") ∷ [])

abbrev cli : RawConfig
cli = (ascii "KEY", ascii "new") ∷ []

get-merge_example :
    get (merge file [] cli) (ascii "KEY")
    ≡ or_else (get cli (ascii "KEY")) (or_else (get [] (ascii "KEY")) (get file (ascii "KEY")))
get-merge_example = get-merge file [] cli (ascii "KEY")

abbrev raw : RawConfig
raw =
    (ascii "KEY", ascii "secret")
    ∷ ((ascii "SERVER", ascii "[::1]:4000")
        ∷ ((ascii "TARGET", ascii ":80") ∷ ((ascii "REMOTE_PORT", ascii "+20000") ∷ [])))

abbrev server_config : ServerConfig
server_config = record {
  key = ascii "secret";
  listen = record { ip = IpAddr.v4 (0 ∷ 0 ∷ 0 ∷ 0 ∷ []); port = 4000 };
  data_bind = IpAddr.v4 (0 ∷ 0 ∷ 0 ∷ 0 ∷ []);
  min_port = 10000;
  max_port = 65535;
  max_connections = 256;
  log_level = Level.info;
  quiet = false;
}

abbrev expose_config : ExposeConfig
expose_config = record {
  key = ascii "secret";
  server = record { host = ascii "::1"; port = 4000 };
  remote_port = some 20000;
  target = record { host = ascii "127.0.0.1"; port = 80 };
  log_level = Level.info;
  quiet = false;
}

serves : server any_ip raw ≡ ok server_config
unfolding server required parse_listen parse_bind_ip parse_port_range parse_port parse_unsigned
    digits split_once trim trim_start is_whitespace log_level parse_level quiet text_eq get lookup
    bytes_discrete strip_prefix
serves = refl

exposes : expose raw ≡ ok expose_config
unfolding expose required parse_server parse_target parse_remote_port parse_port split_host_port
    rsplit_once split_once strip_prefix contains parse_unsigned digits log_level parse_level quiet
    text_eq get lookup bytes_discrete
exposes = refl

server-IsValid_example : IsValid server_config
server-IsValid_example = server-IsValid any_ip raw server_config serves

expose-IsValidExpose_example : IsValidExpose expose_config
expose-IsValidExpose_example = expose-IsValidExpose raw expose_config exposes
