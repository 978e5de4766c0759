-- ===== src/Cli.antt =====
-- src/cli.rs: the parser of the command line. The texts of errors leave out the argument.
pub mod Laws
mod Tests
use Prim.Native.String.{String}
use tunlet.Prelude.{if◌then◌else◌, Bool, true, false, not, ◌||◌, Option, none, some, List, [], ◌∷◌}
use tunlet.Prelude.Bytes.{ascii, bytes_discrete}
use tunlet.Prelude.Maps.{insert}
use tunlet.Error.{AppError, cli, Result, ok, err}
use tunlet.Config.Text.{Text, text_eq, split_once, starts_with}
use tunlet.Config.Address.{is_empty}
use tunlet.Config.Parse.{RawConfig}

pub data Mode : Type 0 where
  server expose : Mode

pub data Command : Type 0 where
  help version : Command
  run_mode : Mode → Text → Bool → RawConfig → Command

-- The variables of the loop.
pub record Flags : Type 0 where
  pub mode : Option Mode
  pub config : Text
  pub config_explicit : Bool
  pub settings : RawConfig

abbrev pub value_flags : List (Text × Text)
value_flags =
    (ascii "--key", ascii "KEY")
    ∷ ((ascii "--listen", ascii "LISTEN")
        ∷ ((ascii "--data-bind", ascii "DATA_BIND")
            ∷ ((ascii "--allowed-ports", ascii "ALLOWED_PORTS")
                ∷ ((ascii "--max-connections", ascii "MAX_CONNECTIONS")
                    ∷ ((ascii "--server", ascii "SERVER")
                        ∷ ((ascii "--remote-port", ascii "REMOTE_PORT")
                            ∷ ((ascii "--target", ascii "TARGET")
                                ∷ ((ascii "--log-level", ascii "LOG_LEVEL") ∷ []))))))))

abbrev find_flag : Text → List (Text × Text) → Option Text
find_flag flag [] = none
find_flag flag ((name, key) ∷ rest) = if text_eq name flag then some key else find_flag flag rest

unfoldable pub value_flag : Text → Option Text
value_flag flag = find_flag flag value_flags

-- What an argument comes to: the end, or the loop goes on behind it, or behind the next one.
pub data Step : Type 0 where
  stops : Result AppError Command → Step
  goes_on skips : Flags → Step

-- A flag with its value, from the same argument or from the next one.
abbrev with_value : String → Option Text → Option Text → (Text → Result AppError Flags) → Step
with_value missing inline next use_value = elim inline [
  | some value ↦ elim (use_value value) [ err e ↦ stops (err e) | ok flags ↦ goes_on flags ]
  | none ↦ elim next [
    | none ↦ stops (err (cli missing))
    | some value ↦ elim (use_value value) [ err e ↦ stops (err e) | ok flags ↦ skips flags ]
  ]
]

abbrev set : Flags → Text → Text → Flags
set flags key value = record flags { settings = insert bytes_discrete key value flags.settings }

abbrev set_config : Flags → Text → Result AppError Flags
set_config flags value =
    if is_empty value
    then err (cli "--config requires a path")
    else ok (record flags { config = value; config_explicit = true })

abbrev value_or_true : Option Text → Text
value_or_true none = ascii "true"
value_or_true (some value) = value

abbrev set_quiet : Flags → Text → Step
set_quiet flags value =
    if text_eq value (ascii "true") || text_eq value (ascii "false")
    then goes_on (set flags (ascii "QUIET") value)
    else stops (err (cli "--quiet accepts only --quiet, --quiet=true, or --quiet=false"))

abbrev named_flag : Flags → Text → Option Text → Option Text → Step
named_flag flags flag inline next =
    if text_eq flag (ascii "--quiet")
    then set_quiet flags (value_or_true inline)
    else elim (value_flag flag) [
      | none ↦ stops (err (cli "unrecognized option"))
      | some key ↦ with_value "requires a value" inline next (λ value. ok (set flags key value))
    ]

abbrev flag_step : Flags → Text → Option Text → Option Text → Step
flag_step flags flag inline next =
    if not (starts_with b'-' flag)
    then stops (err (cli "unexpected argument"))
    else if text_eq flag (ascii "--config")
    then with_value "--config requires a path" inline next (set_config flags)
    else elim flags.mode [
      | none ↦ stops (err (cli "must follow the server or expose subcommand"))
      | some _ ↦ named_flag flags flag inline next
    ]

abbrev set_mode : Flags → Mode → Step
set_mode flags mode = elim flags.mode [
  | some _ ↦ stops (err (cli "unexpected argument"))
  | none ↦ goes_on (record flags { mode = some mode })
]

abbrev other_argument : Flags → Text → Option Text → Step
other_argument flags arg next = elim (split_once b'=' arg) [
  | some (flag, value) ↦ flag_step flags flag (some value) next
  | none ↦ flag_step flags arg none next
]

unfoldable pub step : Flags → Text → Option Text → Step
step flags arg next =
    if text_eq arg (ascii "-h") || text_eq arg (ascii "--help")
    then stops (ok help)
    else if text_eq arg (ascii "-V") || text_eq arg (ascii "--version")
    then stops (ok version)
    else if text_eq arg (ascii "server")
    then set_mode flags server
    else if text_eq arg (ascii "expose")
    then set_mode flags expose
    else other_argument flags arg next

abbrev first : List Text → Option Text
first [] = none
first (x ∷ _) = some x

unfoldable pub finish : Flags → Result AppError Command
finish flags = elim flags.mode [
  | none ↦ err (cli "expected a subcommand: `server` or `expose`. Try --help")
  | some mode ↦ ok (run_mode mode flags.config flags.config_explicit flags.settings)
]

-- The loop, with whether the next argument was taken as a value.
unfoldable pub parse_args : Flags → Bool → List Text → Result AppError Command
parse_args flags taken [] = finish flags
parse_args flags true (_ ∷ rest) = parse_args flags false rest
parse_args flags false (arg ∷ rest) = elim (step flags arg (first rest)) [
  | stops outcome ↦ outcome
  | goes_on flags' ↦ parse_args flags' false rest
  | skips flags' ↦ parse_args flags' true rest
]

-- `parse`, without the name of the program.
unfoldable pub parse : List Text → Result AppError Command
parse args =
    parse_args
      (record { mode = none; config = ascii "tunlet.cfg"; config_explicit = false; settings = [] })
      false args
