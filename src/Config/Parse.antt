-- ===== src/Config/Parse.antt =====
-- src/config.rs: the layers of the configuration.
-- The map of a RawConfig is an association list. The bytes of a file, and the text that they are
-- the UTF-8 of, are given; so is the environment.
use tunlet.Prelude.{
  ℕ, ◌==◌, if◌then◌else◌, Bool, false, not, ◌&&◌, ◌||◌, Option, none, some, List, [], ◌∷◌, ◌++◌,
}
use tunlet.Prelude.Bytes.{ascii, bytes_discrete}
use tunlet.Prelude.Maps.{lookup, insert}
use tunlet.Error.{AppError, config, Result, ok, err, ◌>>=◌}
use tunlet.Config.Text.{Text, text_eq, split_once, starts_with, trim}
use tunlet.Config.Address.{or_error, is_empty}

abbrev pub RawConfig : Type 0
RawConfig = List (Text × Text)

unfoldable pub get : RawConfig → Text → Option Text
get self name = lookup bytes_discrete name self

abbrev pub names : List Text
names =
    ascii "KEY"
    ∷ (ascii "LISTEN"
        ∷ (ascii "DATA_BIND"
            ∷ (ascii "ALLOWED_PORTS"
                ∷ (ascii "MAX_CONNECTIONS"
                    ∷ (ascii "SERVER"
                        ∷ (ascii "REMOTE_PORT"
                            ∷ (ascii "TARGET" ∷ (ascii "LOG_LEVEL" ∷ (ascii "QUIET" ∷ [])))))))))

-- The entries of a map are inserted in an order that is not specified; their names are distinct.
unfoldable pub insert_all : RawConfig → RawConfig → RawConfig
insert_all base [] = base
insert_all base ((name, value) ∷ pairs) = insert bytes_discrete name value (insert_all base pairs)

abbrev known_variables : (Text → Option Text) → List Text → RawConfig → RawConfig
known_variables env [] values = values
known_variables env (name ∷ rest) values = elim (env (ascii "TUNLET_" ++ name)) [
  | none ↦ known_variables env rest values
  | some value ↦ known_variables env rest (insert bytes_discrete name value values)
]

unfoldable pub env_config : (Text → Option Text) → RawConfig
env_config env = known_variables env names []

unfoldable pub merge : RawConfig → RawConfig → RawConfig → RawConfig
unfolding insert_all
merge file env cli = insert_all (insert_all file env) cli

-- The last character, and what stands before it.
abbrev pub unsnoc : ℕ → Text → Text × ℕ
unsnoc x [] = ([], x)
unsnoc x (y ∷ ys) = let (front, last) = unsnoc y ys in (x ∷ front, last)

-- `unquote`
unfoldable pub unquote : Text → Option Text
unquote [] = some []
unquote (x ∷ []) = if x == b'"' || x == b'\'' then none else some (x ∷ [])
unquote (x ∷ (y ∷ ys)) =
    if x == b'"' || x == b'\''
    then (if (unsnoc y ys).1 == x then some (unsnoc y ys).0 else none)
    else some (x ∷ (y ∷ ys))

unfoldable pub member : Text → List Text → Bool
member name [] = false
member name (x ∷ xs) = text_eq x name || member name xs

-- The line as a setting, `none` if there is none on it; the reason of an error is kept, its place
-- is not.
unfoldable pub parse_setting : Text → Result AppError (Option (Text × Text))
parse_setting line = if is_empty (trim line) || starts_with b'#' (trim line) then ok none else (do
  (name, value) ← or_error "expected NAME=value" (split_once b'=' line)
  (if is_empty (trim name)
      then err (config "empty setting name")
      else if not (member (trim name) names)
      then err (config "unknown setting name")
      else (do
        value' ← or_error "unterminated quoted value" (unquote (trim value))
        ok (some (trim name, value')))))

abbrev strip_return : Text → Text
strip_return [] = []
strip_return (x ∷ xs) = let (front, last) = unsnoc x xs in if last == b'\r' then front else x ∷ xs

-- `split('\n')`
unfoldable pub lines : Text → Text × List Text
lines [] = ([], [])
lines (x ∷ xs) =
    let (first, rest) = lines xs in if x == b'\n' then ([], first ∷ rest) else (x ∷ first, rest)

unfoldable pub parse_lines : RawConfig → List Text → Result AppError RawConfig
parse_lines values [] = ok values
parse_lines values (line ∷ rest) = do
  setting ← parse_setting (strip_return line)
  parse_lines
      (elim setting [
        | none ↦ values
        | some (name, value) ↦ insert bytes_discrete name value values
      ])
      rest

-- `parse_file`, without its byte order mark: what reading the file gives, `none` if there is none,
-- and the text that bytes are the UTF-8 of.
abbrev without_mark : List ℕ → List ℕ
without_mark (a ∷ (b ∷ (c ∷ rest))) =
    if a == 0xef && b == 0xbb && c == 0xbf then rest else a ∷ (b ∷ (c ∷ rest))
without_mark bytes = bytes

unfoldable pub parse_text : (List ℕ → Option Text) → List ℕ → Result AppError RawConfig
parse_text utf8 bytes = do
  text ← or_error "configuration file is not valid UTF-8" (utf8 (without_mark bytes))
  let split = lines text
  parse_lines [] (split.0 ∷ split.1)

-- The file as the system has it.
pub data File : Type 0 where
  missing unreadable : File
  bytes_of : List ℕ → File

unfoldable pub parse_file : (List ℕ → Option Text) → File → Bool → Result AppError RawConfig
parse_file utf8 missing required =
    if required then err (config "cannot read configuration file") else ok []
parse_file utf8 unreadable required = err (config "cannot read configuration file")
parse_file utf8 (bytes_of bytes) required = parse_text utf8 bytes

unfoldable pub resolve :
    (List ℕ → Option Text)
    → File
    → Bool
    → RawConfig
    → (Text → Option Text)
    → Result AppError RawConfig
resolve utf8 file config_explicit cli env = do
  values ← parse_file utf8 file config_explicit
  ok (merge values (env_config env) cli)
