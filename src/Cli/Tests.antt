-- ===== src/Cli/Tests.antt =====
-- src/cli.rs: a command line as an example.
use tunlet.Prelude.{◌≡◌, refl, false, some, none, [], ◌∷◌, ◌++◌, All}
use tunlet.Prelude.Bytes.{ascii, bytes_discrete}
use tunlet.Prelude.Maps.{insert}
use tunlet.Config.Text.{Text, text_eq, split_once, starts_with}
use tunlet.Error.{ok}
use tunlet.Cli.{Flags, Mode, run_mode, value_flags, value_flag, step, finish, parse_args, parse}
use tunlet.Cli.Laws.{value_flags_set}

abbrev flags : Flags
flags = record { mode = none; config = ascii "tunlet.cfg"; config_explicit = false; settings = [] }

value_flags_set_example :
    All
      (λ (p : Text × Text).
        (parse_args
            (record flags { mode = some Mode.server })
            false
            ((p.0 ++ (b'=' ∷ ascii "7")) ∷ (ascii "--quiet" ∷ []))
          ≡ parse_args
              (record flags {
                mode = some Mode.server;
                settings = insert bytes_discrete p.1 (ascii "7") [];
              })
              false
              (ascii "--quiet" ∷ []))
        × (parse_args
              (record flags { mode = some Mode.server })
              false
              (p.0 ∷ (ascii "7" ∷ (ascii "--quiet" ∷ [])))
            ≡ parse_args
                (record flags {
                  mode = some Mode.server;
                  settings = insert bytes_discrete p.1 (ascii "7") [];
                })
                false
                (ascii "--quiet" ∷ [])))
      value_flags
value_flags_set_example = value_flags_set flags Mode.server (ascii "7") (ascii "--quiet" ∷ [])

-- A flag in both spellings, the last of which counts.
parsed :
    parse (
      ascii "expose"
      ∷ (ascii "--key=a=b" ∷ (ascii "--key" ∷ (ascii "c" ∷ (ascii "--quiet=false" ∷ [])))))
    ≡ ok (
        run_mode Mode.expose
          (ascii "tunlet.cfg")
          false
          ((ascii "KEY", ascii "c") ∷ ((ascii "QUIET", ascii "false") ∷ [])))
unfolding parse parse_args step finish split_once starts_with value_flag text_eq insert
    bytes_discrete
parsed = refl
