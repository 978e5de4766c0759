-- ===== src/Cli/Laws.antt =====
-- src/cli.rs: the two spellings of a flag.
use tunlet.Prelude.{◌≡◌, refl, false, some, List, ◌∷◌, ◌++◌, All}
use tunlet.Prelude.Bytes.{bytes_discrete}
use tunlet.Prelude.Maps.{insert}
use tunlet.Config.Text.{Text, text_eq, split_once, starts_with}
use tunlet.Cli.{Flags, Mode, value_flags, value_flag, step, parse_args}

-- Behind the subcommand, each flag that takes a value is read alike with its value behind an
-- equals sign and with its value as the next argument, whatever the value and what follows: the
-- setting of the flag is that value, and the parser goes on behind it.
pub value_flags_set :
    (flags : Flags) (mode : Mode) (value : Text) (rest : List Text)
    → All
        (λ (p : Text × Text).
          (parse_args (record flags { mode = some mode }) false ((p.0 ++ (b'=' ∷ value)) ∷ rest)
            ≡ parse_args
                (record flags {
                  mode = some mode;
                  settings = insert bytes_discrete p.1 value flags.settings;
                })
                false
                rest)
          × (parse_args (record flags { mode = some mode }) false (p.0 ∷ (value ∷ rest))
              ≡ parse_args
                  (record flags {
                    mode = some mode;
                    settings = insert bytes_discrete p.1 value flags.settings;
                  })
                  false
                  rest))
        value_flags
unfolding parse_args step split_once starts_with value_flag text_eq bytes_discrete
value_flags_set flags mode value rest = (
  (refl, refl),
  (
    (refl, refl),
    (
      (refl, refl),
      (
        (refl, refl),
        ((refl, refl), ((refl, refl), ((refl, refl), ((refl, refl), ((refl, refl), tt))))),
      ),
    ),
  ),
)
