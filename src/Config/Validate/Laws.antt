-- ===== src/Config/Validate/Laws.antt =====
-- src/config.rs: the precedence of the layers, and the numbers in a validated configuration.
use Prim.Native.String.{String}
use tunlet.Prelude.{
  ℕ, ◌^◌, ◌≡◌, ◌≢◌, refl, subst, arith, ◌≤◌, ◌<◌, ltb, ◌==◌, ◌||◌, Option, none, some, [], ◌∷◌, inl,
  inr, Bool-cases,
}
use tunlet.Prelude.Bytes.{ascii, bytes_discrete}
use tunlet.Prelude.Maps.{lookup, lookup-insert}
use tunlet.Error.{AppError, Result, ok, >>=-eq-ok}
use tunlet.Config.{IpAddr, ServerConfig}
use tunlet.Config.Text.{Text, parse_unsigned, parse_unsigned-lt}
use tunlet.Config.Address.{
  or_error, parse_listen, parse_bind_ip, parse_server, parse_target, parse_port_range,
}
use tunlet.Config.Address.Laws.{
  or_error_ok, parse_listen-lt, parse_port_range-lt, parse_server-lt, parse_target-lt,
}
use tunlet.Config.Parse.{RawConfig, get, insert_all, merge}
use tunlet.Config.Validate.{
  or_default, required, log_level, quiet, server, ExposeConfig, parse_remote_port, expose,
}

-- The first of two settings that is there.
abbrev pub or_else : Option Text → Option Text → Option Text
or_else none other = other
or_else (some value) other = some value

get-insert_all :
    (base pairs : RawConfig) (name : Text)
    → get (insert_all base pairs) name ≡ or_else (get pairs name) (get base name)
unfolding get insert_all lookup
get-insert_all base [] name = refl
get-insert_all base ((other, value) ∷ pairs) name = ground (
  arith,
  lookup-insert bytes_discrete name other value (insert_all base pairs),
  get-insert_all base pairs name,
)

-- A setting of the merged configuration is that of the command line, or if there is none that of
-- the environment, or if there is none that of the file.
pub get-merge :
    (file env cli : RawConfig) (name : Text)
    → get (merge file env cli) name
      ≡ or_else (get cli name) (or_else (get env name) (get file name))
unfolding merge
get-merge file env cli name =
    rw (get-insert_all (insert_all file env) cli name, get-insert_all file env name) refl

-- What the validation of a server's configuration promises.
pub record IsValid (c : ServerConfig) : Type 0 where
  pub listen_port : (1024 ≤ c.listen.port) × (c.listen.port < 65536)
  pub ports : (1024 ≤ c.min_port) × (c.min_port ≤ c.max_port) × (c.max_port < 65536)
  pub connections : (1 ≤ c.max_connections) × (c.max_connections < 65536)

config_inj : {a b : ServerConfig} → ◌≡◌ {A = Result AppError ServerConfig} (ok a) (ok b) → a ≡ b
config_inj e = cc

-- A configuration that the server accepts listens on a port within 1024..65535, has a range of
-- ports within 1024..65535 that is not empty, and allows 1..65535 connections.
pub server-IsValid :
    (parse_ip : Text → Option IpAddr) (raw : RawConfig) (c : ServerConfig)
    → server parse_ip raw ≡ ok c
    → IsValid c
unfolding server
server-IsValid parse_ip raw c e = >>=-eq-ok (required raw (ascii "KEY")) _ e λ key e1 k1.
    >>=-eq-ok (parse_listen parse_ip _) _ k1 λ listen e2 k2.
      >>=-eq-ok (parse_bind_ip parse_ip _) _ k2 λ bind e3 k3.
        >>=-eq-ok (parse_port_range _) _ k3 λ (min, max) e4 k4.
          >>=-eq-ok
            (or_error "MAX_CONNECTIONS must be an integer 1-65535" (
              parse_unsigned (2 ^ 32)
                (or_default (ascii "256") (get raw (ascii "MAX_CONNECTIONS")))))
            _ k4
            λ n e5. elim (Bool-cases (n == 0 || ltb 65535 n)) [
              | inl outside ↦ rw outside (λ k. absurd (cc))
              | inr inside ↦ rw inside (λ k5. >>=-eq-ok (log_level raw) _ k5 λ level e6 k6.
                  >>=-eq-ok (quiet raw) _ k6 λ silent e7 k7. subst IsValid (config_inj k7) (record {
                    listen_port = parse_listen-lt parse_ip _ listen e2;
                    ports = parse_port_range-lt _ min max e4;
                    connections = ground arith;
                  }))
            ]

-- What the validation of a client's configuration promises.
pub record IsValidExpose (c : ExposeConfig) : Type 0 where
  pub server : (c.server.host ≢ []) × (1024 ≤ c.server.port) × (c.server.port < 65536)
  pub target : (c.target.host ≢ []) × (1 ≤ c.target.port) × (c.target.port < 65536)
  pub remote : (p : ℕ) → c.remote_port ≡ some p → (1024 ≤ p) × (p < 65536)

remote_of_ok :
    (o : Option Text) (r : Option ℕ) (p : ℕ)
    → parse_remote_port o ≡ ok r
    → r ≡ some p
    → (1024 ≤ p) × (p < 65536)
unfolding parse_remote_port
remote_of_ok none r p e same = absurd (ground arith)
remote_of_ok (some value) r p e same =
    let message : String = "REMOTE_PORT must be a port number 1024-65535" in
    >>=-eq-ok (or_error message (parse_unsigned (2 ^ 16) value)) _ e λ n e1 k1.
      let small = parse_unsigned-lt 65536 value n (or_error_ok message _ n e1) in
      ground (arith, small)

expose_inj : {a b : ExposeConfig} → ◌≡◌ {A = Result AppError ExposeConfig} (ok a) (ok b) → a ≡ b
expose_inj e = cc

-- A configuration that the client accepts names hosts for the server and the target, a server port
-- within 1024..65535, a target port within 1..65535, and a remote port within 1024..65535 if it
-- names one.
pub expose-IsValidExpose :
    (raw : RawConfig) (c : ExposeConfig) → expose raw ≡ ok c → IsValidExpose c
unfolding expose
expose-IsValidExpose raw c e = >>=-eq-ok (required raw (ascii "KEY")) _ e λ key e1 k1.
    >>=-eq-ok (required raw (ascii "SERVER")) _ k1 λ server_text e2 k2.
      >>=-eq-ok (parse_server server_text) _ k2 λ endpoint e3 k3.
        >>=-eq-ok (required raw (ascii "TARGET")) _ k3 λ target_text e4 k4.
          >>=-eq-ok (parse_target target_text) _ k4 λ target e5 k5.
            >>=-eq-ok (parse_remote_port (get raw (ascii "REMOTE_PORT"))) _ k5 λ remote e6 k6.
              >>=-eq-ok (log_level raw) _ k6 λ level e7 k7.
                >>=-eq-ok (quiet raw) _ k7 λ silent e8 k8.
                  subst IsValidExpose (expose_inj k8) (record {
                    server = parse_server-lt server_text endpoint e3;
                    target = parse_target-lt target_text target e5;
                    remote = λ p same. remote_of_ok _ remote p e6 same;
                  })
