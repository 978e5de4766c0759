-- ===== src/Config/Address/Laws.antt =====
-- src/net.rs: the ports of the addresses that are accepted.
use tunlet.Prelude.{
  ℕ, ◌≡◌, ◌≢◌, arith, ◌≤◌, ◌<◌, false, Bool-cases, inl, inr, sym, ◌∙◌, [], ◌∷◌, Option, some, none,
}
use tunlet.Prelude.Bytes.{ascii}
use tunlet.Error.{ok, >>=-eq-ok}
use Prim.Native.String.{String}
use tunlet.Config.{IpAddr, SocketAddr}
use tunlet.Config.Text.{Text, parse_unsigned-lt, split_once, trim}
use tunlet.Config.Address.{
  Endpoint, or_error, host_or, is_empty, parse_port, split_host_port, parse_listen, parse_server,
  parse_target, parse_port_range,
}

pub or_error_ok :
    {A : Type 0} (message : String) (o : Option A) (a : A) → or_error message o ≡ ok a → o ≡ some a
or_error_ok message none a e = absurd (cc)
or_error_ok message (some b) a e = ground arith

parse_port-lt :
    (text : Text) (message : String) (n : ℕ) → parse_port text message ≡ ok n → n < 65536
unfolding parse_port
parse_port-lt text message n e = parse_unsigned-lt 65536 text n (or_error_ok message _ n e)

pub parse_listen-lt :
    (parse_ip : Text → Option IpAddr) (value : Text) (a : SocketAddr)
    → parse_listen parse_ip value ≡ ok a
    → (1024 ≤ a.port) × (a.port < 65536)
unfolding parse_listen
parse_listen-lt parse_ip value a e =
    >>=-eq-ok (host_or (ascii "0.0.0.0") "LISTEN must be ADDR:PORT or :PORT" value) _ e
      λ (host, port) e1 k1.
        >>=-eq-ok (or_error "LISTEN address must be an IP literal" (parse_ip host)) _ k1 λ ip e2 k2.
          >>=-eq-ok (parse_port port "LISTEN must be a port number") _ k2
            λ n e3 k3. ground (arith, parse_port-lt port "LISTEN must be a port number" n e3)

nonempty : (host : Text) → is_empty host ≡ false → host ≢ []
nonempty [] e = absurd (cc)
nonempty (x ∷ xs) e = λ h. cc

pub parse_server-lt :
    (value : Text) (a : Endpoint)
    → parse_server value ≡ ok a
    → (a.host ≢ []) × (1024 ≤ a.port) × (a.port < 65536)
unfolding parse_server
parse_server-lt value a e =
    >>=-eq-ok (or_error "SERVER must be HOST:PORT" (split_host_port value)) _ e λ (host, port) e1.
      elim (Bool-cases (is_empty host)) [
        | inl empty ↦ rw empty (λ k. absurd (cc))
        | inr some_host ↦ rw some_host (λ k.
            >>=-eq-ok (parse_port port "SERVER must be a port number") _ k λ n e2 k2.
              let same : (a.host ≡ host) × (1024 ≤ a.port) × (a.port < 65536) =
                ground (arith, parse_port-lt port "SERVER must be a port number" n e2) in
              (λ h. nonempty host some_host (sym same.0 ∙ h), same.1, same.2))
      ]

pub parse_target-lt :
    (value : Text) (a : Endpoint)
    → parse_target value ≡ ok a
    → (a.host ≢ []) × (1 ≤ a.port) × (a.port < 65536)
unfolding parse_target
parse_target-lt value a e =
    >>=-eq-ok (host_or (ascii "127.0.0.1") "TARGET must be HOST:PORT or :PORT" value) _ e
      λ (host, port) e1. elim (Bool-cases (is_empty host)) [
        | inl empty ↦ rw empty (λ k. absurd (cc))
        | inr some_host ↦ rw some_host (λ k.
            >>=-eq-ok (parse_port port "TARGET must be a port number") _ k λ n e2 k2.
              let same : (a.host ≡ host) × (1 ≤ a.port) × (a.port < 65536) =
                ground (arith, parse_port-lt port "TARGET must be a port number" n e2) in
              (λ h. nonempty host some_host (sym same.0 ∙ h), same.1, same.2))
      ]

pub parse_port_range-lt :
    (value : Text) (low high : ℕ)
    → parse_port_range value ≡ ok (low, high)
    → (1024 ≤ low) × (low ≤ high) × (high < 65536)
unfolding parse_port_range
parse_port_range-lt value low high e =
    >>=-eq-ok (or_error "ALLOWED_PORTS must be MIN-MAX" (split_once b'-' value)) _ e λ (l, h) e1 k1.
      >>=-eq-ok (parse_port (trim l) "ALLOWED_PORTS must be a port number") _ k1 λ min e2 k2.
        >>=-eq-ok (parse_port (trim h) "ALLOWED_PORTS must be a port number") _ k2 λ max e3 k3.
          ground (arith, parse_port-lt (trim h) "ALLOWED_PORTS must be a port number" max e3)
