-- ===== src/Client/Register/Errors.antt =====
-- src/client/control.rs: the errors of a registration that are fatal.
use tunlet.Protocol.Frame.{Faults}
use tunlet.Prelude.{ℕ, ◌==◌, not, ◌&&◌, Bool-cases, Option, none, some, List, inl, inr}
use tunlet.Error.{
  AppError, Result, ok, err, ◌>>=◌, ErrorCode, ProtocolError, lift, is_fatal_for_client,
}
use tunlet.Protocol.Enums.{Kind, MessageType, error, Mac, Nonce, InstanceId, Mode}
use tunlet.Protocol.ControlChallenge
use tunlet.Protocol.ControlChallenge.{ControlChallenge}
use tunlet.Protocol.Registered
use tunlet.Protocol.Registered.{Registered}
use tunlet.Protocol.Small.{decode_error}
use tunlet.Protocol.Frame.{require_kind, require_type, type_eq}
use tunlet.Protocol.Exchange.{random, answer, map_err}
use tunlet.Auth.{verify, ready_transcript, label_control_server, label_control_ready}
use tunlet.Client.Register.{
  Failure, classify, transport, check_challenge, check_registered, register,
}

-- Not an error of a socket.
abbrev pub NotIo : AppError → Type 0
NotIo (AppError.io _) = ⊥
NotIo _ = Unit {0}

abbrev pub Persists : Failure → Type 0
Persists (Failure.fatal e) = NotIo e
Persists Failure.retry = Unit {0}

-- A step of the handshake that does not fail for good because of a socket.
abbrev pub Robust : {A : Type 0} → Result Failure A → Type 0
Robust (ok _) = Unit {0}
Robust (err failure) = Persists failure

Robust->>= :
    {A B : Type 0} (m : Result Failure A) (f : A → Result Failure B)
    → Robust m
    → ((a : A) → Robust (f a))
    → Robust (m >>= f)
Robust->>= (ok a) f h k = k a
Robust->>= (err e) f h k = h

Robust-random : (nonce : Option Nonce) → Robust (map_err Failure.fatal (random nonce))
Robust-random none = tt
Robust-random (some n) = tt

Robust-lift : {A : Type 0} (r : Result ProtocolError A) → Robust (map_err Failure.fatal (lift r))
Robust-lift (ok a) = tt
Robust-lift (err e) = tt

Robust-transport : {A : Type 0} (r : Result AppError A) → Robust (map_err transport r)
unfolding transport
Robust-transport (ok a) = tt
Robust-transport (err (AppError.io x)) = tt
Robust-transport (err (AppError.cli x)) = tt
Robust-transport (err (AppError.config x)) = tt
Robust-transport (err (AppError.runtime x)) = tt
Robust-transport (err (AppError.protocol x)) = tt
Robust-transport (err AppError.auth) = tt
Robust-transport (err (AppError.registration x)) = tt

Persists-classify : (code : ErrorCode) → Persists (classify code)
unfolding classify
Persists-classify code = elim (Bool-cases (is_fatal_for_client code)) [
  | inl e ↦ rw e tt
  | inr e ↦ rw e tt
]

Robust-answer :
    (kind : Kind) (ty : MessageType) (reader : List ℕ)
    → Robust (answer transport Failure.fatal classify kind ty reader)
unfolding answer
Robust-answer kind ty reader = Robust->>= _ _ (Robust-transport _) (λ (frame, rest).
    Robust->>= _ _ (Robust-lift (require_kind frame kind)) (λ _.
      elim (Bool-cases (type_eq frame.ty error)) [
        | inl e ↦ rw e (
            Robust->>= _ _ (Robust-lift (decode_error frame.payload))
              (λ code. Persists-classify code))
        | inr e ↦ rw e (Robust->>= _ _ (Robust-lift (require_type frame ty)) (λ _. tt))
      ]))

module _ (hmac : List ℕ → List ℕ → Mac) (key : List ℕ) where
  Robust-check_challenge :
      (t : List ℕ) (c : ControlChallenge) → Robust (check_challenge hmac key t c)
  unfolding check_challenge
  Robust-check_challenge t c =
      elim (Bool-cases (verify hmac key label_control_server t c.server_mac)) [
        | inl e ↦ rw e tt
        | inr e ↦ rw e tt
      ]

  Robust-check_registered :
      (t : List ℕ) (requested : ℕ) (r : Registered)
      → Robust (check_registered hmac key t requested r)
  unfolding check_registered
  Robust-check_registered t requested r =
      elim (Bool-cases (
        verify hmac key label_control_ready (ready_transcript t r.assigned_port r.max_connections)
          r.ready_mac)) [
            | inr e ↦ rw e tt
            | inl e ↦
                elim (Bool-cases (not (requested == 0) && not (r.assigned_port == requested))) [
                  | inl e1 ↦ rw (e, e1) tt
                  | inr e1 ↦ rw (e, e1) tt
                ]
          ]

  pub Robust-register :
      (faults : Faults) (nonce : Option Nonce) (id : InstanceId) (mode : Mode) (requested : ℕ)
      (reader : List ℕ)
      → Robust (register hmac key faults nonce id mode requested reader)
  unfolding register
  Robust-register faults nonce id mode requested reader =
      Robust->>= _ _ (Robust-transport _) (λ preamble. Robust->>= _ _ (Robust-random nonce) (λ n.
        Robust->>= _ _ (Robust-transport _) (λ w.
          Robust->>= _ _ (Robust-answer Kind.control MessageType.control_challenge reader)
            (λ (f, rest). Robust->>= _ _ (Robust-lift (ControlChallenge.decode f.payload)) (λ c.
              Robust->>= _ _ (Robust-check_challenge _ c) (λ _.
                Robust->>= _ _ (Robust-transport _) (λ w'.
                  Robust->>= _ _ (Robust-answer Kind.control MessageType.registered rest)
                    (λ (f', rest').
                      Robust->>= _ _ (Robust-lift (Registered.decode f'.payload)) (λ r.
                        Robust->>= _ _ (Robust-check_registered _ requested r) (λ _. tt))))))))))
