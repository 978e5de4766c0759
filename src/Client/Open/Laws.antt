-- ===== src/Client/Open/Laws.antt =====
-- src/client/data.rs: what becomes of a request, as the server's session reads it.
use tunlet.Prelude.{
  ℕ, ◌≡◌, refl, subst, arith, ◌+◌, ◌-◌, ◌≤◌, ◌<◌, min, leb, Bool, true, false, List, [], ◌∷◌,
  length, ◌⊎◌, inl, inr, Bool-cases,
}
use tunlet.Error.{AppError, Result, ok, err, Result-cases}
use tunlet.Protocol.Enums.{Mac, SessionId, RequestId, OpenFailure}
use tunlet.Protocol.OpenFailed.{decode-encode_open_failed}
use tunlet.Protocol.Frame.{Frame}
use tunlet.Registry.State.{Outbound}
use tunlet.Registry.Actor.{open_failed}
use tunlet.Control.Session
use tunlet.Control.Session.{Heartbeat}
use tunlet.Client.Open.{
  Failure, cancelled, reported, remaining, Setup, OpenContext, data_handshake, setup, forwarded,
  queued, report_frame, handle_open,
}

-- The three looks at the clock, the dials and the handshake of a set-up, up to one that fails.
module _ (hmac : List ℕ → List ℕ → Mac) (key : List ℕ) (context : OpenContext) (deadline : ℕ)
    (s : Setup) where
  -- The dials may start.
  abbrev Dials : Type 0
  Dials = (s.first < deadline) × (s.second < deadline)

  abbrev Target : Type 0
  Target =
      Dials × (s.target_reached (min context.timing.target_connect (deadline - s.first)) ≡ true)

  abbrev Connects : Type 0
  Connects = Target × (s.data_reached (deadline - s.second) ≡ true)

  abbrev pub InTime : Type 0
  InTime = Connects × (s.third < deadline) × (s.handshake_ends (deadline - s.third) ≡ true)

  abbrev shaken : Result AppError (List ℕ × List ℕ)
  shaken = data_handshake hmac key s.faults s.nonce context.session_id context.request_id s.reader

  -- Why a set-up fails with a reason.
  pub data Because : OpenFailure → Type 0 where
    first_late : deadline ≤ s.first → Because OpenFailure.setup_timeout
    second_late : s.first < deadline → deadline ≤ s.second → Because OpenFailure.setup_timeout
    no_target :
        Dials
        → s.target_reached (min context.timing.target_connect (deadline - s.first)) ≡ false
        → Because OpenFailure.target_connect
    no_server :
        Target → s.data_reached (deadline - s.second) ≡ false → Because OpenFailure.data_auth
    third_late : Connects → deadline ≤ s.third → Because OpenFailure.setup_timeout
    handshake_late :
        Connects
        → s.third < deadline
        → s.handshake_ends (deadline - s.third) ≡ false
        → Because OpenFailure.setup_timeout
    handshake_fails : InTime → (e : AppError) → shaken ≡ err e → Because OpenFailure.data_auth

  -- What a set-up comes to, by its independent description.
  abbrev Described : Result Failure (List ℕ × List ℕ) → Type 0
  Described (ok streams) = InTime × (shaken ≡ ok streams)
  Described (err cancelled) = ⊥
  Described (err (reported reason)) = Because reason

  setup-Described : Described (setup hmac key context deadline s)
  unfolding setup remaining
  setup-Described = elim (Bool-cases (leb deadline s.first)) [
    | inl e ↦ rw (setup, e) (first_late (ground arith))
    | inr e ↦ elim (Bool-cases (leb deadline s.second)) [
      | inl e1 ↦ rw (setup, e, e1) (second_late (ground arith) (ground arith))
      | inr e1 ↦
          let dials : Dials = (ground arith, ground arith) in
          elim (Bool-cases
            (s.target_reached (min context.timing.target_connect (deadline - s.first)))) [
              | inr e2 ↦ rw (setup, e, e1, e2) (no_target dials e2)
              | inl e2 ↦ elim (Bool-cases (s.data_reached (deadline - s.second))) [
                | inr e3 ↦ rw (setup, e, e1, e2, e3) (no_server (dials, e2) e3)
                | inl e3 ↦ elim (Bool-cases (leb deadline s.third)) [
                  | inl e4 ↦
                      rw (setup, e, e1, e2, e3, e4) (third_late ((dials, e2), e3) (ground arith))
                  | inr e4 ↦
                      let third : s.third < deadline = ground arith in
                      elim (Bool-cases (s.handshake_ends (deadline - s.third))) [
                        | inr e5 ↦
                            rw (setup, e, e1, e2, e3, e4, e5)
                              (handshake_late ((dials, e2), e3) third e5)
                        | inl e5 ↦
                            let in_time : InTime = (((dials, e2), e3), third, e5) in
                            elim (Result-cases shaken) [
                              | inl (streams, e6) ↦
                                  rw (setup, e, e1, e2, e3, e4, e5, e6) (in_time, e6)
                              | inr (x, e6) ↦
                                  rw (setup, e, e1, e2, e3, e4, e5, e6)
                                    (handshake_fails in_time x e6)
                            ]
                      ]
                ]
              ]
            ]
    ]
  ]

-- A report, as the server's session takes it.
report_handled :
    (accepts : Outbound → Bool) (session_id : SessionId) (beat : Heartbeat) (request_id : RequestId)
    (reason : OpenFailure)
    → length request_id ≡ 16
    → Session.handle_frame accepts session_id beat (report_frame request_id reason) ≡ record {
      verdict = Session.going beat;
      queued = [];
      commands = open_failed session_id request_id reason ∷ [];
    }
unfolding Session.handle_frame
report_handled accepts session_id beat request_id reason size =
    rw
      (
        Session.handle_frame,
        decode-encode_open_failed (record { request_id = request_id; reason = reason }) size,
      )
      refl

-- A client whose queue has room answers an OPEN request, in which it is not cancelled, in one of
-- two ways. It forwards the connections: then every look at the clock was before the deadline, the
-- target, the server and the handshake were each reached within the budget that was left, and the
-- data handshake on the bytes of the server succeeded. Or it queues one OPEN_FAILED frame with a
-- reason that is the true one: SETUP_TIMEOUT if a look at the clock came at or behind the deadline
-- or the handshake outlasted its budget, TARGET_CONNECT if the looks before the dials were in time
-- and the target was not reached in its budget, DATA_AUTH if the target was reached and the server
-- was not, or if the data handshake failed in time; and the server's session, handling that frame,
-- goes on and tells the registry of that request and that reason.
pub handle_open_reports :
    (hmac : List ℕ → List ℕ → Mac) (key : List ℕ) (accepts : Outbound → Bool)
    (context : OpenContext) (start : ℕ) (s : Setup) (beat : Heartbeat)
    → length context.request_id ≡ 16
    → ((rest written : List ℕ) × (handle_open hmac key (λ _. true) context start false s
          ≡ forwarded rest)
        × InTime hmac key context (start + context.timing.request_wait) s
        × (data_handshake hmac key s.faults s.nonce context.session_id context.request_id s.reader
            ≡ ok (rest, written)))
      ⊎ ((reason : OpenFailure) × (f : Frame) × (handle_open hmac key
              (λ _. true)
              context
              start
              false
              s
            ≡ queued (Outbound.frame f ∷ []))
          × Because hmac key context (start + context.timing.request_wait) s reason
          × (Session.handle_frame accepts context.session_id beat f ≡ record {
            verdict = Session.going beat;
            queued = [];
            commands = open_failed context.session_id context.request_id reason ∷ [];
          }))
unfolding handle_open
handle_open_reports hmac key accepts context start s beat size =
    let deadline = start + context.timing.request_wait in
    let d = setup-Described hmac key context deadline s in
    elim (Result-cases (setup hmac key context deadline s)) [
      | inl ((rest, written), e) ↦
          let (in_time, shook) = subst (Described hmac key context deadline s) e d in
          rw (handle_open, e) (inl (rest, written, refl, in_time, shook))
      | inr (cancelled, e) ↦ absurd (subst (Described hmac key context deadline s) e d)
      | inr (reported reason, e) ↦
          let why = subst (Described hmac key context deadline s) e d in
          rw (handle_open, e)
            (inr (
              reason,
              report_frame context.request_id reason,
              refl,
              why,
              report_handled accepts context.session_id beat context.request_id reason size,
            ))
    ]
