-- ===== src/Control/Session/Laws.antt =====
-- src/server/control.rs: the heartbeats and the end of the session loop.
use tunlet.Prelude.{
  suc, ℕ, ◌≡◌, refl, arith, ◌≤◌, ◌+◌, Bool, true, none, some, List, [], ◌∷◌, ◌++◌, ◌⊎◌, ap, inl,
  inr,
}
use tunlet.Error.{ok, err}
use tunlet.Protocol.Enums.{MessageType, SessionId}
use tunlet.Protocol.Frame.{Frame}
use tunlet.Timing.{Timing}
use tunlet.Registry.State.{Outbound}
use tunlet.Control.Session.{
  Heartbeat, Wake, received, Verdict, going, ended, turn, handle_frame, session_loop,
}

Verdict-cases :
    (v : Verdict) → ((beat : Heartbeat) × (v ≡ going beat)) ⊎ ((clean : Bool) × (v ≡ ended clean))
Verdict-cases (going beat) = inl (beat, refl)
Verdict-cases (ended clean) = inr (clean, refl)

turn_clean :
    (accepts : Outbound → Bool) (timing : Timing) (id : SessionId) (beat : Heartbeat) (w : Wake)
    → (turn accepts timing id beat w).verdict ≡ ended true
    → (f : Frame) × (w ≡ received (ok f)) × (f.ty ≡ MessageType.goodbye)
unfolding turn handle_frame
turn_clean accepts timing id beat (received (ok f)) e = (f, refl, ground arith)
turn_clean accepts timing id beat (received (err x)) e = absurd (cc)
turn_clean accepts timing id beat Wake.cancelled e = absurd (cc)
turn_clean accepts timing id beat Wake.closed e = absurd (cc)
turn_clean accepts timing id beat Wake.overdue e = absurd (ground arith)
turn_clean accepts timing id beat (Wake.tick now) e = absurd (ground arith)

abbrev pub is_ping : Outbound → ℕ
is_ping Outbound.close_after_flush = 0
is_ping (Outbound.frame f) = elim f.ty [ MessageType.ping ↦ 1 | _ ↦ 0 ]

-- The pings among queued messages, and the PONG frames among what was received.
unfoldable pub pings : List Outbound → ℕ
pings [] = 0
pings (m ∷ ms) = is_ping m + pings ms

abbrev is_pong : Wake → ℕ
is_pong (received (ok f)) = elim f.ty [ MessageType.pong ↦ 1 | _ ↦ 0 ]
is_pong _ = 0

unfoldable pub pongs : List Wake → ℕ
pongs [] = 0
pongs (w ∷ ws) = is_pong w + pongs ws

abbrev pub waiting : Heartbeat → ℕ
waiting beat = elim beat.outstanding [ none ↦ 0 | some _ ↦ 1 ]

abbrev left : Verdict → ℕ
left (going beat) = waiting beat
left (ended _) = 1

pub pings-append : (xs ys : List Outbound) → pings (xs ++ ys) ≡ pings xs + pings ys
unfolding pings
pings-append [] ys = omega arith
pings-append (x ∷ xs) ys = omega (arith, pings-append xs ys)

pings-handle_frame :
    (accepts : Outbound → Bool) (id : SessionId) (beat : Heartbeat) (f : Frame)
    → pings (handle_frame accepts id beat f).queued + waiting beat
      ≤ is_pong (received (ok f)) + left (handle_frame accepts id beat f).verdict
unfolding handle_frame pings
pings-handle_frame accepts id beat f = ground arith

pings-turn :
    (accepts : Outbound → Bool) (timing : Timing) (id : SessionId) (beat : Heartbeat) (w : Wake)
    → pings (turn accepts timing id beat w).queued + waiting beat
      ≤ is_pong w + left (turn accepts timing id beat w).verdict
unfolding turn handle_frame pings
pings-turn accepts timing id beat (received (ok f)) = pings-handle_frame accepts id beat f
pings-turn accepts timing id beat (received (err x)) = ground arith
pings-turn accepts timing id beat Wake.cancelled = ground arith
pings-turn accepts timing id beat Wake.closed = ground arith
pings-turn accepts timing id beat Wake.overdue = ground arith
pings-turn accepts timing id beat (Wake.tick now) = ground arith

-- However the session loop is woken up, the pings that it queues, and one if a ping was
-- outstanding before, are at most one more than the PONG frames that it received.
pub pings-session_loop :
    (accepts : ℕ → Outbound → Bool) (timing : Timing) (id : SessionId) (beat : Heartbeat)
    (wakes : List Wake)
    → pings (session_loop accepts timing id beat wakes).queued + waiting beat ≤ pongs wakes + 1
unfolding session_loop pings pongs
pings-session_loop accepts timing id beat [] = ground arith
pings-session_loop accepts timing id beat (w ∷ wakes) =
    elim (Verdict-cases (turn (accepts 0) timing id beat w).verdict) [
      | inl (next, e) ↦
          let here = pings-turn (accepts 0) timing id beat w in
          let later = pings-session_loop (λ n. accepts (suc n)) timing id next wakes in
          let both =
            pings-append (turn (accepts 0) timing id beat w).queued
              (session_loop (λ n. accepts (suc n)) timing id next wakes).queued in
          let here' : pings (turn (accepts 0) timing id beat w).queued + waiting beat
              ≤ is_pong w + waiting next =
            rw⁻¹ (ap left e) here in
          rw e (omega (arith, here', later, both))
      | inr (clean, e) ↦
          let here = pings-turn (accepts 0) timing id beat w in
          let here' : pings (turn (accepts 0) timing id beat w).queued + waiting beat
              ≤ is_pong w + 1 =
            rw⁻¹ (ap left e) here in
          rw e (omega (arith, here'))
    ]

ended_now :
    (accepts : ℕ → Outbound → Bool) (timing : Timing) (id : SessionId) (beat : Heartbeat) (w : Wake)
    (wakes : List Wake) (clean : Bool)
    → (turn (accepts 0) timing id beat w).verdict ≡ ended clean
    → (session_loop accepts timing id beat (w ∷ wakes)).verdict ≡ ended true
    → (turn (accepts 0) timing id beat w).verdict ≡ ended true
unfolding session_loop
ended_now accepts timing id beat w wakes clean e h = ground arith

-- The session loop ends cleanly only if a GOODBYE frame is among what it was woken up by.
pub session_loop_clean :
    (accepts : ℕ → Outbound → Bool) (timing : Timing) (id : SessionId) (beat : Heartbeat)
    (wakes : List Wake)
    → (session_loop accepts timing id beat wakes).verdict ≡ ended true
    → (before after : List Wake) × (f : Frame) × (wakes ≡ before ++ (received (ok f) ∷ after))
      × (f.ty ≡ MessageType.goodbye)
unfolding session_loop
session_loop_clean accepts timing id beat [] = λ e. absurd (cc)
session_loop_clean accepts timing id beat (w ∷ wakes) =
    elim (Verdict-cases (turn (accepts 0) timing id beat w).verdict) [
      | inl (next, e) ↦ rw e (λ h.
          let (before, after, f, split, bye) =
            session_loop_clean (λ n. accepts (suc n)) timing id next wakes h in
          (w ∷ before, after, f, ap (λ l. w ∷ l) split, bye))
      | inr (clean, e) ↦ λ h.
          let (f, here, bye) =
            turn_clean (accepts 0) timing id beat w
              (ended_now accepts timing id beat w wakes clean e h) in
          ([], wakes, f, ap (λ x. x ∷ wakes) here, bye)
    ]
