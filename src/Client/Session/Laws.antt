-- ===== src/Client/Session/Laws.antt =====
-- src/client/control.rs: the permits, the heartbeats and the end of a session.
use tunlet.Prelude.{
  suc, ℕ, ◌≡◌, refl, arith, ◌≤◌, ◌+◌, Bool, List, [], ◌∷◌, ◌⊎◌, ap, inl, inr, length, length-append,
}
use tunlet.Error.{ok, err}
use tunlet.Protocol.Enums.{MessageType}
use tunlet.Timing.{Timing}
use tunlet.Registry.State.{Outbound}
use tunlet.Control.Session.{initial}
use tunlet.Control.Session.Laws.{waiting, pings, pings-append}
use tunlet.Client.Session.{
  Attempt, Live, Wake, stopped, finished, received, Verdict, going, ended, open_request, goodbye,
  turn, handle_frame, session_loop, run_session,
}

pub Verdict-cases :
    (v : Verdict) → ((live : Live) × (v ≡ going live)) ⊎ ((a : Attempt) × (v ≡ ended a))
Verdict-cases (going live) = inl (live, refl)
Verdict-cases (ended a) = inr (a, refl)

abbrev is_pong : Wake → ℕ
is_pong (received (ok f)) = elim f.ty [ MessageType.pong ↦ 1 | _ ↦ 0 ]
is_pong _ = 0

-- The PONG frames among what was received, and the tasks that finished.
unfoldable pub pongs : List Wake → ℕ
pongs [] = 0
pongs (w ∷ ws) = is_pong w + pongs ws

abbrev pub is_finished : Wake → ℕ
is_finished finished = 1
is_finished _ = 0

unfoldable pub finishes : List Wake → ℕ
finishes [] = 0
finishes (w ∷ ws) = is_finished w + finishes ws

abbrev left : Verdict → ℕ
left (going live) = waiting live.beat
left (ended _) = 1

-- The permits that are left; those of a session that ended are not counted.
abbrev permits : ℕ → Verdict → ℕ
permits unused (going live) = live.free
permits unused (ended _) = unused

pings-turn :
    (accepts : Outbound → Bool) (timing : Timing) (live : Live) (w : Wake)
    → pings (turn accepts timing live w).queued + waiting live.beat
      ≤ is_pong w + left (turn accepts timing live w).verdict
unfolding turn goodbye handle_frame open_request pings
pings-turn accepts timing live (received (ok f)) = ground arith
pings-turn accepts timing live (received (err x)) = ground arith
pings-turn accepts timing live stopped = ground arith
pings-turn accepts timing live Wake.cancelled = ground arith
pings-turn accepts timing live Wake.closed = ground arith
pings-turn accepts timing live Wake.overdue = ground arith
pings-turn accepts timing live finished = ground arith
pings-turn accepts timing live (Wake.tick now) = ground arith

pub permits-turn :
    (accepts : Outbound → Bool) (timing : Timing) (live next : Live) (w : Wake)
    → (turn accepts timing live w).verdict ≡ going next
    → length (turn accepts timing live w).started + next.free ≡ live.free + is_finished w
unfolding turn goodbye handle_frame open_request
permits-turn accepts timing live next (received (ok f)) e = ground arith
permits-turn accepts timing live next (received (err x)) e = absurd (cc)
permits-turn accepts timing live next stopped e = absurd (cc)
permits-turn accepts timing live next Wake.cancelled e = absurd (cc)
permits-turn accepts timing live next Wake.closed e = absurd (cc)
permits-turn accepts timing live next Wake.overdue e = ground arith
permits-turn accepts timing live next finished e = ground arith
permits-turn accepts timing live next (Wake.tick now) e = ground arith

ended_starts :
    (accepts : Outbound → Bool) (timing : Timing) (live : Live) (w : Wake) (a : Attempt)
    → (turn accepts timing live w).verdict ≡ ended a
    → length (turn accepts timing live w).started ≡ 0
unfolding turn goodbye handle_frame open_request
ended_starts accepts timing live (received (ok f)) a e = ground arith
ended_starts accepts timing live (received (err x)) a e = refl
ended_starts accepts timing live stopped a e = refl
ended_starts accepts timing live Wake.cancelled a e = refl
ended_starts accepts timing live Wake.closed a e = refl
ended_starts accepts timing live Wake.overdue a e = ground arith
ended_starts accepts timing live finished a e = refl
ended_starts accepts timing live (Wake.tick now) a e = ground arith

pings-session_loop :
    (accepts : ℕ → Outbound → Bool) (timing : Timing) (live : Live) (wakes : List Wake)
    → pings (session_loop accepts timing live wakes).queued + waiting live.beat ≤ pongs wakes + 1
unfolding session_loop pings pongs
pings-session_loop accepts timing live [] = ground arith
pings-session_loop accepts timing live (w ∷ wakes) =
    elim (Verdict-cases (turn (accepts 0) timing live w).verdict) [
      | inl (next, e) ↦
          let here = pings-turn (accepts 0) timing live w in
          let later = pings-session_loop (λ n. accepts (suc n)) timing next wakes in
          let both =
            pings-append (turn (accepts 0) timing live w).queued
              (session_loop (λ n. accepts (suc n)) timing next wakes).queued in
          let here' : pings (turn (accepts 0) timing live w).queued + waiting live.beat
              ≤ is_pong w + waiting next.beat =
            rw⁻¹ (ap left e) here in
          rw e (omega (arith, here', later, both))
      | inr (a, e) ↦
          let here = pings-turn (accepts 0) timing live w in
          let here' : pings (turn (accepts 0) timing live w).queued + waiting live.beat
              ≤ is_pong w + 1 =
            rw⁻¹ (ap left e) here in
          rw e (omega (arith, here'))
    ]

-- However a client's session is woken up, the pings that it queues are at most one more than the
-- PONG frames that it received.
pub pings-run_session :
    (accepts : ℕ → Outbound → Bool) (timing : Timing) (max : ℕ) (wakes : List Wake)
    → pings (run_session accepts timing max wakes).queued ≤ pongs wakes + 1
unfolding run_session
pings-run_session accepts timing max wakes =
    omega (arith, pings-session_loop accepts timing (record { beat = initial; free = max }) wakes)

started-session_loop :
    (accepts : ℕ → Outbound → Bool) (timing : Timing) (live : Live) (wakes : List Wake)
    → length (session_loop accepts timing live wakes).started
        + permits 0 (session_loop accepts timing live wakes).verdict
      ≤ live.free + finishes wakes
unfolding session_loop finishes
started-session_loop accepts timing live [] = ground arith
started-session_loop accepts timing live (w ∷ wakes) =
    elim (Verdict-cases (turn (accepts 0) timing live w).verdict) [
      | inl (next, e) ↦
          let here = permits-turn (accepts 0) timing live next w e in
          let later = started-session_loop (λ n. accepts (suc n)) timing next wakes in
          let both =
            length-append (turn (accepts 0) timing live w).started
              (session_loop (λ n. accepts (suc n)) timing next wakes).started in
          rw e (omega (arith, here, later, both))
      | inr (a, e) ↦
          let here = ended_starts (accepts 0) timing live w a e in rw e (omega (arith, here))
    ]

-- However a client's session is woken up, the data connections that it starts are at most the
-- maximum that the server granted and one more for each that finished.
pub started-run_session :
    (accepts : ℕ → Outbound → Bool) (timing : Timing) (max : ℕ) (wakes : List Wake)
    → length (run_session accepts timing max wakes).started ≤ max + finishes wakes
unfolding run_session
started-run_session accepts timing max wakes =
    omega (arith, started-session_loop accepts timing (record { beat = initial; free = max }) wakes)
