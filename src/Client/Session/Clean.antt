-- ===== src/Client/Session/Clean.antt =====
-- src/client/control.rs: how a session ends cleanly.
use tunlet.Prelude.{ℕ, suc, ◌≡◌, refl, arith, ◌<◌, ◌+◌, Bool, List, [], ◌∷◌, inl, inr}
use tunlet.Error.{ok, err}
use tunlet.Timing.{Timing}
use tunlet.Registry.State.{Outbound}
use tunlet.Control.Session.{initial}
use tunlet.Client.Session.{
  clean, Live, Wake, stopped, finished, received, ended, open_request, turn, handle_frame,
  session_loop, run_session,
}
use tunlet.Client.Session.Laws.{Verdict-cases}

abbrev is_stopped : Wake → ℕ
is_stopped stopped = 1
is_stopped _ = 0

-- How often the process was asked to stop.
unfoldable pub stops : List Wake → ℕ
stops [] = 0
stops (w ∷ ws) = is_stopped w + stops ws

turn_clean :
    (accepts : Outbound → Bool) (timing : Timing) (live : Live) (w : Wake)
    → (turn accepts timing live w).verdict ≡ ended clean
    → is_stopped w ≡ 1
unfolding turn handle_frame open_request
turn_clean accepts timing live (received (ok f)) e = absurd (ground arith)
turn_clean accepts timing live (received (err x)) e = absurd (ground arith)
turn_clean accepts timing live stopped e = refl
turn_clean accepts timing live Wake.cancelled e = absurd (cc)
turn_clean accepts timing live Wake.closed e = absurd (cc)
turn_clean accepts timing live Wake.overdue e = absurd (ground arith)
turn_clean accepts timing live finished e = absurd (cc)
turn_clean accepts timing live (Wake.tick now) e = absurd (ground arith)

session_loop_clean :
    (accepts : ℕ → Outbound → Bool) (timing : Timing) (live : Live) (wakes : List Wake)
    → (session_loop accepts timing live wakes).verdict ≡ ended clean
    → 0 < stops wakes
unfolding session_loop stops
session_loop_clean accepts timing live [] = λ h. absurd (cc)
session_loop_clean accepts timing live (w ∷ wakes) =
    elim (Verdict-cases (turn (accepts 0) timing live w).verdict) [
      | inl (next, e) ↦
          rw e (λ h. omega (arith, session_loop_clean (λ n. accepts (suc n)) timing next wakes h))
      | inr (a, e) ↦ λ h.
          let now : (turn (accepts 0) timing live w).verdict ≡ ended clean = ground arith in
          omega (arith, turn_clean (accepts 0) timing live w now)
    ]

-- A client's session ends cleanly only if the process was asked to stop.
run_session_clean :
    (accepts : ℕ → Outbound → Bool) (timing : Timing) (max : ℕ) (wakes : List Wake)
    → (run_session accepts timing max wakes).verdict ≡ ended clean
    → 0 < stops wakes
unfolding run_session
run_session_clean accepts timing max wakes =
    session_loop_clean accepts timing (record { beat = initial; free = max }) wakes
