-- ===== src/Client/Session/Tests.antt =====
-- src/client/control.rs and src/client/data.rs: a session and its requests as examples.
use tunlet.Prelude.{ℕ, ◌≡◌, refl, ◌+◌, true, false, some, List, [], ◌∷◌, replicate, length, ◌⊎◌}
use tunlet.Error.{ok}
use tunlet.Protocol.Enums.{MessageType, Mac, SessionId, RequestId, OpenFailure}
use tunlet.Protocol.Frame.{Frame, no_faults}
use tunlet.Protocol.Small.{decode_request_id}
use tunlet.Timing
use tunlet.Registry.State.{Outbound}
use tunlet.Registry.Actor.{open_failed}
use tunlet.Control.Session as ServerSession
use tunlet.Control.Session.{initial}
use tunlet.Client.Session.{
  Live, Wake, finished, received, going, run_session, session_loop, turn, handle_frame,
  open_request,
}
use tunlet.Client.Session.Laws.{finishes}
use tunlet.Client.Session.Requests.{Merge, asked, refused, merge-run_session, always, unbounded}
use tunlet.Client.Open.{
  Setup, OpenContext, forwarded, queued, handle_open, setup, remaining, report_frame,
  data_handshake,
}
use tunlet.Client.Open.Laws.{InTime, Because, handle_open_reports}

abbrev request_id : RequestId
request_id = replicate 16 5

abbrev session_id : SessionId
session_id = replicate 16 4

abbrev open_frame : Wake
open_frame = received (ok (record { ty = MessageType.open_request; payload = request_id }))

-- Two requests at a maximum of one, the end of the first, and a third.
abbrev wakes : List Wake
wakes = open_frame ∷ (open_frame ∷ (finished ∷ (open_frame ∷ [])))

abbrev last : Live
last = record { beat = initial; free = 0 }

goes_on : (run_session unbounded Timing.default 1 wakes).verdict ≡ going last
unfolding run_session session_loop turn handle_frame open_request decode_request_id
goes_on = refl

merge-run_session_example :
    Merge
      (run_session unbounded Timing.default 1 wakes).started
      (refused (run_session unbounded Timing.default 1 wakes).queued)
      (asked wakes)
    × (length (run_session unbounded Timing.default 1 wakes).started + 0 ≡ 1 + finishes wakes)
merge-run_session_example = merge-run_session Timing.default 1 wakes last goes_on

-- A function in the place of the HMAC.
abbrev constant : List ℕ → List ℕ → Mac
constant key message = replicate 32 9

abbrev context : OpenContext
context = record { request_id = request_id; session_id = session_id; timing = Timing.default }

-- The target does not answer.
abbrev bad : Setup
bad = record {
  first = 100;
  second = 100;
  third = 200;
  target_reached = λ budget. false;
  data_reached = λ budget. true;
  handshake_ends = λ budget. true;
  nonce = some (replicate 32 3);
  faults = no_faults;
  reader = [];
}

handle_open_reports_example :
    ((rest written : List ℕ) × (handle_open constant [] (λ _. true) context 100 false bad
        ≡ forwarded rest)
      × InTime constant [] context (100 + Timing.default.request_wait) bad
      × (data_handshake constant [] no_faults (some (replicate 32 3)) session_id request_id []
          ≡ ok (rest, written)))
    ⊎ ((reason : OpenFailure) × (f : Frame) × (handle_open constant []
            (λ _. true)
            context
            100
            false
            bad
          ≡ queued (Outbound.frame f ∷ []))
        × Because constant [] context (100 + Timing.default.request_wait) bad reason
        × (ServerSession.handle_frame always session_id initial f ≡ record {
          verdict = ServerSession.going initial;
          queued = [];
          commands = open_failed session_id request_id reason ∷ [];
        }))
handle_open_reports_example = handle_open_reports constant [] always context 100 bad initial refl

failed_target :
    handle_open constant [] (λ _. true) context 100 false bad
    ≡ queued (Outbound.frame (report_frame request_id OpenFailure.target_connect) ∷ [])
unfolding handle_open setup remaining
failed_target = refl
