-- ===== src/Registry/Displaced.antt =====
-- src/server/registry.rs: the notices of a session whose port was taken over, which come late.
use tunlet.Prelude.{◌≡◌, ◌≢◌, arith, none, some}
use tunlet.Error.{ok}
use tunlet.Registry.State.{Registry, Env, SessionRef, RegisterRequest, Registration, session_of}
use tunlet.Registry.Register.{register}
use tunlet.Registry.Lifecycle.{session_lost, goodbye}
use tunlet.Registry.Invariant.{Inv}
use tunlet.Registry.Invariant.Lifecycle.{session_lost_unknown, goodbye_unknown}
use tunlet.Registry.Invariant.Step.{IsFresh}
use tunlet.Registry.Outcome.{register_accepted}

another_id :
    (self : Registry) (request : RegisterRequest) (s : SessionRef)
    → session_of self request.session_id ≡ none
    → session_of self s.session_id ≡ some s
    → s.session_id ≢ request.session_id
another_id self request s unknown known same = absurd (ground arith)

taken_over :
    (env : Env) (self self' : Registry) (request : RegisterRequest) (answer : Registration)
    (s : SessionRef)
    → Inv self
    → IsFresh self request
    → register env self request ≡ some (self', ok answer)
    → session_of self s.session_id ≡ some s
    → s.port ≡ answer.assigned_port
    → session_of self' s.session_id ≡ none
taken_over env self self' request answer s v f done known same =
    let r = register_accepted env self self' request answer v f done in
    let others = r.others s.session_id (another_id self request s f.unknown known) in ground (arith)

-- Where the tables agree and a fresh registration that succeeds is assigned the port of a
-- registered session, that session is displaced: the loss and the goodbye that its own connection
-- still reports under its generation change nothing.
pub displaced_notices :
    (env env' : Env) (self self' : Registry) (request : RegisterRequest) (answer : Registration)
    (s : SessionRef)
    → Inv self
    → IsFresh self request
    → register env self request ≡ some (self', ok answer)
    → session_of self s.session_id ≡ some s
    → s.port ≡ answer.assigned_port
    → (session_lost env' s.session_id s.generation self' ≡ self')
      × (goodbye s.session_id s.generation self' ≡ self')
displaced_notices env env' self self' request answer s v f done known same =
    let gone = taken_over env self self' request answer s v f done known same in
    (
      session_lost_unknown env' self' s.session_id s.generation gone,
      goodbye_unknown self' s.session_id s.generation gone,
    )
