-- ===== src/Control/Serve/Laws.antt =====
-- src/server/control.rs: the registry behind the end of a control connection.
use tunlet.Prelude.{
  ℕ, ◌≡◌, ◌≢◌, refl, sym, subst, arith, ◌+◌, ◌==◌, if◌then◌else◌, Bool, true, false, Option, none,
  some, inl, inr, Option-cases, ℕ_discrete,
}
use tunlet.Protocol.Enums.{SessionId}
use tunlet.Registry.State.{Registry, Env, SessionRef, session_of}
use tunlet.Registry.Lifecycle.{session_lost, goodbye}
use tunlet.Registry.Actor.{handle_command}
use tunlet.Registry.Handle as RegistryHandle
use tunlet.Registry.Handle.{Actor, ask}
use tunlet.Registry.Invariant.{Inv}
use tunlet.Registry.Invariant.Ending.{own_id}
use tunlet.Registry.Invariant.Lifecycle.{
  session_lost_unknown, goodbye_unknown, session_lost_stale, goodbye_stale, session_lost-Inv,
  goodbye-Inv,
}
use tunlet.Registry.Ownership.{Ports, ports_of, keep, release, endings_refine}
use tunlet.Registry.Departure.{session_lost_reserves, goodbye_releases}
use tunlet.Control.Serve.{close_session}

-- No session of that generation is registered under the identifier.
abbrev pub Ended : SessionId → ℕ → Registry → Type 0
Ended id generation self =
    (s : SessionRef) → session_of self id ≡ some s → s.generation ≢ generation

nobody :
    (id : SessionId) (generation : ℕ) (self : Registry)
    → session_of self id ≡ none
    → Ended id generation self
nobody id generation self e s h = absurd (cc)

other :
    (id : SessionId) (generation : ℕ) (self : Registry) (t : SessionRef)
    → session_of self id ≡ some t
    → t.generation ≢ generation
    → Ended id generation self
other id generation self t e stale s h same = ground arith

-- Both ends of a session: what they leave.
ends :
    (env : Env) (self : Registry) (id : SessionId) (generation : ℕ)
    → Inv self
    → Ended id generation (session_lost env id generation self)
      × Ended id generation (goodbye id generation self)
ends env self id generation v = elim (Option-cases (session_of self id)) [
  | inl e ↦ (
    rw (session_lost_unknown env self id generation e) (nobody id generation self e),
    rw (goodbye_unknown self id generation e) (nobody id generation self e),
  )
  | inr (t, e) ↦ elim (ℕ_discrete t.generation generation) [
    | no stale ↦ (
      rw (session_lost_stale env self id t generation e stale) (other id generation self t e stale),
      rw (goodbye_stale self id t generation e stale) (other id generation self t e stale),
    )
    | yes same ↦
        let own = own_id self id t v e in
        let known : session_of self t.session_id ≡ some t =
          subst (λ i. session_of self i ≡ some t) (sym own) e in
        subst
          (λ i.
            Ended i generation (session_lost env i generation self)
            × Ended i generation (goodbye i generation self))
          own
          (subst
            (λ g.
              Ended t.session_id g (session_lost env t.session_id g self)
              × Ended t.session_id g (goodbye t.session_id g self))
            same
            (
              nobody t.session_id t.generation (session_lost env t.session_id t.generation self)
                  (session_lost_reserves self t v known env).1.session,
              nobody t.session_id t.generation (goodbye t.session_id t.generation self)
                  (goodbye_releases self t v known).1.session,
            ))
  ]
]

lost_handled :
    (env : Env) (self : Registry) (id : SessionId) (generation : ℕ)
    → RegistryHandle.session_lost env (some self) id generation
      ≡ some (session_lost env id generation self)
unfolding RegistryHandle.session_lost ask handle_command
lost_handled env self id generation = refl

goodbye_handled :
    (env : Env) (self : Registry) (id : SessionId) (generation : ℕ)
    → RegistryHandle.goodbye env (some self) id generation ≡ some (goodbye id generation self)
unfolding RegistryHandle.goodbye ask handle_command
goodbye_handled env self id generation = refl

-- What the end of a session does to the ports: they are as they were unless the session is
-- registered under the generation; a goodbye frees its port, a loss keeps it for its instance.
abbrev leaves : Bool → SessionRef → ℕ → Ports → Ports
leaves true s until ports = release s.port ports
leaves false s until ports = keep s.port s.instance_id until ports

abbrev pub left : Bool → Option SessionRef → ℕ → ℕ → Ports → Ports
left clean none generation until ports = ports
left clean (some s) generation until ports =
    if s.generation == generation then leaves clean s until ports else ports

-- Both ends of a session: what they do to the ports.
ports-ends :
    (env : Env) (self : Registry) (id : SessionId) (generation q : ℕ)
    → Inv self
    → (ports_of (session_lost env id generation self) q
        ≡ left false
            (session_of self id)
            generation
            (env.now + self.timing.reservation)
            (ports_of self)
            q)
      × (ports_of (goodbye id generation self) q
          ≡ left true
              (session_of self id)
              generation
              (env.now + self.timing.reservation)
              (ports_of self)
              q)
ports-ends env self id generation q v = elim (Option-cases (session_of self id)) [
  | inl e ↦
      rw (session_lost_unknown env self id generation e, goodbye_unknown self id generation e, e)
        (refl, refl)
  | inr (t, e) ↦ elim (ℕ_discrete t.generation generation) [
    | no stale ↦
        let lost = session_lost_stale env self id t generation e stale in
        let closed = goodbye_stale self id t generation e stale in
        rw (lost, closed, e) (ground arith, ground arith)
    | yes same ↦
        let own = own_id self id t v e in
        let known : session_of self t.session_id ≡ some t =
          subst (λ i. session_of self i ≡ some t) (sym own) e in
        let (lost, closed, expired) = endings_refine self t env 0 q v known in
        let until = env.now + self.timing.reservation in
        subst
          (λ i.
            (ports_of (session_lost env i generation self) q
              ≡ left false (session_of self i) generation until (ports_of self) q)
            × (ports_of (goodbye i generation self) q
                ≡ left true (session_of self i) generation until (ports_of self) q))
          own
          (subst
            (λ g.
              (ports_of (session_lost env t.session_id g self) q
                ≡ left false (session_of self t.session_id) g until (ports_of self) q)
              × (ports_of (goodbye t.session_id g self) q
                  ≡ left true (session_of self t.session_id) g until (ports_of self) q))
            same (rw (lost, closed, known) (ground arith, ground arith)))
  ]
]

-- Where the tables of a running actor agree, the end of a control connection leaves it running
-- with tables that agree, and under the identifier of the session no session of its generation is
-- registered. If one was, a clean end frees its port and any other end keeps that port for its
-- instance until the reservation time from now; every other port has the owner that it had, and
-- all have if none was.
pub close_session_ends :
    (env : Env) (self : Registry) (id : SessionId) (generation : ℕ) (clean : Bool)
    → Inv self
    → (self' : Registry) × (close_session env (some self) id generation clean ≡ some self')
      × Inv self'
      × Ended id generation self'
      × ((q : ℕ)
          → ports_of self' q
            ≡ left clean
                (session_of self id)
                generation
                (env.now + self.timing.reservation)
                (ports_of self)
                q)
unfolding close_session
close_session_ends env self id generation true v = (
  goodbye id generation self,
  goodbye_handled env self id generation,
  goodbye-Inv id generation self v,
  (ends env self id generation v).1,
  λ q. (ports-ends env self id generation q v).1,
)
close_session_ends env self id generation false v = (
  session_lost env id generation self,
  lost_handled env self id generation,
  session_lost-Inv env id generation self v,
  (ends env self id generation v).0,
  λ q. (ports-ends env self id generation q v).0,
)
