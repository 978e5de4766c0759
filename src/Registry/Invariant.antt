-- ===== src/Registry/Invariant.antt =====
-- src/server/registry.rs: the invariant of the registry actor.
pub mod Slots
pub mod Ending
pub mod Lifecycle
pub mod TakeOver
pub mod Register
pub mod Sweep
pub mod Public
pub mod Step
use tunlet.Prelude.{
  ℕ, ◌≡◌, refl, arith, ◌≤◌, ◌<◌, none, some, length, ℕ_discrete, List, [], ◌∷◌, Option, ite,
}
use tunlet.Prelude.Maps.{lookup, Distinct}
use tunlet.Prelude.Bytes.{bytes_discrete}
use tunlet.Protocol.Enums.{SessionId}
use tunlet.Config.{ServerConfig}
use tunlet.Timing.{Timing}
use tunlet.Registry.State.{
  Registry, SessionRef, PortSlot, PendingRequest, RequestKey, key_discrete, slot_at, session_of,
  request_of, max_slots, new,
}
use tunlet.Registry.Consistent.{Consistent, active_in}

abbrev pub owner_at : Registry → ℕ → Option SessionRef
owner_at self port = active_in (slot_at self port)

-- `agreed` ties ports, sessions and requests together; a generation is below the counter; the
-- number of slots is within the limit; and the control port is never a public port.
pub record Holds (control generation : ℕ) (ports : List (ℕ × PortSlot))
    (sessions : List (SessionId × SessionRef)) (pending : List (RequestKey × PendingRequest))
    : Type 0 where
  pub agreed :
      Consistent
        (λ p. active_in (lookup ℕ_discrete p ports))
        (λ id. lookup bytes_discrete id sessions)
        (λ key. lookup key_discrete key pending)
  pub young :
      (id : SessionId) (s : SessionRef)
      → lookup bytes_discrete id sessions ≡ some s
      → s.generation < generation
  pub few_slots : length ports ≤ max_slots
  pub control_port : lookup ℕ_discrete control ports ≡ none
  pub distinct_ports : Distinct ℕ_discrete ports
  pub distinct_requests : Distinct key_discrete pending

abbrev pub Inv : Registry → Type 0
Inv self = Holds self.config.listen.port self.next_generation self.ports self.sessions self.pending

-- The registry starts in it.
pub new-Inv : (config : ServerConfig) (timing : Timing) → Inv (new config timing)
unfolding new lookup
new-Inv config timing = record {
  agreed = record {
    slot_session = λ p s h. cc;
    session_slot = λ id s h. cc;
    request_session = λ key e h. absurd (cc);
  };
  young = λ id s h. cc;
  few_slots = omega arith;
  control_port = refl;
  distinct_ports = tt;
  distinct_requests = tt;
}
