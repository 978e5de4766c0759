-- ===== src/Registry/Permits/Steps.antt =====
-- src/server/registry.rs: the permits in the steps of the actor.
use tunlet.Prelude.{
  ℕ, ◌≡◌, ◌≢◌, subst, arith, Bool, some, get_elem?, inl, inr, Option-cases, Bool-cases,
}
use tunlet.Config.{ServerConfig}
use tunlet.Timing.{Timing}
use tunlet.Protocol.Enums.{RequestId, MessageType}
use tunlet.Registry.State.{Registry, Env, SessionRef, RequestKey, session_of, outbound_frame}
use tunlet.Registry.Register.{register}
use tunlet.Registry.Public.{open_request, accepted_public, finish_task}
use tunlet.Registry.Actor.{
  Command, registers, accepted, claim_data, peek_data, open_failed, lost, goodbyes,
  request_finished, shutdown, Reply, handle_command, forget,
}
use tunlet.Registry.Invariant.{Inv}
use tunlet.Registry.Invariant.Public.{holder, accepted_public_cases}
use tunlet.Registry.Invariant.Step.{
  IsSound, Reachable, starts, sweeps, handles, ends, stops, Reachable-Inv, going_on_kept,
  quietly_kept, some_state, out_inj,
}
use tunlet.Registry.Permits.{holders, Balanced, new-Balanced, holders-erase_at, length-erase_at}
use tunlet.Registry.Permits.Registration.{register-Balanced}
use tunlet.Registry.Permits.Calm.{
  Calm-Balanced, session_lost-Calm, goodbye-Calm, sweep-Calm, shutdown_all-Calm, claim-Calm,
}

pub finish_task-Balanced : (self : Registry) (n : ℕ) → Balanced self → Balanced (finish_task self n)
unfolding finish_task
finish_task-Balanced self n b = elim (Option-cases (get_elem? self.tasks n)) [
  | inl e ↦ rw (e, finish_task) b
  | inr (task, e) ↦
      rw (e, finish_task)
        (record {
          global = omega (arith, b.global, length-erase_at n self.tasks e);
          each = λ name low high.
              ground (arith, b.each name low high, holders-erase_at name n self.tasks e);
          later =
              λ name high. ground (arith, b.later name high, holders-erase_at name n self.tasks e);
          named = b.named;
          started = b.started;
        })
]

pub open_request-Balanced :
    (env : Env) (self : Registry) (session : SessionRef) (socket at : ℕ) (request_id : RequestId)
    → Inv self
    → session_of self session.session_id ≡ some session
    → self.semaphores session.permits ≢ 0
    → self.global_connections ≢ 0
    → Balanced self
    → Balanced (open_request env self session socket at request_id)
unfolding open_request holders
open_request-Balanced env self session socket at request_id v known room global b =
    elim (Bool-cases
      (env.try_send session.writer (outbound_frame MessageType.open_request request_id))) [
        | inr full ↦
            rw full
              (Calm-Balanced (session_lost-Calm env session.session_id session.generation self v) b)
        | inl sent ↦ rw sent (record {
          global = omega (arith, b.global, global);
          each = λ name low high. ground (arith, b.each name low high, room);
          later = λ name high.
              ground (arith, b.later name high, b.named session.session_id session known);
          named = b.named;
          started = b.started;
        })
      ]

accepted_public-Balanced :
    (env : Env) (self self' : Registry) (listener_id port socket at : ℕ)
    → Inv self
    → Balanced self
    → accepted_public env self listener_id port socket at ≡ some self'
    → Balanced self'
accepted_public-Balanced env self self' listener_id port socket at v b =
    accepted_public_cases (λ r. r ≡ some self' → Balanced self') env self listener_id port socket at
      (λ e. subst Balanced (out_inj e) b) (λ e. absurd (cc))
      λ session id a free e. subst Balanced (out_inj e) (
        open_request-Balanced env self session socket at id v (holder self session port v a)
          a.session_room a.global_room b)

forget-Balanced : (self : Registry) (key : RequestKey) → Balanced self → Balanced (forget key self)
forget-Balanced self key b = record {
  global = b.global;
  each = b.each;
  later = b.later;
  named = b.named;
  started = b.started;
}

pub handle_command-Balanced :
    (env : Env) (self : Registry) (c : Command) {self' : Registry} {answer : Reply} {stop : Bool}
    → Inv self
    → Balanced self
    → IsSound self c
    → handle_command env self c ≡ some (self', answer, stop)
    → Balanced self'
unfolding handle_command
handle_command-Balanced env self (registers request) v b f =
    going_on_kept Balanced _ (register env self request)
      λ out e. register-Balanced env self request out v f b e
handle_command-Balanced env self (accepted listener_id port socket at) v b f =
    quietly_kept Balanced (accepted_public env self listener_id port socket at)
      λ r e. accepted_public-Balanced env self r listener_id port socket at v b e
handle_command-Balanced env self (claim_data id request_id socket) v b f =
    some_state Balanced (Calm-Balanced (claim-Calm env self id request_id socket) b)
handle_command-Balanced env self (peek_data id request_id) v b f = some_state Balanced b
handle_command-Balanced env self (open_failed id request_id reason) v b f =
    some_state Balanced (forget-Balanced self (id, request_id) b)
handle_command-Balanced env self (lost id generation) v b f =
    some_state Balanced (Calm-Balanced (session_lost-Calm env id generation self v) b)
handle_command-Balanced env self (goodbyes id generation) v b f =
    some_state Balanced (Calm-Balanced (goodbye-Calm id generation self v) b)
handle_command-Balanced env self (request_finished id request_id) v b f =
    some_state Balanced (forget-Balanced self (id, request_id) b)
handle_command-Balanced env self shutdown v b f =
    some_state Balanced (Calm-Balanced (shutdown_all-Calm env self) b)

-- In every state that the registry actor reaches, each of the 8192 global permits is free or held
-- by one running task, and each of the permits that a registration was given is free or held by
-- one running task of that registration: no permit is lost or taken twice.
pub Reachable-Balanced :
    {config : ServerConfig} {timing : Timing} {self : Registry}
    → Reachable config timing self
    → Balanced self
Reachable-Balanced {config} {timing} starts = new-Balanced config timing
Reachable-Balanced (sweeps {self} now r) =
    Calm-Balanced (sweep-Calm now self) (Reachable-Balanced r)
Reachable-Balanced (handles {self} env c answer stop r f e) =
    handle_command-Balanced env self c (Reachable-Inv r) (Reachable-Balanced r) f e
Reachable-Balanced (ends {self} n r) = finish_task-Balanced self n (Reachable-Balanced r)
Reachable-Balanced (stops {self} env r) =
    Calm-Balanced (shutdown_all-Calm env self) (Reachable-Balanced r)
