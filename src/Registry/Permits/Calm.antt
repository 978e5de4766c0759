-- ===== src/Registry/Permits/Calm.antt =====
-- src/server/registry.rs: the permits in the operations that do not deal in them.
use tunlet.Prelude.{ℕ, ◌≡◌, refl, ◌∙◌, arith, some, List, [], ◌∷◌, inl, inr, Option-cases}
use tunlet.Prelude.Maps.{lookup, remove, lookup-remove}
use tunlet.Prelude.Bytes.{bytes_discrete}
use tunlet.Protocol.Enums.{SessionId, RequestId, MessageType}
use tunlet.Registry.State.{
  Registry, Env, SessionRef, PortSlot, session_of, slot_at, emit, try_send, cancelled,
  close_after_flush, outbound_frame,
}
use tunlet.Registry.Register.{drop_pending_for}
use tunlet.Registry.Lifecycle.{
  session_lost, goodbye, sweep, shutdown_all, release_slot, release_all, notify_all,
  cancel_listeners,
}
use tunlet.Registry.Public.{claim}
use tunlet.Registry.Invariant.{Inv}
use tunlet.Registry.Invariant.Lifecycle.{session_lost_cases, goodbye_cases}
use tunlet.Registry.Permits.{Balanced}

pub record Calm (self self' : Registry) : Type 0 where
  pub config : self'.config ≡ self.config
  pub global : self'.global_connections ≡ self.global_connections
  pub tasks : self'.tasks ≡ self.tasks
  pub semaphores : self'.semaphores ≡ self.semaphores
  pub generation : self'.next_generation ≡ self.next_generation
  pub sessions :
      (id : SessionId) (s : SessionRef) → session_of self' id ≡ some s → session_of self id ≡ some s

pub Calm-Balanced : {self self' : Registry} → Calm self self' → Balanced self → Balanced self'
Calm-Balanced c b = record {
  global = rw (c.global, c.tasks) b.global;
  each = λ name low high.
      rw (c.semaphores, c.tasks, c.config) (b.each name low (rw⁻¹ c.generation high));
  later = λ name high. rw c.tasks (b.later name (rw⁻¹ c.generation high));
  named = λ id s h. rw c.generation (b.named id s (c.sessions id s h));
  started = rw c.generation b.started;
}

pub Calm-refl : (self : Registry) → Calm self self
Calm-refl self = record {
  config = refl;
  global = refl;
  tasks = refl;
  semaphores = refl;
  generation = refl;
  sessions = λ id s h. h;
}

Calm-trans : {a b c : Registry} → Calm a b → Calm b c → Calm a c
Calm-trans x y = record {
  config = y.config ∙ x.config;
  global = y.global ∙ x.global;
  tasks = y.tasks ∙ x.tasks;
  semaphores = y.semaphores ∙ x.semaphores;
  generation = y.generation ∙ x.generation;
  sessions = λ id s h. x.sessions id s (y.sessions id s h);
}

left :
    (self : Registry) (gone id : SessionId) (s : SessionRef)
    → lookup bytes_discrete id (remove bytes_discrete gone self.sessions) ≡ some s
    → session_of self id ≡ some s
left self gone id s h = ground (arith, lookup-remove bytes_discrete id gone self.sessions)

pub session_lost-Calm :
    (env : Env) (id : SessionId) (generation : ℕ) (self : Registry)
    → Inv self
    → Calm self (session_lost env id generation self)
unfolding drop_pending_for
session_lost-Calm env id generation self v =
    session_lost_cases (Calm self) env id generation self v (Calm-refl self) λ s slot k own same f.
      record {
        config = refl;
        global = refl;
        tasks = refl;
        semaphores = refl;
        generation = refl;
        sessions = left self s.session_id;
      }

pub goodbye-Calm :
    (id : SessionId) (generation : ℕ) (self : Registry)
    → Inv self
    → Calm self (goodbye id generation self)
unfolding drop_pending_for
goodbye-Calm id generation self v =
    goodbye_cases (Calm self) id generation self v (Calm-refl self) λ s slot k own same f. record {
      config = refl;
      global = refl;
      tasks = refl;
      semaphores = refl;
      generation = refl;
      sessions = left self s.session_id;
    }

release_slot-Calm : (port : ℕ) (self : Registry) → Calm self (release_slot port self)
release_slot-Calm port self = elim (Option-cases (slot_at self port)) [
  | inl e ↦ rw (e, release_slot) (Calm-refl self)
  | inr (slot, e) ↦
      rw (e, release_slot)
        (record {
          config = refl;
          global = refl;
          tasks = refl;
          semaphores = refl;
          generation = refl;
          sessions = λ id s h. h;
        })
]

release_all-Calm : (expired : List (ℕ × ℕ)) (self : Registry) → Calm self (release_all expired self)
unfolding release_all
release_all-Calm [] self = Calm-refl self
release_all-Calm ((port, generation) ∷ expired) self =
    Calm-trans (release_slot-Calm port self) (release_all-Calm expired (release_slot port self))

pub sweep-Calm : (now : ℕ) (self : Registry) → Calm self (sweep now self)
unfolding sweep
sweep-Calm now self =
    Calm-trans
      (record {
        config = refl;
        global = refl;
        tasks = refl;
        semaphores = refl;
        generation = refl;
        sessions = λ id s h. h;
      })
      (release_all-Calm _ _)

notify_all-Calm :
    (env : Env) (sessions : List (SessionId × SessionRef)) (self : Registry)
    → Calm self (notify_all env sessions self)
unfolding notify_all
notify_all-Calm env [] self = Calm-refl self
notify_all-Calm env ((id, s) ∷ sessions) self =
    Calm-trans (told env s self) (notify_all-Calm env sessions _)
  where
    told :
        (env : Env) (s : SessionRef) (self : Registry)
        → Calm self (
            emit (cancelled s.data_cancel) (
              try_send env s.writer close_after_flush
                (try_send env s.writer (outbound_frame MessageType.server_shutdown []) self)))
    told env s self = record {
      config = ground arith;
      global = ground arith;
      tasks = ground arith;
      semaphores = ground arith;
      generation = ground arith;
      sessions = λ id t h. ground arith;
    }

cancel_listeners-Calm :
    (ports : List (ℕ × PortSlot)) (self : Registry) → Calm self (cancel_listeners ports self)
unfolding cancel_listeners
cancel_listeners-Calm [] self = Calm-refl self
cancel_listeners-Calm ((port, slot) ∷ ports) self =
    Calm-trans
      (record {
        config = refl;
        global = refl;
        tasks = refl;
        semaphores = refl;
        generation = refl;
        sessions = λ id s h. h;
      })
      (cancel_listeners-Calm ports (emit (cancelled slot.listener_cancel) self))

pub shutdown_all-Calm : (env : Env) (self : Registry) → Calm self (shutdown_all env self)
unfolding shutdown_all lookup
shutdown_all-Calm env self =
    let n = notify_all-Calm env self.sessions self in
    let c = cancel_listeners-Calm (notify_all env self.sessions self).ports _ in
    record {
      config = c.config ∙ n.config;
      global = c.global ∙ n.global;
      tasks = c.tasks ∙ n.tasks;
      semaphores = c.semaphores ∙ n.semaphores;
      generation = c.generation ∙ n.generation;
      sessions = λ id s h. absurd (cc);
    }

pub claim-Calm :
    (env : Env) (self : Registry) (id : SessionId) (request_id : RequestId) (socket : ℕ)
    → Calm self (claim env self id request_id socket).0
unfolding claim
claim-Calm env self id request_id socket = record {
  config = ground arith;
  global = ground arith;
  tasks = ground arith;
  semaphores = ground arith;
  generation = ground arith;
  sessions = λ id s h. ground arith;
}
