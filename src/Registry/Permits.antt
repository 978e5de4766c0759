-- ===== src/Registry/Permits.antt =====
-- src/server/registry.rs: the permits that `accepted_public` takes, and the tasks that hold them.
pub mod Calm
pub mod Registration
pub mod Steps
use tunlet.Prelude.{
  ℕ, zero, suc, ◌≡◌, refl, arith, ◌≤◌, ◌<◌, ◌+◌, ◌-◌, ◌==◌, if◌then◌else◌, none, some, length, List,
  [], ◌∷◌, get_elem?, erase_at,
}
use tunlet.Prelude.Maps.{lookup}
use tunlet.Config.{ServerConfig}
use tunlet.Timing.{Timing}
use tunlet.Protocol.Enums.{SessionId}
use tunlet.Registry.State.{
  Registry, SessionRef, Connection, session_of, new, max_global_connections,
}

-- The tasks that hold a permit of one semaphore.
unfoldable pub holders : ℕ → List Connection → ℕ
holders name [] = 0
holders name (task ∷ tasks) =
    let rest = holders name tasks in if task.session_permit == name then suc rest else rest

-- Every permit is free or held by one running task: the global ones, and those of each session
-- that was ever registered. A registered session's semaphore is one of these.
pub record Balanced (self : Registry) : Type 0 where
  pub global : self.global_connections + length self.tasks ≡ max_global_connections
  pub each :
      (name : ℕ)
      → 0 < name
      → name < self.next_generation
      → self.semaphores name + holders name self.tasks ≡ self.config.max_connections
  pub later : (name : ℕ) → self.next_generation ≤ name → holders name self.tasks ≡ 0
  pub named :
      (id : SessionId) (s : SessionRef)
      → session_of self id ≡ some s
      → (0 < s.permits) × (s.permits < self.next_generation)
  pub started : 0 < self.next_generation

pub new-Balanced : (config : ServerConfig) (timing : Timing) → Balanced (new config timing)
unfolding new holders lookup
new-Balanced config timing = record {
  global = refl;
  each = λ name low high. absurd (omega arith);
  later = λ name high. refl;
  named = λ id s h. absurd (cc);
  started = omega arith;
}

pub holders-erase_at :
    (name n : ℕ) (tasks : List Connection) {task : Connection}
    → get_elem? tasks n ≡ some task
    → holders name tasks
      ≡ (if task.session_permit == name then 1 else 0) + holders name (erase_at tasks n)
unfolding holders
holders-erase_at name n [] e = absurd (cc)
holders-erase_at name zero (t ∷ tasks) e = ground arith
holders-erase_at name (suc n) (t ∷ tasks) e = ground (arith, holders-erase_at name n tasks e)

pub length-erase_at :
    (n : ℕ) (tasks : List Connection) {task : Connection}
    → get_elem? tasks n ≡ some task
    → length tasks ≡ suc (length (erase_at tasks n))
length-erase_at n [] e = absurd (cc)
length-erase_at zero (t ∷ tasks) e = ground arith
length-erase_at (suc n) (t ∷ tasks) e = ground (arith, length-erase_at n tasks e)
