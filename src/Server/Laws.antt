-- ===== src/Server/Laws.antt =====
-- src/server/mod.rs: the permits of the accept loop.
use tunlet.Prelude.{ℕ, zero, suc, ◌+◌, ◌≡◌, refl, arith, false, subst}
use tunlet.Registry.State.{max_handshakes}
use tunlet.Server.{
  Supervisor, accepted, establishes, progress, Reachable, starts, accepts, proceeds,
}

-- The permits, wherever they are.
abbrev all : Supervisor → ℕ
all self = self.free + (self.handshaking + self.established)

-- Every distribution of the permits is reached.
reaches :
    (established handshaking free : ℕ)
    → free + (handshaking + established) ≡ 1024
    → Reachable (record { free = free; handshaking = handshaking; established = established })
unfolding accepted progress
reaches zero zero free e =
    subst (λ n. Reachable (record { free = n; handshaking = 0; established = 0 }))
      {x = max_handshakes} {y = free} (omega (arith, e)) starts
reaches zero (suc handshaking) free e =
    subst (λ n. Reachable (record { free = free; handshaking = n; established = 0 }))
      {x = handshaking + 1} {y = suc handshaking} (omega arith)
      (accepts (reaches zero handshaking (suc free) (omega (arith, e))))
reaches (suc established) handshaking free e =
    subst (λ n. Reachable (record { free = free; handshaking = handshaking; established = n }))
      {x = established + 1} {y = suc established} (omega arith)
      (proceeds establishes refl (reaches established (suc handshaking) free (omega (arith, e))))

-- For all numbers of connections in their handshake and of established ones that are 1024
-- together, also where no handshake is incomplete, the accept loop reaches a state with these
-- connections, and in it a new connection is refused.
pub full_refuses :
    (handshaking established : ℕ)
    → handshaking + established ≡ 1024
    → Reachable (record { free = 0; handshaking = handshaking; established = established })
      × ((accepted (record { free = 0; handshaking = handshaking; established = established })).1
          ≡ false)
unfolding accepted
full_refuses handshaking established e =
    (reaches established handshaking 0 (omega (arith, e)), refl)
