-- ===== src/Server/Tests.antt =====
-- src/server/mod.rs: one connection, and a full server, as examples.
use tunlet.Prelude.{◌≡◌, refl, false}
use tunlet.Server.{Supervisor, initial, accepted, Reachable}
use tunlet.Server.Laws.{full_refuses}

abbrev one : Supervisor
one = (accepted initial).0

-- Every handshake is over.
abbrev full : Supervisor
full = record { free = 0; handshaking = 0; established = 1024 }

full_refuses_example : Reachable full × ((accepted full).1 ≡ false)
full_refuses_example = full_refuses 0 1024 refl
