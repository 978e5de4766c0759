-- ===== src/Lib.antt =====
-- tunlet: the protocol, the server and the client of a TCP tunnel.
--
-- A server owns public ports. A client process registers one over a control connection; each
-- public connection becomes a pending request that the client claims with a data connection of its
-- own. The registry actor of the server is the only owner of ports, sessions and requests: the
-- connection handlers and listeners send it commands, and it answers them one after the other.
--
--   Prelude            shared numbers, lists, association lists (Maps) and byte strings (Bytes)
--   Error              src/error.rs
--   Protocol           src/protocol.rs: enumerations, preamble, one module per message, frames,
--                      and the exchange of frames in a handshake (Exchange)
--   Auth               src/auth.rs: labels, transcripts and proofs
--   Timing             src/timing.rs
--   Config             the records of src/config.rs:
--     Text             the functions on texts of the standard library that the parsers use
--     Address          the parsers of src/net.rs
--     Parse            the layers and the file of src/config.rs
--     Validate         server and expose of src/config.rs, and Level::parse
--   Cli                parse of src/cli.rs
--   Registry           src/server/registry.rs:
--     State            the tables, the environment of a step and the effects of it
--     Slots            bind_slot, ensure_slot, allocate_automatic (and is_port_taken of src/net.rs)
--     Register         register and displace
--     Lifecycle        session_lost, goodbye, sweep, shutdown_all
--     Public           accepted_public, claim and the ends of the tasks that serve connections
--     Actor            handle_command and run
--     Handle           RegistryHandle, through which the connections ask the actor
--     the other modules of Registry   proofs: of the invariant, of the permits, and of what each
--                      operation promises
--   Control            src/server/control.rs:
--     Handshake        handshake, and the code that answers a failed one
--     Serve            serve, around the handshake and the session
--     Session          session_loop, as turns that are woken up by what `select!` waits for
--     Writer           writer_loop and read_frames
--   Server             the accept loop and dispatch of src/server/mod.rs
--   Data               src/server/data.rs, and serve_public of src/server/listener.rs (Public)
--   Client             src/client:
--     Register         register of src/client/control.rs
--     Session          run_session of src/client/control.rs, by turns as on the server
--     Supervisor       attempt of src/client/control.rs and run of src/client/mod.rs
--     Open             src/client/data.rs
--
-- Bytes are numbers below 256 and byte strings are lists of them; a fixed size is part of the
-- validity of a message. A reader is the list of the bytes that the peer sends before it closes.
-- HMAC-SHA-256 is third-party code and a parameter. The registry is a record that each operation
-- takes and returns. What it asks of the runtime and of the system in a step (the clock, a bind, a
-- queue's answer, random bytes) is the record `Env`; what it does to them (messages sent, tokens
-- cancelled, tasks started) is appended to a list of effects. Semaphores, channels and tokens are
-- numbers into that environment, and a semaphore is its number of free permits.
--
-- `none` stands for a panic of the code: of the counter of generations at 2^64, and of a slot that
-- is missing after its allocation. The loop that draws request identifiers runs on fuel, `draws`
-- of the environment; the fuel suffices as soon as it reaches a free identifier. The scan of the
-- ports runs on the number of ports in the range. Listener numbers wrap at 2^64.
-- A client process is given its trials, one for each attempt: how connecting goes, what wakes the
-- session up and when it is cancelled; the clock of a set-up, and within which budgets its dials
-- and its handshake end, are given in the same way. Each write of a handshake is given its fault,
-- `none` or the error of the socket (`Faults`, in the order of the writes). Which messages a queue
-- takes is given for each turn of a session loop. The permits of the accept loop are counted with
-- the connections that hold them, in their handshake or behind it. What the actor does for others
-- between two steps of a data connection is a function of the actor, `between`.
-- `read_frames` runs on fuel, one step for each frame and one for the end of the stream.
--
-- Not modelled: the accept loop of a public listener in src/server/listener.rs, the start and the
-- shutdown of src/server/mod.rs, binding and dialing in src/net.rs, the texts of messages, and
-- src/forward.rs, src/logging.rs, src/shutdown.rs and src/main.rs, which call the system or a
-- library. How the standard library reads an IP literal and UTF-8 is given.
-- The order of two commands is the order in which the actor takes them.
pub mod Prelude
pub mod Error
pub mod Protocol
pub mod Auth
pub mod Timing
pub mod Config
pub mod Cli
pub mod Registry
pub mod Control
pub mod Data
pub mod Server
pub mod Client
