-- ===== src/Registry/Resume.antt =====
-- src/server/registry.rs: what `register` answers to a process that resumes a port.
use tunlet.Registry.State.{Registry}
