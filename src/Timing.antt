-- ===== src/Timing.antt =====
-- src/timing.rs: the durations, in milliseconds.
use tunlet.Prelude.{ℕ, ◌*◌}

pub record Timing : Type 0 where
  pub handshake : ℕ
  pub control_attempt : ℕ
  pub reconnect_delay : ℕ
  pub reservation : ℕ
  pub request_wait : ℕ
  pub target_connect : ℕ
  pub heartbeat_interval : ℕ
  pub heartbeat_timeout : ℕ
  pub write_timeout : ℕ
  pub shutdown_grace : ℕ
  pub takeover_flush : ℕ
  pub sweep_interval : ℕ

-- `Timing::default`
abbrev pub default : Timing
default = record {
  handshake = 10 * 1000;
  control_attempt = 10 * 1000;
  reconnect_delay = 5 * 1000;
  reservation = 300 * 1000;
  request_wait = 10 * 1000;
  target_connect = 10 * 1000;
  heartbeat_interval = 20 * 1000;
  heartbeat_timeout = 10 * 1000;
  write_timeout = 10 * 1000;
  shutdown_grace = 5 * 1000;
  takeover_flush = 1 * 1000;
  sweep_interval = 100;
}

-- `Timing::fast`
abbrev pub fast : Timing
fast = record {
  handshake = 2 * 1000;
  control_attempt = 2 * 1000;
  reconnect_delay = 100;
  reservation = 600;
  request_wait = 700;
  target_connect = 600;
  heartbeat_interval = 200;
  heartbeat_timeout = 300;
  write_timeout = 2 * 1000;
  shutdown_grace = 2 * 1000;
  takeover_flush = 100;
  sweep_interval = 20;
}
