-- ===== src/Config.antt =====
-- src/config.rs: the validated configuration of the server.
-- An IP address is its family and its bytes; the level and `quiet` serve the log alone.
pub mod Text
pub mod Address
pub mod Parse
pub mod Validate
mod Tests
use tunlet.Prelude.{ℕ, List, Bool}

pub data IpAddr : Type 0 where
  v4 v6 : List ℕ → IpAddr

pub record SocketAddr : Type 0 where
  pub ip : IpAddr
  pub port : ℕ

pub data Level : Type 0 where
  error info debug : Level

pub record ServerConfig : Type 0 where
  pub key : List ℕ
  pub listen : SocketAddr
  pub data_bind : IpAddr
  pub min_port : ℕ
  pub max_port : ℕ
  pub max_connections : ℕ
  pub log_level : Level
  pub quiet : Bool
