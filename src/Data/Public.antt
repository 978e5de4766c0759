-- ===== src/Data/Public.antt =====
-- src/server/listener.rs: the task of one public connection.
use tunlet.Protocol.Frame.{Fault}
use tunlet.Prelude.{ℕ, if◌then◌else◌, Bool, false, Option, none, some, List, []}
use tunlet.Error.{ok, err}
use tunlet.Protocol.Enums.{MessageType, SessionId, RequestId}
use tunlet.Protocol.Frame.{empty, write_frame}
use tunlet.Registry.Actor.{Command, request_finished}

-- What was written to the data connection, whether the two connections are forwarded, and the last
-- command to the registry.
pub record Served : Type 0 where
  pub written : List ℕ
  pub forwards : Bool
  pub command : Command

-- `serve_public`, from what was written to the data connection that arrived, which is `none` if
-- the task was cancelled or its deadline passed before one did. `in_time`: DATA_READY was written
-- before a cancellation and the deadline.
unfoldable pub serve_public : Fault → Option (List ℕ) → Bool → SessionId → RequestId → Served
serve_public fault none in_time session_id request_id = record {
  written = [];
  forwards = false;
  command = request_finished session_id request_id;
}
serve_public fault (some written) in_time session_id request_id =
    elim (write_frame fault written (empty MessageType.data_ready)) [
      | err _ ↦ record {
        written = written;
        forwards = false;
        command = request_finished session_id request_id;
      }
      | ok written' ↦ record {
        written = if in_time then written' else written;
        forwards = in_time;
        command = request_finished session_id request_id;
      }
    ]
